-- ===== src/Chunking/Bounds.antt =====
-- services/chunking.py: how long the windows of a page are.
use knowledgeos.Prelude.{
  ℕ, zero, suc, ◌+◌, ◌≤◌, ◌≡◌, refl, inl, inr, List, [], ◌∷◌, ◌++◌, arith, ltb, leb, Bool-cases,
  length, drop, length-append, length-take, All, All-append, ◌-◌, false, Option, ◌==◌, length-drop,
  All-imp, none, some,
}
use knowledgeos.Text.{Text, join, is_empty, last_chars, find_char, strip, Unicode}
use knowledgeos.Chunking.Split.{
  blank_line, slices, cut_sentences, is_blank, subdivide, pieces_of, paragraphs, split_sentences,
}
use knowledgeos.Chunking.Pack.{
  pack_windows, tail_of, with_tail, overlapped, overlap_windows, pack, split_page, from_space,
}

-- A text of at most so many characters.
abbrev pub IsWithin : ℕ → Text → Type 0
IsWithin n s = length s ≤ n

slices-All : (fuel size : ℕ) (s : Text) → All (IsWithin size) (slices fuel size s)
unfolding slices
slices-All zero size s = tt
slices-All (suc fuel) size [] = tt
slices-All (suc fuel) size (c ∷ s) =
    (omega (arith, length-take size (c ∷ s)), slices-All fuel size (drop size (c ∷ s)))

cut_sentences-All : (target : ℕ) (ss : List Text) → All (IsWithin target) (cut_sentences target ss)
unfolding cut_sentences
cut_sentences-All target [] = tt
cut_sentences-All target (s ∷ ss) =
    All-append (IsWithin target) _ _
      (elim (Bool-cases (leb (length s) target)) [
        | inl fits ↦ rw fits (ground (arith, fits), tt)
        | inr long ↦ rw long (slices-All (length s) target s)
      ])
      (cut_sentences-All target ss)

-- The characters of a joined list.
abbrev joined_size : List Text → ℕ
joined_size [] = 0
joined_size (p ∷ []) = length p
joined_size (p ∷ q ∷ ps) = length p + (2 + joined_size (q ∷ ps))

length-join : (ps : List Text) → length (join blank_line ps) ≡ joined_size ps
unfolding join
length-join [] = refl
length-join (p ∷ []) = refl
length-join (p ∷ q ∷ ps) = omega (
  arith,
  length-join (q ∷ ps),
  length-append p (blank_line ++ join blank_line (q ∷ ps)),
  length-append blank_line (join blank_line (q ∷ ps)),
)

joined_size-snoc :
    (p : Text) (ps : List Text) (q : Text)
    → joined_size (p ∷ ps ++ q ∷ []) ≡ joined_size (p ∷ ps) + (length q + 2)
joined_size-snoc p [] q = omega arith
joined_size-snoc p (r ∷ ps) q = omega (arith, joined_size-snoc r ps q)

-- The pieces of the current window fit, and are counted.
abbrev Fits : ℕ → List Text → ℕ → Type 0
Fits target [] size = size ≡ 0
Fits target (p ∷ ps) size = (joined_size (p ∷ ps) ≤ target) × (joined_size (p ∷ ps) ≤ size)

Fits-more :
    (p : Text) (ps : List Text) (piece : Text) (target size : ℕ)
    → ltb target (size + (length piece + 2)) ≡ false
    → Fits target (p ∷ ps) size
    → Fits target (p ∷ ps ++ piece ∷ []) (size + (length piece + 2))
Fits-more p ps piece target size room fits =
    let more = joined_size-snoc p ps piece in
    let few : size + (length piece + 2) ≤ target = ground (arith, room) in
    (omega (arith, more, few, fits.1), omega (arith, more, fits.1))

pack_windows-All :
    (target : ℕ) (current pieces : List Text) (size : ℕ)
    → Fits target current size
    → All (IsWithin target) pieces
    → All (IsWithin target) (pack_windows target current pieces size)
unfolding pack_windows
pack_windows-All target [] [] size fits h = tt
pack_windows-All target (p ∷ ps) [] size fits h = (omega (arith, fits.0, length-join (p ∷ ps)), tt)
pack_windows-All target [] (piece ∷ pieces) size fits h =
    pack_windows-All target (piece ∷ []) pieces (size + (length piece + 0)) (h.0, omega arith) h.1
pack_windows-All target (p ∷ ps) (piece ∷ pieces) size fits h =
    elim (Bool-cases (ltb target (size + (length piece + 2)))) [
      | inl full ↦ rw full (
        omega (arith, fits.0, length-join (p ∷ ps)),
        pack_windows-All target (piece ∷ []) pieces (length piece + 2) (h.0, omega arith) h.1,
      )
      | inr room ↦ rw room (
          pack_windows-All target (p ∷ ps ++ piece ∷ []) pieces (size + (length piece + 2))
            (Fits-more p ps piece target size room fits) h.1)
    ]

from_space-IsWithin :
    (o : Option ℕ) (tail : Text) (n : ℕ) → length tail ≤ n → IsWithin n (from_space o tail)
from_space-IsWithin none tail n h = h
from_space-IsWithin (some space) tail n h = elim (Bool-cases (space == 0)) [
  | inl at_start ↦ rw at_start h
  | inr later ↦ rw later (omega (arith, h, length-drop (space + 1) tail))
]

length-tail_of : (overlap : ℕ) (previous : Text) → length (tail_of overlap previous) ≤ overlap
unfolding tail_of last_chars
length-tail_of overlap previous =
    let tail = drop (length previous - overlap) previous in
    from_space-IsWithin (find_char b' ' tail) tail overlap
      (omega (arith, length-drop (length previous - overlap) previous))

module _ (u : Unicode) (target : ℕ) where
  with_tail-IsWithin :
      (n : ℕ) (tail w : Text)
      → length tail ≤ n
      → length w ≤ target
      → IsWithin (target + n + 2) (with_tail u tail w)
  with_tail-IsWithin n tail w ht hw = elim (Bool-cases (is_empty (strip u tail))) [
    | inl blank ↦ rw blank (omega (arith, hw))
    | inr inked ↦ rw inked (omega (arith, ht, hw, length-append tail (blank_line ++ w)))
  ]

  overlapped-All :
      (overlap : ℕ) (previous : Text) (ws : List Text)
      → All (IsWithin target) ws
      → All (IsWithin (target + overlap + 2)) (overlapped u overlap previous ws)
  unfolding overlapped
  overlapped-All overlap previous [] h = tt
  overlapped-All overlap previous (w ∷ ws) h = (
    with_tail-IsWithin overlap (tail_of overlap previous) w (length-tail_of overlap previous) h.0,
    overlapped-All overlap w ws h.1,
  )

  overlap_windows-All :
      (overlap : ℕ) (ws : List Text)
      → All (IsWithin target) ws
      → All (IsWithin (target + overlap + 2)) (overlap_windows u overlap ws)
  unfolding overlap_windows
  overlap_windows-All overlap [] h = tt
  overlap_windows-All overlap (w ∷ ws) h = elim (Bool-cases (overlap == 0)) [
    | inl none_wanted ↦
        rw none_wanted (All-imp (IsWithin target) _ (w ∷ ws) (λ s short. omega (arith, short)) h)
    | inr wanted ↦ rw wanted (omega (arith, h.0), overlapped-All overlap w ws h.1)
  ]

  subdivide-All : (unit : Text) → All (IsWithin target) (subdivide u target unit)
  unfolding subdivide
  subdivide-All unit =
      let (sentence, sentences) = split_sentences u 0 false unit in
      cut_sentences-All target (sentence ∷ sentences)

  pieces_of-All : (units : List Text) → All (IsWithin target) (pieces_of u target units)
  unfolding pieces_of
  pieces_of-All [] = tt
  pieces_of-All (unit ∷ units) =
      All-append (IsWithin target) _ _
        (elim (Bool-cases (ltb target (length unit))) [
          | inl long ↦ rw long (subdivide-All unit)
          | inr fits ↦ rw fits (ground (arith, fits), tt)
        ])
        (pieces_of-All units)

  -- Every window that is packed from the pieces of a page, before the overlap, is within the chunk
  -- size, whatever the page holds; a window of the page is longer by the overlap and a blank line at
  -- most.
  pub split_page-All :
      (overlap : ℕ) (s : Text)
      → All (IsWithin target) (pack_windows target [] (pieces_of u target (paragraphs u s)) 0)
        × All (IsWithin (target + overlap + 2)) (split_page u target overlap s)
  unfolding split_page pack
  split_page-All overlap s =
      let packed =
        pack_windows-All target [] (pieces_of u target (paragraphs u s)) 0 refl
          (pieces_of-All (paragraphs u s)) in
      (
        packed,
        elim (Bool-cases (is_blank u s)) [
          | inl blank ↦ rw blank tt
          | inr inked ↦ rw inked (elim (Bool-cases (leb (length s) target)) [
            | inl short ↦ rw short (ground (arith, short), tt)
            | inr long ↦ rw long (overlap_windows-All overlap _ packed)
          ])
        ],
      )

-- ===== src/Chunking/Kept.antt =====
-- services/chunking.py: the text of a page is in its windows, and is there still when the fragments are
-- absorbed.
use mathlib.Core.List.{append_assoc, append-nil}
use knowledgeos.Prelude.{
  ℕ, ◌+◌, ◌≡◌, refl, sym, ap, ◌∙◌, inl, inr, true, ◌&&◌, not, List, [], ◌∷◌, ◌++◌, ltb,
  if◌then◌else◌, Bool-cases, length, ◌≤◌, leb,
}
use knowledgeos.Text.{Text, is_empty, join, Unicode, strip}
use knowledgeos.Chunking.Split.{newline, blank_line, is_blank, pieces_of, paragraphs}
use knowledgeos.Chunking.Pack.{pack_windows, overlap_windows, pack, split_page}
use knowledgeos.Chunking.Absorb.{joined}
use knowledgeos.Chunking.Ink.{
  ink, ink_all, ink-append, ink_all-append, ink-strip, no_ink, ink-paragraphs, ink-pieces_of,
}

module _ (u : Unicode) (newline_space : u.is_space newline ≡ true) where
  pub ink-joined : (a b : Text) → ink u (joined a b) ≡ ink u a ++ ink u b
  unfolding ink
  ink-joined a b = ink-append u a (blank_line ++ b) ∙ ap (λ r. ink u a ++ r) (rw newline_space refl)

  ink-join : (ps : List Text) → ink u (join blank_line ps) ≡ ink_all u ps
  unfolding join ink_all ink
  ink-join [] = refl
  ink-join (p ∷ []) = sym (append-nil (ink u p))
  ink-join (p ∷ q ∷ ps) =
      ink-joined p (join blank_line (q ∷ ps)) ∙ ap (λ r. ink u p ++ r) (ink-join (q ∷ ps))

  ink_piece :
      (p : Text) (ps : List Text) → ink_all u (p ∷ []) ++ ink_all u ps ≡ ink u p ++ ink_all u ps
  unfolding ink_all
  ink_piece p ps = ap (λ r. r ++ ink_all u ps) (append-nil (ink u p))

  ink-snoc :
      (current : List Text) (p : Text) (ps : List Text)
      → ink_all u (current ++ p ∷ []) ++ ink_all u ps
        ≡ ink_all u current ++ (ink u p ++ ink_all u ps)
  ink-snoc current p ps =
      ap (λ r. r ++ ink_all u ps) (ink_all-append u current (p ∷ []))
      ∙ append_assoc (ink_all u current) (ink_all u (p ∷ [])) (ink_all u ps)
      ∙ ap (λ r. ink_all u current ++ r) (ink_piece p ps)

  ink-pack_windows :
      (target : ℕ) (current pieces : List Text) (size : ℕ)
      → ink_all u (pack_windows target current pieces size) ≡ ink_all u current ++ ink_all u pieces
  unfolding pack_windows ink_all
  ink-pack_windows target [] [] size = refl
  ink-pack_windows target (p ∷ current) [] size = ap (λ r. r ++ []) (ink-join (p ∷ current))
  ink-pack_windows target current (piece ∷ pieces) size =
      let addition = length piece + (if is_empty current then 0 else 2) in
      elim (Bool-cases (not (is_empty current) && ltb target (size + addition))) [
        | inl full ↦ rw full (
            ap (λ r. ink u (join blank_line current) ++ r)
              (ink-pack_windows target (piece ∷ []) pieces addition ∙ ink_piece piece pieces)
            ∙ ap (λ r. r ++ (ink u piece ++ ink_all u pieces)) (ink-join current))
        | inr room ↦ rw room (
            ink-pack_windows target (current ++ piece ∷ []) pieces (size + addition)
            ∙ ink-snoc current piece pieces)
      ]

  ink-no_overlap : (ws : List Text) → ink_all u (overlap_windows u 0 ws) ≡ ink_all u ws
  unfolding overlap_windows
  ink-no_overlap [] = refl
  ink-no_overlap (w ∷ ws) = refl

  ink_one : (s : Text) → ink_all u (s ∷ []) ≡ ink u s
  unfolding ink_all
  ink_one s = append-nil (ink u s)

  ink-pack :
      (target : ℕ) (pieces : List Text) → ink_all u (pack u target 0 pieces) ≡ ink_all u pieces
  unfolding pack ink_all
  ink-pack target pieces =
      ink-no_overlap (pack_windows target [] pieces 0) ∙ ink-pack_windows target [] pieces 0

  ink-blank : (s : Text) → is_blank u s ≡ true → ink_all u [] ≡ ink u s
  unfolding ink_all
  ink-blank s blank = sym (sym (ink-strip u s) ∙ no_ink u (strip u s) blank)

  -- Without an overlap the windows of a page hold its text, but for white space, in order and once.
  pub ink-split_page :
      (target : ℕ) (s : Text) → 1 ≤ target → ink_all u (split_page u target 0 s) ≡ ink u s
  unfolding split_page
  ink-split_page target s positive = elim (Bool-cases (is_blank u s)) [
    | inl blank ↦ rw blank (ink-blank s blank)
    | inr inked ↦ rw inked (elim (Bool-cases (leb (length s) target)) [
      | inl short ↦ rw short (ink_one s)
      | inr long ↦ rw long (
          ink-pack target (pieces_of u target (paragraphs u s))
          ∙ ink-pieces_of u target (paragraphs u s) positive
          ∙ ink-paragraphs u newline_space s)
    ])
  ]

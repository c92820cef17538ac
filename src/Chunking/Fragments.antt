-- ===== src/Chunking/Fragments.antt =====
-- `_absorb_fragments` of services/chunking.py: what becomes of the fragments.
use mathlib.Core.List.{append_assoc, append-nil}
use knowledgeos.Prelude.{
  ℕ, ◌+◌, ◌≤◌, ◌≡◌, ◌⊎◌, inl, inr, List, [], ◌∷◌, ◌++◌, arith, ltb, leb, Bool-cases, length,
  length-append, All, ◌*◌, refl, sym, ◌∙◌, true, ◌&&◌, if◌then◌else◌, ap, subst,
}
use knowledgeos.Chunking.Ink.{ink, ink_all, ink-strip}
use knowledgeos.Chunking.Kept.{ink-joined}
use knowledgeos.Text.{Text, Unicode, is_empty, strip}
use knowledgeos.Chunking.Split.{blank_line, newline}
use knowledgeos.Chunking.Absorb.{
  min_chunk_chars, joined, attach_carry, reversed, not_empty, carry_forward, absorb_fragments,
  absorb, merge_fragments,
}

-- A window that is no fragment.
abbrev pub IsLarge : Text → Type 0
IsLarge w = min_chunk_chars ≤ length w

reversed-All :
    (P : Text → Type 0) (done ws : List Text) → All P done → All P ws → All P (reversed done ws)
unfolding reversed
reversed-All P done [] hd hw = hd
reversed-All P done (w ∷ ws) hd hw = reversed-All P (w ∷ done) ws (hw.0, hd) hw.1

joined-IsLarge : (a b : Text) → IsLarge a ⊎ IsLarge b → IsLarge (joined a b)
joined-IsLarge a b (inl ha) = omega (arith, ha, length-append a (blank_line ++ b))
joined-IsLarge a b (inr hb) = omega (arith, hb, length-append a (blank_line ++ b))

attach_carry-All :
    (carry : Text) (fixed : List Text) → All IsLarge fixed → All IsLarge (attach_carry carry fixed)
attach_carry-All carry [] h = elim (Bool-cases (leb min_chunk_chars (length carry))) [
  | inl large ↦ rw large (ground (arith, large), tt)
  | inr short ↦ rw short tt
]
attach_carry-All [] (last ∷ fixed) h = h
attach_carry-All (c ∷ carry) (last ∷ fixed) h =
    elim (Bool-cases (leb min_chunk_chars (length (c ∷ carry)))) [
      | inl large ↦ rw large (ground (arith, large), h)
      | inr short ↦ rw short (joined-IsLarge last (c ∷ carry) (inl h.0), h.1)
    ]

whole-IsLarge :
    (carry w : Text) → IsLarge w → IsLarge (if is_empty carry then w else joined carry w)
whole-IsLarge [] w h = h
whole-IsLarge (c ∷ carry) w h = joined-IsLarge (c ∷ carry) w (inr h)

regroup : (a b c d : Text) → (a ++ (b ++ c)) ++ d ≡ (a ++ b) ++ (c ++ d)
regroup a b c d = ap (λ r. r ++ d) (sym (append_assoc a b c)) ∙ append_assoc (a ++ b) c d

-- The characters of windows that are listed with the last one first.
abbrev ink_back : Unicode → List Text → Text
ink_back u [] = []
ink_back u (w ∷ ws) = ink_back u ws ++ ink u w

module _ (u : Unicode) where
  carry_forward-All :
      (carry : Text) (fixed ws : List Text)
      → All IsLarge fixed
      → All IsLarge (carry_forward u carry fixed ws)
  unfolding carry_forward
  carry_forward-All carry fixed [] h = attach_carry-All carry fixed h
  carry_forward-All carry fixed (w ∷ ws) h = elim (Bool-cases (ltb (length w) min_chunk_chars)) [
    | inl fragment ↦ rw fragment (carry_forward-All _ fixed ws h)
    | inr large ↦
        rw large (carry_forward-All [] _ ws (whole-IsLarge carry w (ground (arith, large)), h))
  ]

  merge_fragments-All :
      (target : ℕ) (ws : List Text)
      → All IsLarge (merge_fragments u target ws)
        ⊎ ((w : Text) × (ws ≡ w ∷ []) × (merge_fragments u target ws ≡ w ∷ []))
  merge_fragments-All target [] = inl tt
  merge_fragments-All target (w ∷ []) = inr (w, refl, refl)
  merge_fragments-All target (w ∷ v ∷ ws) =
      inl (reversed-All IsLarge [] _ tt (carry_forward-All [] [] _ tt))

  absorb_fragments-All :
      (target : ℕ) (windows : List Text)
      → All IsLarge (absorb_fragments u target windows)
        ⊎ ((w : Text) × (not_empty windows ≡ w ∷ []) × (absorb_fragments u target windows ≡ w ∷ []))
  unfolding absorb_fragments
  absorb_fragments-All target windows = merge_fragments-All target (not_empty windows)

  ink-reversed :
      (done ws : List Text) → ink_all u (reversed done ws) ≡ ink_back u ws ++ ink_all u done
  unfolding reversed ink_all
  ink-reversed done [] = refl
  ink-reversed done (w ∷ ws) =
      ink-reversed (w ∷ done) ws ∙ sym (append_assoc (ink_back u ws) (ink u w) (ink_all u done))

  module _ (newline_space : u.is_space newline ≡ true) where
    ink_back-absorb :
        (target : ℕ) (out ws : List Text)
        → ink_back u (absorb target out ws) ≡ ink_back u out ++ ink_all u ws
    unfolding absorb ink_all
    ink_back-absorb target out [] = sym (append-nil (ink_back u out))
    ink_back-absorb target [] (w ∷ ws) = ink_back-absorb target (w ∷ []) ws
    ink_back-absorb target (last ∷ out) (w ∷ ws) =
        elim (Bool-cases (
          ltb (length w) min_chunk_chars
          && leb (10 * (length last + length w + 2)) (13 * target))) [
            | inl room ↦ rw room (
                ink_back-absorb target (joined last w ∷ out) ws
                ∙ ap (λ r. (ink_back u out ++ r) ++ ink_all u ws)
                    (ink-joined u newline_space last w)
                ∙ regroup (ink_back u out) (ink u last) (ink u w) (ink_all u ws))
            | inr full ↦ rw full (
                ink_back-absorb target (w ∷ last ∷ out) ws
                ∙ append_assoc (ink_back u out ++ ink u last) (ink u w) (ink_all u ws))
          ]

    -- What the second pass keeps of its carry, its list and the windows to come, or it keeps nothing.
    abbrev KeepsAll : List Text → Text → Type 0
    KeepsAll out s = (out ≡ []) ⊎ (ink_back u out ≡ s)

    attach_carry-KeepsAll :
        (carry : Text) (fixed : List Text)
        → KeepsAll (attach_carry carry fixed) (ink_back u fixed ++ ink u carry)
    unfolding ink
    attach_carry-KeepsAll carry [] = elim (Bool-cases (leb min_chunk_chars (length carry))) [
      | inl large ↦ rw large (inr refl)
      | inr short ↦ rw short (inl refl)
    ]
    attach_carry-KeepsAll [] (last ∷ fixed) = inr (sym (append-nil (ink_back u (last ∷ fixed))))
    attach_carry-KeepsAll (c ∷ carry) (last ∷ fixed) =
        elim (Bool-cases (leb min_chunk_chars (length (c ∷ carry)))) [
          | inl large ↦ rw large (inr refl)
          | inr short ↦ rw short (
              inr (
                ap (λ r. ink_back u fixed ++ r) (ink-joined u newline_space last (c ∷ carry))
                ∙ sym (append_assoc (ink_back u fixed) (ink u last) (ink u (c ∷ carry)))))
        ]

    ink_whole :
        (carry w : Text)
        → ink u (if is_empty carry then w else joined carry w) ≡ ink u carry ++ ink u w
    unfolding ink
    ink_whole [] w = refl
    ink_whole (c ∷ carry) w = ink-joined u newline_space (c ∷ carry) w

    ink_carried :
        (carry w : Text)
        → ink u
            (if is_empty carry then w else strip u (if is_empty carry then w else joined carry w))
          ≡ ink u carry ++ ink u w
    unfolding ink
    ink_carried [] w = refl
    ink_carried (c ∷ carry) w =
        ink-strip u (joined (c ∷ carry) w) ∙ ink-joined u newline_space (c ∷ carry) w

    carry_forward-KeepsAll :
        (carry : Text) (fixed ws : List Text)
        → KeepsAll
            (carry_forward u carry fixed ws)
            ((ink_back u fixed ++ ink u carry) ++ ink_all u ws)
    unfolding carry_forward ink_all ink
    carry_forward-KeepsAll carry fixed [] =
        subst (KeepsAll (attach_carry carry fixed))
          (sym (append-nil (ink_back u fixed ++ ink u carry))) (attach_carry-KeepsAll carry fixed)
    carry_forward-KeepsAll carry fixed (w ∷ ws) =
        elim (Bool-cases (ltb (length w) min_chunk_chars)) [
          | inl fragment ↦ rw fragment (
              subst (KeepsAll _)
                (ap (λ r. (ink_back u fixed ++ r) ++ ink_all u ws) (ink_carried carry w)
                  ∙ regroup (ink_back u fixed) (ink u carry) (ink u w) (ink_all u ws))
                (carry_forward-KeepsAll _ fixed ws))
          | inr large ↦ rw large (
              subst (KeepsAll _)
                (ap (λ r. r ++ ink_all u ws)
                    (append-nil
                      (ink_back u fixed ++ ink u (if is_empty carry then w else joined carry w)))
                  ∙ ap (λ r. (ink_back u fixed ++ r) ++ ink_all u ws) (ink_whole carry w)
                  ∙ regroup (ink_back u fixed) (ink u carry) (ink u w) (ink_all u ws))
                (carry_forward-KeepsAll [] _ ws))
        ]

    reversed_nothing : (ws : List Text) → ws ≡ [] → reversed [] ws ≡ []
    unfolding reversed
    reversed_nothing ws h = rw h refl

    -- Both passes, on any windows.
    merged :
        (target : ℕ) (ws : List Text)
        → let out = reversed [] (carry_forward u [] [] (reversed [] (absorb target [] ws))) in
          (out ≡ []) ⊎ (ink_all u out ≡ ink_all u ws)
    unfolding ink ink_all
    merged target ws =
        let first = reversed [] (absorb target [] ws) in
        elim (carry_forward-KeepsAll [] [] first) [
          | inl nothing ↦ inl (reversed_nothing (carry_forward u [] [] first) nothing)
          | inr all ↦ inr (
              ink-reversed [] (carry_forward u [] [] first)
              ∙ append-nil (ink_back u (carry_forward u [] [] first))
              ∙ all
              ∙ ink-reversed [] (absorb target [] ws)
              ∙ append-nil (ink_back u (absorb target [] ws))
              ∙ ink_back-absorb target [] ws)
        ]

    merge_fragments-Kept :
        (target : ℕ) (ws : List Text)
        → (merge_fragments u target ws ≡ [])
          ⊎ (ink_all u (merge_fragments u target ws) ≡ ink_all u ws)
    merge_fragments-Kept target [] = inl refl
    merge_fragments-Kept target (w ∷ []) = inr refl
    merge_fragments-Kept target (w ∷ v ∷ ws) = merged target (w ∷ v ∷ ws)

    ink-not_empty : (ws : List Text) → ink_all u (not_empty ws) ≡ ink_all u ws
    unfolding not_empty ink_all ink
    ink-not_empty [] = refl
    ink-not_empty ([] ∷ ws) = ink-not_empty ws
    ink-not_empty ((c ∷ w) ∷ ws) = ap (λ r. ink u (c ∷ w) ++ r) (ink-not_empty ws)

    -- The absorption keeps the text of the windows, but for white space, or it drops all of it. No
    -- window that comes out is a fragment, but where there was one window only. One window only comes
    -- out as it is, fragment or not.
    pub absorb_fragments-Kept :
        (target : ℕ) (windows : List Text)
        → ((absorb_fragments u target windows ≡ [])
            ⊎ (ink_all u (absorb_fragments u target windows) ≡ ink_all u windows))
          × (All IsLarge (absorb_fragments u target windows)
              ⊎ ((w : Text) × (not_empty windows ≡ w ∷ [])
                  × (absorb_fragments u target windows ≡ w ∷ [])))
          × ((w : Text) → not_empty windows ≡ w ∷ [] → absorb_fragments u target windows ≡ w ∷ [])
    unfolding absorb_fragments
    absorb_fragments-Kept target windows = (
      elim (merge_fragments-Kept target (not_empty windows)) [
        | inl nothing ↦ inl nothing
        | inr all ↦ inr (all ∙ ink-not_empty windows)
      ],
      absorb_fragments-All target windows,
      λ w one. rw one refl,
    )

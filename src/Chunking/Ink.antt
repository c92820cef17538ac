-- ===== src/Chunking/Ink.antt =====
-- services/chunking.py: cutting a page into windows, and absorbing the fragments, moves no character
-- that is not white space and loses none.
use mathlib.Core.List.{append_assoc, append-nil}
use knowledgeos.Prelude.{
  ◌≡◌, refl, sym, ap, ◌∙◌, inl, inr, Bool, List, [], ◌∷◌, ◌++◌, if◌then◌else◌, Bool-cases, ℕ, ◌&&◌,
  suc, true, false, arith, ◌==◌, drop, zero, ◌-◌, subst, ◌⊎◌, ◌≤◌, ltb, leb, length, take,
  take-append-drop, length-drop,
}
use knowledgeos.Chunking.Split.{
  newline, after_break, split_paragraphs, not_blank, ends_sentence, gap, sentence_gap,
  split_sentences, is_blank, paragraphs, slices, cut_sentences, subdivide, pieces_of,
}
use knowledgeos.Text.{Text, lstrip, rstrip, strip, Unicode, is_empty}

module _ (u : Unicode) where
  open u use {is_space}

  -- The characters of a text that are not white space.
  unfoldable pub ink : Text → Text
  ink [] = []
  ink (c ∷ s) = if is_space c then ink s else c ∷ ink s

  unfoldable pub ink_all : List Text → Text
  unfolding ink
  ink_all [] = []
  ink_all (s ∷ ss) = ink s ++ ink_all ss

  pub ink-append : (s t : Text) → ink (s ++ t) ≡ ink s ++ ink t
  unfolding ink
  ink-append [] t = refl
  ink-append (c ∷ s) t = elim (Bool-cases (is_space c)) [
    | inl space ↦ rw space (ink-append s t)
    | inr other ↦ rw other (ap (λ r. c ∷ r) (ink-append s t))
  ]

  pub ink_all-append : (ss ts : List Text) → ink_all (ss ++ ts) ≡ ink_all ss ++ ink_all ts
  unfolding ink_all
  ink_all-append [] ts = refl
  ink_all-append (s ∷ ss) ts =
      ap (λ r. ink s ++ r) (ink_all-append ss ts)
      ∙ sym (append_assoc (ink s) (ink_all ss) (ink_all ts))

  ink-lstrip : (s : Text) → ink (lstrip u s) ≡ ink s
  unfolding ink lstrip
  ink-lstrip [] = refl
  ink-lstrip (c ∷ s) = elim (Bool-cases (is_space c)) [
    | inl space ↦ rw space (ink-lstrip s)
    | inr other ↦ rw other (rw other refl)
  ]

  ink_trimmed :
      (c : ℕ) (r s : Text)
      → ink r ≡ ink s
      → ink (if is_space c && is_empty r then [] else c ∷ r) ≡ ink (c ∷ s)
  unfolding ink
  ink_trimmed c [] s h = ground (arith, h)
  ink_trimmed c (d ∷ r) s h = ground (arith, h)

  ink-rstrip : (s : Text) → ink (rstrip u s) ≡ ink s
  unfolding ink rstrip
  ink-rstrip [] = refl
  ink-rstrip (c ∷ s) = ink_trimmed c (rstrip u s) s (ink-rstrip s)

  pub ink-strip : (s : Text) → ink (strip u s) ≡ ink s
  unfolding strip
  ink-strip s = ink-rstrip (lstrip u s) ∙ ink-lstrip s

  -- What a text cut in two parts keeps.
  abbrev KeepsInk : Text × List Text → Text → Type 0
  KeepsInk parts s = ink parts.0 ++ ink_all parts.1 ≡ ink s

  drop_break :
      (c more : ℕ) (s : Text)
      → ink (drop more s) ≡ ink s
      → ink (
          drop
            (if is_space c
              then (if more == 0 then (if c == newline then 1 else 0) else suc more)
              else 0)
            (c ∷ s))
        ≡ ink (c ∷ s)
  unfolding ink
  drop_break c more s h = elim (Bool-cases (is_space c)) [
    | inl space ↦ elim (Bool-cases (more == 0)) [
      | inl none_later ↦ elim (Bool-cases (c == newline)) [
        | inl here ↦ rw space (rw none_later (rw here refl))
        | inr other ↦ rw space (rw none_later (rw other (rw space refl)))
      ]
      | inr later ↦ rw space (rw later h)
    ]
    | inr other ↦ rw other (rw other refl)
  ]

  ink-after_break : (s : Text) → ink (drop (after_break u s) s) ≡ ink s
  unfolding ink after_break
  ink-after_break [] = refl
  ink-after_break (c ∷ s) = drop_break c (after_break u s) s (ink-after_break s)

  keep_char :
      (c : ℕ) (s : Text) (parts : Text × List Text)
      → KeepsInk parts s
      → KeepsInk (c ∷ parts.0, parts.1) (c ∷ s)
  unfolding ink
  keep_char c s parts h = elim (Bool-cases (is_space c)) [
    | inl blank ↦ rw blank h
    | inr other ↦ rw other (ap (λ r. c ∷ r) h)
  ]

  paragraph_start :
      (c taken : ℕ) (s : Text) (parts : Text × List Text)
      → KeepsInk parts s
      → ((taken == 0) ≡ false → is_space c ≡ true)
      → KeepsInk (if taken == 0 then (c ∷ parts.0, parts.1) else ([], parts.0 ∷ parts.1)) (c ∷ s)
  unfolding ink ink_all
  paragraph_start c taken s parts h space = elim (Bool-cases (taken == 0)) [
    | inl none_taken ↦ rw none_taken (keep_char c s parts h)
    | inr some_taken ↦ rw some_taken (rw (space some_taken) h)
  ]

  break_taken :
      (c : ℕ) (s : Text)
      → ((c == newline) ≡ true) ⊎ ((c == newline) ≡ false)
      → ink (drop (if c == newline then after_break u s else 0) s) ≡ ink s
  break_taken c s (inl here) = rw here (ink-after_break s)
  break_taken c s (inr other) = rw other refl

  newline_taken : (c n : ℕ) → ((if c == newline then n else 0) == 0) ≡ false → c ≡ newline
  newline_taken c n h = ground (arith, h)

  -- Where a paragraph ends, a newline is passed over.
  module _ (newline_space : is_space newline ≡ true) where
    ink-split_paragraphs :
        (skip : ℕ) (s : Text) → KeepsInk (split_paragraphs u skip s) (drop skip s)
    unfolding split_paragraphs ink ink_all
    ink-split_paragraphs zero [] = refl
    ink-split_paragraphs (suc skip) [] = refl
    ink-split_paragraphs (suc skip) (c ∷ s) = ink-split_paragraphs skip s
    ink-split_paragraphs zero (c ∷ s) =
        let taken = if c == newline then after_break u s else 0 in
        paragraph_start c taken s (split_paragraphs u taken s)
          (ink-split_paragraphs taken s ∙ break_taken c s (Bool-cases (c == newline)))
          (λ some_taken.
            subst (λ k. is_space k ≡ true) (sym (newline_taken c (after_break u s) some_taken))
              newline_space)

  pub no_ink : (t : Text) → is_empty t ≡ true → ink t ≡ []
  unfolding ink
  no_ink [] h = refl
  no_ink (c ∷ t) h = cc h

  ink-not_blank : (ss : List Text) → ink_all (not_blank u ss) ≡ ink_all ss
  unfolding ink_all not_blank
  ink-not_blank [] = refl
  ink-not_blank (s ∷ ss) = elim (Bool-cases (is_blank u s)) [
    | inl blank ↦ rw blank (
        ink-not_blank ss
        ∙ ap (λ r. r ++ ink_all ss) (sym (sym (ink-strip s) ∙ no_ink (strip u s) blank)))
    | inr inked ↦ rw inked (ap (λ r. ink s ++ r) (ink-not_blank ss))
  ]

  -- The paragraphs of a page
  pub ink-paragraphs : is_space newline ≡ true → (s : Text) → ink_all (paragraphs u s) ≡ ink s
  unfolding paragraphs ink_all
  ink-paragraphs newline_space s =
      let (unit, units) = split_paragraphs u 0 s in
      ink-not_blank (unit ∷ units) ∙ ink-split_paragraphs newline_space 0 s

  ink-gap : (s : Text) → ink (drop (gap u s).0 s) ≡ ink s
  unfolding gap ink
  ink-gap [] = refl
  ink-gap (c ∷ s) = elim (Bool-cases (is_space c)) [
    | inl space ↦ rw space (ink-gap s)
    | inr other ↦ rw other (rw other refl)
  ]

  ink-sentence_gap : (ended : Bool) (s : Text) → ink (drop (sentence_gap u ended s) s) ≡ ink s
  unfolding sentence_gap
  ink-sentence_gap ended s = elim (Bool-cases (ended && (gap u s).1)) [
    | inl matched ↦ rw matched (ink-gap s)
    | inr other ↦ rw other refl
  ]

  pred_suc : (n : ℕ) → suc n - 1 ≡ n
  pred_suc n = omega arith

  sentence_start :
      (c taken : ℕ) (s : Text) (parts : Text × List Text)
      → KeepsInk parts (drop (taken - 1) s)
      → ink (drop taken (c ∷ s)) ≡ ink (c ∷ s)
      → KeepsInk (if taken == 0 then (c ∷ parts.0, parts.1) else ([], parts.0 ∷ parts.1)) (c ∷ s)
  unfolding ink ink_all
  sentence_start c zero s parts h dropped = keep_char c s parts h
  sentence_start c (suc taken) s parts h dropped =
      let kept : KeepsInk parts (drop taken s) =
        subst (λ n. KeepsInk parts (drop n s)) (pred_suc taken) h in
      let some_taken : (suc taken == 0) ≡ false = ground arith in rw some_taken (kept ∙ dropped)

  ink-split_sentences :
      (skip : ℕ) (ended : Bool) (s : Text) → KeepsInk (split_sentences u skip ended s) (drop skip s)
  unfolding split_sentences ink ink_all
  ink-split_sentences zero ended [] = refl
  ink-split_sentences (suc skip) ended [] = refl
  ink-split_sentences (suc skip) ended (c ∷ s) = ink-split_sentences skip false s
  ink-split_sentences zero ended (c ∷ s) =
      let taken = sentence_gap u ended (c ∷ s) in
      let then_ended = if taken == 0 then ends_sentence u c else false in
      sentence_start c taken s (split_sentences u (taken - 1) then_ended s)
        (ink-split_sentences (taken - 1) then_ended s) (ink-sentence_gap ended (c ∷ s))

  ink-slices :
      (fuel size : ℕ) (s : Text) → 1 ≤ size → length s ≤ fuel → ink_all (slices fuel size s) ≡ ink s
  unfolding slices ink ink_all
  ink-slices zero size [] positive enough = refl
  ink-slices zero size (c ∷ s) positive enough = absurd (omega (arith, enough))
  ink-slices (suc fuel) size [] positive enough = refl
  ink-slices (suc fuel) size (c ∷ s) positive enough =
      ap (λ r. ink (take size (c ∷ s)) ++ r)
        (ink-slices fuel size (drop size (c ∷ s)) positive
          (omega (arith, positive, enough, length-drop size (c ∷ s))))
      ∙ sym (ink-append (take size (c ∷ s)) (drop size (c ∷ s)))
      ∙ ap ink (take-append-drop size (c ∷ s))

  ink-cut_sentences :
      (target : ℕ) (ss : List Text) → 1 ≤ target → ink_all (cut_sentences target ss) ≡ ink_all ss
  unfolding cut_sentences ink_all
  ink-cut_sentences target [] positive = refl
  ink-cut_sentences target (s ∷ ss) positive =
      ink_all-append (if leb (length s) target then s ∷ [] else slices (length s) target s)
        (cut_sentences target ss)
      ∙ ap (λ r. r ++ ink_all (cut_sentences target ss))
          (elim (Bool-cases (leb (length s) target)) [
            | inl fits ↦ rw fits (append-nil (ink s))
            | inr long ↦ rw long (ink-slices (length s) target s positive (omega arith))
          ])
      ∙ ap (λ r. ink s ++ r) (ink-cut_sentences target ss positive)

  ink-subdivide :
      (target : ℕ) (unit : Text) → 1 ≤ target → ink_all (subdivide u target unit) ≡ ink unit
  unfolding subdivide ink_all
  ink-subdivide target unit positive =
      let (sentence, sentences) = split_sentences u 0 false unit in
      ink-cut_sentences target (sentence ∷ sentences) positive ∙ ink-split_sentences 0 false unit

  pub ink-pieces_of :
      (target : ℕ) (units : List Text)
      → 1 ≤ target
      → ink_all (pieces_of u target units) ≡ ink_all units
  unfolding pieces_of ink_all
  ink-pieces_of target [] positive = refl
  ink-pieces_of target (unit ∷ units) positive =
      ink_all-append (if ltb target (length unit) then subdivide u target unit else unit ∷ [])
        (pieces_of u target units)
      ∙ ap (λ r. r ++ ink_all (pieces_of u target units))
          (elim (Bool-cases (ltb target (length unit))) [
            | inl long ↦ rw long (ink-subdivide target unit positive)
            | inr fits ↦ rw fits (append-nil (ink unit))
          ])
      ∙ ap (λ r. ink unit ++ r) (ink-pieces_of target units positive)

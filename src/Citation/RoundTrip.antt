-- ===== src/Citation/RoundTrip.antt =====
-- The markers of the text that `_MARKER.sub(_replace, text)` returns.
use mathlib.Core.List.{append_assoc}
use knowledgeos.Prelude.{
  ℕ, zero, suc, ◌+◌, ◌*◌, ◌/◌, ◌%◌, ◌≤◌, ◌<◌, ◌≡◌, refl, true, false, none, some, List, [], ◌∷◌,
  ◌++◌, ltb, ◌==◌, if◌then◌else◌, arith, Bool-cases, inl, inr, ◌∙◌, ap,
}
use knowledgeos.Text.{Text, Unicode, show_from}
use knowledgeos.Citation.Marker.{
  Segment, char, cited, opened, in_number, scan, scan_step, segments_from,
}
use knowledgeos.Citation.{Tally, in_range, show_marker, kept_text, note_numbers, replace_markers}
use knowledgeos.Citation.Numbers.{cited_numbers}

-- The decimal digits of ASCII and the brackets, as the Unicode database has them.
pub record ReadsAscii (u : Unicode) : Type 0 where
  pub digits : (d : ℕ) → d < 10 → u.digit (48 + d) ≡ some d
  pub open_bracket : u.digit b'[' ≡ none
  pub close_bracket : u.digit b']' ≡ none
  pub not_space : (c : ℕ) → b'0' ≤ c → c ≤ b']' → u.is_space c ≡ false

-- How many digits `show_from` writes.
digit_count : ℕ → ℕ → ℕ
digit_count zero n = 0
digit_count (suc fuel) n = let more = digit_count fuel (n / 10) in if ltb n 10 then 1 else more + 1

show_from-append :
    (fuel n : ℕ) (rest t : Text) → show_from fuel n rest ++ t ≡ show_from fuel n (rest ++ t)
unfolding show_from
show_from-append zero n rest t = refl
show_from-append (suc fuel) n rest t = elim (Bool-cases (ltb n 10)) [
  | inl last ↦ rw last refl
  | inr more ↦ rw more (show_from-append fuel (n / 10) ((48 + n % 10) ∷ rest) t)
]

module _ (u : Unicode) (ascii : ReadsAscii u) where
  scan_digit :
      (a d used : ℕ) (ns : List ℕ) (s : Text)
      → d < 10
      → scan u (in_number a) ns used ((48 + d) ∷ s)
        ≡ scan u (in_number (a * 10 + d)) ns (used + 1) s
  unfolding scan scan_step
  scan_digit a d used ns s h = rw (ascii.digits d h, scan) refl

  scan_opened :
      (d used : ℕ) (ns : List ℕ) (s : Text)
      → d < 10
      → scan u opened ns used ((48 + d) ∷ s) ≡ scan u (in_number d) ns (used + 1) s
  unfolding scan scan_step
  scan_opened d used ns s h = rw (ascii.digits d h, scan) refl

  -- The scanner reads back the number that was written.
  scan-show_from :
      (fuel n used : ℕ) (ns : List ℕ) (rest : Text)
      → n < fuel
      → scan u opened ns used (show_from fuel n rest)
        ≡ scan u (in_number n) ns (used + digit_count fuel n) rest
  unfolding show_from digit_count
  scan-show_from zero n used ns rest h = absurd (omega arith)
  scan-show_from (suc fuel) n used ns rest h = elim (Bool-cases (ltb n 10)) [
    | inl last ↦ rw last (
        scan_opened (n % 10) used ns rest (omega arith)
        ∙ ap (λ (m : ℕ). scan u (in_number m) ns (used + 1) rest) (ground arith))
    | inr more ↦ rw more (
        scan-show_from fuel (n / 10) used ns ((48 + n % 10) ∷ rest) (ground arith)
        ∙ scan_digit (n / 10) (n % 10) (used + digit_count fuel (n / 10)) ns rest (omega arith)
        ∙ ap (λ (m : ℕ). scan u (in_number m) ns (used + digit_count fuel (n / 10) + 1) rest)
            (omega arith)
        ∙ ap (λ (m : ℕ). scan u (in_number n) ns m rest) (omega arith))
  ]

  skip-show_from :
      (fuel n k : ℕ) (rest : Text)
      → segments_from u (digit_count fuel n + k) (show_from fuel n rest) ≡ segments_from u k rest
  unfolding show_from digit_count segments_from
  skip-show_from zero n k rest = ap (λ (m : ℕ). segments_from u m rest) (omega arith)
  skip-show_from (suc fuel) n k rest = elim (Bool-cases (ltb n 10)) [
    | inl last ↦ rw last (
        let e : 1 + k ≡ suc k = omega arith in
        ap (λ (m : ℕ). segments_from u m ((48 + n % 10) ∷ rest)) e)
    | inr more ↦
        let c = digit_count fuel (n / 10) in
        rw more (
          let e : c + 1 + k ≡ c + suc k = omega arith in
          ap (λ (m : ℕ). segments_from u m (show_from fuel (n / 10) ((48 + n % 10) ∷ rest))) e
          ∙ skip-show_from fuel (n / 10) (suc k) ((48 + n % 10) ∷ rest))
  ]

  scan_close :
      (n used : ℕ) (rest : Text)
      → scan u (in_number n) [] used (b']' ∷ rest) ≡ some (n ∷ [], used + 1)
  unfolding scan scan_step
  scan_close n used rest = rw (ascii.close_bracket, scan) refl

  segments_bracket :
      (s : Text) (ns : List ℕ) (used : ℕ)
      → scan u opened [] 0 s ≡ some (ns, used)
      → segments_from u 0 (b'[' ∷ s) ≡ cited ns ∷ segments_from u used s
  segments_bracket s ns used e = unfold segments_from in rw (e, segments_from) refl

  show_marker-append :
      (n : ℕ) (rest : Text) → show_marker n ++ rest ≡ b'[' ∷ show_from (suc n) n (b']' ∷ rest)
  show_marker-append n rest =
      let e : show_marker n ≡ b'[' ∷ show_from (suc n) n (b']' ∷ []) = unfold show_marker in refl in
      ap (λ (s : Text). s ++ rest) e ∙ ap (◌∷◌ b'[') (show_from-append (suc n) n (b']' ∷ []) rest)

  skip_close : (s : Text) → segments_from u 1 (b']' ∷ s) ≡ segments_from u 0 s
  skip_close s = unfold segments_from in refl

  -- A marker that `validate` writes is read back as that marker.
  segments-show_marker :
      (n : ℕ) (rest : Text)
      → segments_from u 0 (show_marker n ++ rest) ≡ cited (n ∷ []) ∷ segments_from u 0 rest
  segments-show_marker n rest =
      let s = show_from (suc n) n (b']' ∷ rest) in
      let c = digit_count (suc n) n in
      let e : 0 + c + 1 ≡ c + 1 = omega arith in
      ap (segments_from u 0) (show_marker-append n rest)
      ∙ segments_bracket s (n ∷ []) (0 + c + 1)
          (scan-show_from (suc n) n 0 [] (b']' ∷ rest) (omega arith) ∙ scan_close n (0 + c) rest)
      ∙ ap (λ (k : ℕ). cited (n ∷ []) ∷ segments_from u k s) e
      ∙ ap (◌∷◌ (cited (n ∷ []))) (skip-show_from (suc n) n 1 (b']' ∷ rest) ∙ skip_close rest)

  -- The numbers in range, in order.
  abbrev pub valid_numbers : ℕ → List ℕ → List ℕ
  valid_numbers count [] = []
  valid_numbers count (n ∷ ns) =
      if in_range count n then n ∷ valid_numbers count ns else valid_numbers count ns

  valid_numbers-append :
      (count : ℕ) (ns ms : List ℕ)
      → valid_numbers count (ns ++ ms) ≡ valid_numbers count ns ++ valid_numbers count ms
  valid_numbers-append count [] ms = refl
  valid_numbers-append count (n ∷ ns) ms = ground (arith, valid_numbers-append count ns ms)

  -- Every opening bracket of the text belongs to a marker.
  abbrev pub NoLooseBracket : List Segment → Type 0
  NoLooseBracket [] = Unit
  NoLooseBracket (char c ∷ segs) = ((c == b'[') ≡ false) × NoLooseBracket segs
  NoLooseBracket (cited _ ∷ segs) = NoLooseBracket segs

  abbrev pub cited_in : Text → List ℕ
  cited_in text = cited_numbers (segments_from u 0 text)

  kept_text_valid :
      (count n : ℕ) (ns : List ℕ)
      → in_range count n ≡ true
      → kept_text count (n ∷ ns) ≡ show_marker n ++ kept_text count ns
  kept_text_valid count n ns h = unfold kept_text in rw h refl

  kept_text_invalid :
      (count n : ℕ) (ns : List ℕ)
      → in_range count n ≡ false
      → kept_text count (n ∷ ns) ≡ kept_text count ns
  kept_text_invalid count n ns h = unfold kept_text in rw h refl

  cited_in-kept_text :
      (count : ℕ) (ns : List ℕ) (rest : Text)
      → cited_in (kept_text count ns ++ rest) ≡ valid_numbers count ns ++ cited_in rest
  cited_in-kept_text count [] rest = unfold kept_text in refl
  cited_in-kept_text count (n ∷ ns) rest = elim (Bool-cases (in_range count n)) [
    | inl valid ↦
        rw (valid, kept_text_valid count n ns valid, append_assoc, segments-show_marker)
          (ap (◌∷◌ n) (cited_in-kept_text count ns rest))
    | inr invalid ↦
        rw (invalid, kept_text_invalid count n ns invalid) (cited_in-kept_text count ns rest)
  ]

  cited_in-char : (c : ℕ) (rest : Text) → (c == b'[') ≡ false → cited_in (c ∷ rest) ≡ cited_in rest
  cited_in-char c rest h = unfold segments_from in rw (h, segments_from) refl

  replaced_char :
      (count c : ℕ) (segs : List Segment) (t : Tally)
      → (replace_markers count (char c ∷ segs) t).0 ≡ c ∷ (replace_markers count segs t).0
  replaced_char count c segs t = unfold replace_markers in refl

  replaced_cited :
      (count : ℕ) (ns : List ℕ) (segs : List Segment) (t : Tally)
      → (replace_markers count (cited ns ∷ segs) t).0
        ≡ kept_text count ns ++ (replace_markers count segs (note_numbers count ns t)).0
  replaced_cited count ns segs t = unfold replace_markers in refl

  -- If every opening bracket of the text belongs to a marker, the markers of the replaced text are
  -- those of the text that resolve, in order, and no others.
  pub cited_in-replace_markers :
      (count : ℕ) (segs : List Segment) (t : Tally)
      → NoLooseBracket segs
      → cited_in (replace_markers count segs t).0 ≡ valid_numbers count (cited_numbers segs)
  cited_in-replace_markers count [] t h = unfold replace_markers segments_from in refl
  cited_in-replace_markers count (char c ∷ segs) t h =
      rw (replaced_char, cited_in-char c (replace_markers count segs t).0 h.0)
        (cited_in-replace_markers count segs t h.1)
  cited_in-replace_markers count (cited ns ∷ segs) t h =
      rw
        (
          replaced_cited,
          cited_in-kept_text count ns (replace_markers count segs (note_numbers count ns t)).0,
          valid_numbers-append count ns (cited_numbers segs),
        )
        (ap (λ (l : List ℕ). valid_numbers count ns ++ l)
          (cited_in-replace_markers count segs (note_numbers count ns t) h))

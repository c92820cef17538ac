-- ===== src/Citation/Nested.antt =====
-- A marker inside brackets: removing it builds a new one, which `validate` does not look at again.
use knowledgeos.Prelude.{ℕ, ◌+◌, ◌<◌, ◌≡◌, refl, false, List, [], ◌∷◌, arith, ◌∙◌, length, ap}
use knowledgeos.Text.{Text, Unicode, strip, lstrip, rstrip}
use knowledgeos.Retrieval.{RetrievedChunk}
use knowledgeos.Citation.Marker.{char, cited, segments, segments_from, scan, scan_step}
use knowledgeos.Citation.{
  Tally, in_range, kept_text, note_number, note_numbers, replace_markers, sort_numbers,
  insert_number, join_punctuation, collapse_blanks, validate,
}
use knowledgeos.Citation.RoundTrip.{ReadsAscii}

module _ {Float : Type 0} (u : Unicode) (ascii : ReadsAscii u)
    (sources : List (RetrievedChunk Float)) (m d : ℕ) (hm : m < 10) (hd : d < 10) where
  -- The text `[[m]d]`.
  abbrev pub nested : Text
  nested = b'[' ∷ b'[' ∷ (48 + m) ∷ b']' ∷ (48 + d) ∷ b']' ∷ []

  segments-nested : segments u nested ≡ char b'[' ∷ cited (m ∷ []) ∷ char (48 + d) ∷ char b']' ∷ []
  unfolding segments segments_from scan scan_step
  segments-nested =
      ground (arith, ascii.digits m hm, ascii.digits d hd, ascii.open_bracket, ascii.close_bracket)

  abbrev replaced : Text
  replaced = b'[' ∷ (48 + d) ∷ b']' ∷ []

  replaced-nested :
      (t : Tally)
      → length sources < m
      → (replace_markers (length sources) (segments u nested) t).0 ≡ replaced
  replaced-nested t h =
      rw segments-nested (unfold replace_markers kept_text note_numbers in ground arith)

  cleaned : strip u (collapse_blanks false (join_punctuation u replaced)) ≡ replaced
  unfolding strip lstrip rstrip collapse_blanks join_punctuation
  cleaned = ground (arith, ascii.not_space b'[', ascii.not_space (48 + d), ascii.not_space b']')

  text-nested : length sources < m → (validate u nested sources).text ≡ replaced
  text-nested h =
      let e : (validate u nested sources).text
          ≡ strip u (
              collapse_blanks false (
                join_punctuation u
                  (replace_markers (length sources) (segments u nested)
                    (record { seen = []; stripped = [] })).0)) =
        unfold validate in refl in
      e
      ∙ ap (λ (s : Text). strip u (collapse_blanks false (join_punctuation u s)))
          (replaced-nested (record { seen = []; stripped = [] }) h)
      ∙ cleaned

  segments-replaced : segments u replaced ≡ cited (d ∷ []) ∷ []
  unfolding segments segments_from scan scan_step
  segments-replaced = ground (arith, ascii.digits d hd, ascii.close_bracket)

  stripped-nested : length sources < m → (validate u nested sources).stripped_markers ≡ m ∷ []
  stripped-nested h =
      let e : (validate u nested sources).stripped_markers
          ≡ sort_numbers
              (replace_markers (length sources) (segments u nested)
                (record { seen = []; stripped = [] })).1.stripped =
        unfold validate in refl in
      e
      ∙ rw segments-nested (
          unfold replace_markers note_numbers note_number sort_numbers insert_number in
          ground arith)

  -- For digits `m` and `d`, with fewer sources than either, `[[m]d]` comes back as `[d]`: a marker of the
  -- validated text that resolves to no source, and that is not reported as stripped.
  pub validate-nested :
      length sources < m
      → length sources < d
      → let result = validate u nested sources in
        (result.text ≡ replaced)
        × (segments u result.text ≡ cited (d ∷ []) ∷ [])
        × (result.stripped_markers ≡ m ∷ [])
        × (in_range (length sources) d ≡ false)
  validate-nested h k = (
    text-nested h,
    ap (segments u) (text-nested h) ∙ segments-replaced,
    stripped-nested h,
    ground arith,
  )

-- ===== src/Tests/Answers.antt =====
-- Runs of services/citation_service.py on an answer over two sources.
use knowledgeos.Prelude.{
  ℕ, ◌≡◌, refl, false, ◌&&◌, not, none, some, List, [], ◌∷◌, arith, contains, All,
}
use knowledgeos.Text.{Text}
use knowledgeos.Retrieval.{RetrievedChunk}
use knowledgeos.Retrieval.Query.{codes}
use knowledgeos.Tests.{ascii, ascii-ReadsAscii}
use knowledgeos.Citation.{in_range, replace_markers, validate}
use knowledgeos.Citation.Marker.{Segment, char, cited, segments}
use knowledgeos.Citation.Numbers.{IsIncreasing, cited_numbers}
use knowledgeos.Citation.Laws.{Resolves, markers_of, validate_classifies, citations-Resolves}
use knowledgeos.Citation.RoundTrip.{cited_in, cited_in-replace_markers}
use knowledgeos.Citation.Nested.{nested, validate-nested}

abbrev source : ℕ → RetrievedChunk ℕ
source n = record {
  chunk_id = n;
  document_id = 1;
  document_title = [];
  content = codes "Leave is 25 days.";
  ordinal = 0;
  page_label = none;
  section = none;
  score = 1;
  dense_rank = some 1;
  sparse_rank = none;
  found_by_both = false;
  dense_score = some 1;
  sparse_score = none;
}

abbrev sources : List (RetrievedChunk ℕ)
sources = source 7 ∷ source 8 ∷ []

abbrev reply : Text
reply = codes "Leave is 25 days [1] [2, 9]."

validate_classifies_example :
    let result = validate ascii reply sources in
    let numbers = cited_numbers (segments ascii reply) in
    ((n : ℕ) → contains n result.validated_markers ≡ (in_range 2 n && contains n numbers))
    × ((n : ℕ) → contains n result.stripped_markers ≡ (not (in_range 2 n) && contains n numbers))
    × IsIncreasing result.validated_markers
    × IsIncreasing result.stripped_markers
validate_classifies_example = validate_classifies ascii reply sources

citations-Resolves_example :
    let result = validate ascii reply sources in
    All (Resolves ascii reply sources) result.citations
    × (markers_of ascii reply sources result.citations ≡ result.validated_markers)
citations-Resolves_example = citations-Resolves ascii reply sources

abbrev cut : List Segment
cut = char b'a' ∷ cited (1 ∷ 9 ∷ []) ∷ cited (2 ∷ []) ∷ []

cited_in-replace_markers_example :
    cited_in ascii ascii-ReadsAscii (replace_markers 2 cut (record { seen = []; stripped = [] })).0
    ≡ 1 ∷ 2 ∷ []
cited_in-replace_markers_example =
    cited_in-replace_markers ascii ascii-ReadsAscii 2 cut (record { seen = []; stripped = [] })
      (refl, tt)

validate-nested_example :
    let result =
      validate ascii
        (nested ascii ascii-ReadsAscii sources 9 5 (omega arith) (omega arith))
        sources in
    (result.text ≡ codes "[5]")
    × (segments ascii result.text ≡ cited (5 ∷ []) ∷ [])
    × (result.stripped_markers ≡ 9 ∷ [])
    × (in_range 2 5 ≡ false)
validate-nested_example =
    validate-nested ascii ascii-ReadsAscii sources 9 5 (omega arith) (omega arith) (omega arith)
      (omega arith)

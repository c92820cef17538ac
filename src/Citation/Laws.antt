-- ===== src/Citation/Laws.antt =====
-- What `validate` returns beside the text: which markers it keeps, which it strips, and that every
-- citation points at the source of its number.
use knowledgeos.Prelude.{
  ℕ, zero, suc, ◌-◌, ◌≤◌, ◌<◌, ◌≡◌, refl, true, ◌&&◌, not, some, List, [], ◌∷◌, arith, contains,
  All, ◌∙◌, length, get_elem?, ap,
}
use knowledgeos.Text.{Text, Unicode}
use knowledgeos.Retrieval.{RetrievedChunk}
use knowledgeos.Citation.Marker.{segments}
use knowledgeos.Citation.{
  CitationResult, ValidatedCitation, Tally, in_range, sort_numbers, replace_markers, citations_of,
  validate,
}
use knowledgeos.Citation.Numbers.{
  Holds, IsIncreasing, cited_numbers, note_numbers-Holds, tally-replace_markers,
  contains-sort_numbers, sort_numbers-IsIncreasing,
}

abbrev no_numbers : Tally
no_numbers = record { seen = []; stripped = [] }

get_elem?_total :
    {A : Type 0} (xs : List A) (i : ℕ) → i < length xs → (x : A) × (get_elem? xs i ≡ some x)
get_elem?_total [] i h = absurd (omega arith)
get_elem?_total (x ∷ xs) zero h = (x, refl)
get_elem?_total (x ∷ xs) (suc i) h = get_elem?_total xs i (omega arith)

module _ {Float : Type 0} (u : Unicode) (text : Text) (sources : List (RetrievedChunk Float)) where
  abbrev pub numbers : List ℕ
  numbers = cited_numbers (segments u text)

  abbrev result : CitationResult Float
  result = validate u text sources

  final_tally : Tally
  final_tally = (replace_markers (length sources) (segments u text) no_numbers).1

  final_tally-Holds : Holds (length sources) numbers no_numbers final_tally
  unfolding final_tally
  final_tally-Holds =
      rw tally-replace_markers (note_numbers-Holds (length sources) numbers no_numbers)

  validated_lem : result.validated_markers ≡ sort_numbers final_tally.seen
  unfolding validate final_tally
  validated_lem = refl

  stripped_lem : result.stripped_markers ≡ sort_numbers final_tally.stripped
  unfolding validate final_tally
  stripped_lem = refl

  citations_lem : result.citations ≡ citations_of u sources result.validated_markers
  unfolding validate
  citations_lem = refl

  -- A number that the text cites is validated exactly if it is the number of a source, and stripped
  -- exactly if it is not; no other number is in either list, and both are strictly increasing.
  pub validate_classifies :
      ((n : ℕ)
        → contains n result.validated_markers ≡ (in_range (length sources) n && contains n numbers))
      × ((n : ℕ)
          → contains n result.stripped_markers
            ≡ (not (in_range (length sources) n) && contains n numbers))
      × IsIncreasing result.validated_markers
      × IsIncreasing result.stripped_markers
  validate_classifies =
      rw (validated_lem, stripped_lem)
        (
          λ n. contains-sort_numbers n final_tally.seen ∙ final_tally-Holds.seen n,
          λ n. contains-sort_numbers n final_tally.stripped ∙ final_tally-Holds.stripped n,
          sort_numbers-IsIncreasing final_tally.seen (final_tally-Holds.seen_once tt),
          sort_numbers-IsIncreasing final_tally.stripped (final_tally-Holds.stripped_once tt),
        )

  -- The citation is that of the source whose place its marker names, counted from 1.
  abbrev pub Resolves : ValidatedCitation Float → Type 0
  Resolves c =
      (1 ≤ c.marker)
      × (c.marker ≤ length sources)
      × (get_elem? sources (c.marker - 1) ≡ some c.chunk)

  abbrev pub markers_of : List (ValidatedCitation Float) → List ℕ
  markers_of [] = []
  markers_of (c ∷ cs) = c.marker ∷ markers_of cs

  citations_of-Resolves :
      (ns : List ℕ)
      → ((n : ℕ) → contains n ns ≡ true → in_range (length sources) n ≡ true)
      → All Resolves (citations_of u sources ns) × (markers_of (citations_of u sources ns) ≡ ns)
  unfolding citations_of
  citations_of-Resolves [] valid = (tt, refl)
  citations_of-Resolves (n ∷ ns) valid =
      let here : in_range (length sources) n ≡ true = valid n (ground arith) in
      let rest = citations_of-Resolves ns (λ m e. valid m (ground arith)) in
      let (chunk, e) = get_elem?_total sources (n - 1) (ground arith) in
      rw (e, citations_of) ((ground (arith, here), rest.0), ap (◌∷◌ n) rest.1)

  -- There is one citation for each validated marker, in order, and each has a marker from 1 to the
  -- number of sources and the chunk that stands at that place.
  pub citations-Resolves :
      All Resolves result.citations × (markers_of result.citations ≡ result.validated_markers)
  citations-Resolves = rw citations_lem (
      citations_of-Resolves result.validated_markers
        (λ n e. ground (arith, validate_classifies.0 n)))

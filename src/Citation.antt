-- ===== src/Citation.antt =====
-- services/citation_service.py: the markers `[1]` and `[1, 3]` of an answer. Text is a list of code
-- points; `_MARKER.sub` cuts it into segments from the left, and the replacement runs over them.
pub mod Marker
pub mod Numbers
pub mod Laws
pub mod RoundTrip
pub mod Nested
use knowledgeos.Prelude.{
  ℕ, zero, suc, ◌+◌, ◌-◌, ◌*◌, ◌/◌, ◌%◌, Bool, true, false, ◌&&◌, ◌||◌, Option, none, some, List,
  [], ◌∷◌, ◌++◌, leb, ltb, ◌==◌, if◌then◌else◌, length, contains, get_elem?, map,
}
use knowledgeos.Text.{show_from, Text, Unicode, is_empty, strip}
use knowledgeos.Retrieval.{RetrievedChunk}
use knowledgeos.Citation.Marker.{Segment, char, cited, segments}

pub record ValidatedCitation (Float : Type 0) : Type 0 where
  pub marker : ℕ
  pub chunk : RetrievedChunk Float

pub record CitationResult (Float : Type 0) : Type 0 where
  pub text : Text
  pub citations : List (ValidatedCitation Float)
  pub validated_markers : List ℕ
  pub stripped_markers : List ℕ

-- `f"[{n}]"`
unfoldable pub show_marker : ℕ → Text
unfolding show_from
show_marker n = 91 ∷ show_from (suc n) n (93 ∷ [])

-- `sorted` of a set of ints
unfoldable pub insert_number : ℕ → List ℕ → List ℕ
insert_number n [] = n ∷ []
insert_number n (m ∷ ms) = if leb n m then n ∷ m ∷ ms else m ∷ insert_number n ms

unfoldable pub sort_numbers : List ℕ → List ℕ
unfolding insert_number
sort_numbers [] = []
sort_numbers (n ∷ ns) = insert_number n (sort_numbers ns)

-- `text[i:i + 1] in ".,;:"`
abbrev pub is_punctuation : ℕ → Bool
is_punctuation c = c == b'.' || c == b',' || c == b';' || c == b':'

abbrev pub is_blank : ℕ → Bool
is_blank c = c == b' ' || c == 9

module _ (u : Unicode) where
  -- The text is white space and then a mark of punctuation.
  unfoldable pub before_punctuation : Text → Bool
  before_punctuation [] = false
  before_punctuation (c ∷ s) =
      let rest = before_punctuation s in if u.is_space c then rest else is_punctuation c

  -- `re.sub(r"\s+([.,;:])", r"\1", text)`
  unfoldable pub join_punctuation : Text → Text
  unfolding before_punctuation
  join_punctuation [] = []
  join_punctuation (c ∷ s) =
      let rest = join_punctuation s in
      if u.is_space c && before_punctuation s then rest else c ∷ rest

abbrev starts_blank : Text → Bool
starts_blank [] = false
starts_blank (c ∷ _) = is_blank c

-- `re.sub(r"[ \t]{2,}", " ", text)`; the flag tells that the run of blanks is already replaced.
unfoldable pub collapse_blanks : Bool → Text → Text
collapse_blanks in_run [] = []
collapse_blanks in_run (c ∷ s) =
    let rest = collapse_blanks (is_blank c && (in_run || starts_blank s)) s in
    if is_blank c
    then (if in_run then rest else if starts_blank s then b' ' ∷ rest else c ∷ rest)
    else c ∷ rest

-- `number in range(1, count + 1)`
abbrev pub in_range : ℕ → ℕ → Bool
in_range count n = leb 1 n && leb n count

-- The closure's state: the keys of `seen`, whose value for `n` is the citation of `sources[n - 1]`,
-- and the set `stripped`.
pub record Tally : Type 0 where
  pub seen : List ℕ
  pub stripped : List ℕ

abbrev pub add_once : ℕ → List ℕ → List ℕ
add_once n ns = if contains n ns then ns else ns ++ n ∷ []

-- One number of a marker: kept, or stripped.
unfoldable pub note_number : ℕ → ℕ → Tally → Tally
note_number count n t =
    if in_range count n
    then record t { seen = add_once n t.seen }
    else record t { stripped = add_once n t.stripped }

unfoldable pub note_numbers : ℕ → List ℕ → Tally → Tally
unfolding note_number
note_numbers count [] t = t
note_numbers count (n ∷ ns) t = note_numbers count ns (note_number count n t)

-- The text that replaces a marker: its numbers in range, each with its own brackets.
unfoldable pub kept_text : ℕ → List ℕ → Text
unfolding show_marker
kept_text count [] = []
kept_text count (n ∷ ns) =
    if in_range count n then show_marker n ++ kept_text count ns else kept_text count ns

-- `_MARKER.sub(_replace, text)`: the new text, and the state of the closure.
unfoldable pub replace_markers : ℕ → List Segment → Tally → Text × Tally
unfolding note_numbers kept_text
replace_markers count [] t = ([], t)
replace_markers count (char c ∷ segs) t =
    let (out, t') = replace_markers count segs t in (c ∷ out, t')
replace_markers count (cited ns ∷ segs) t =
    let (out, t') = replace_markers count segs (note_numbers count ns t) in
    (kept_text count ns ++ out, t')

module _ {Float : Type 0} (u : Unicode) where
  -- `[seen[m] for m in numbers]`; a number that is no source is not in `seen`.
  unfoldable pub citations_of :
      List (RetrievedChunk Float) → List ℕ → List (ValidatedCitation Float)
  citations_of sources [] = []
  citations_of sources (n ∷ ns) = elim (get_elem? sources (n - 1)) [
    | none ↦ citations_of sources ns
    | some chunk ↦ record { marker = n; chunk = chunk } ∷ citations_of sources ns
  ]

  unfoldable pub validate : Text → List (RetrievedChunk Float) → CitationResult Float
  unfolding replace_markers segments join_punctuation collapse_blanks sort_numbers citations_of
      strip
  validate text sources =
      let (replaced, t) =
        replace_markers (length sources) (segments u text) (record { seen = []; stripped = [] }) in
      let cleaned = collapse_blanks false (join_punctuation u replaced) in
      record {
        text = strip u cleaned;
        citations = citations_of sources (sort_numbers t.seen);
        validated_markers = sort_numbers t.seen;
        stripped_markers = sort_numbers t.stripped;
      }

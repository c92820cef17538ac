-- ===== src/Retrieval/Query.antt =====
-- `_build_or_tsquery` of services/retrieval_service.py: the terms of a query, joined by ` | `.
pub mod Terms
use Prim.Native.Char.{code}
use Prim.Native.String.{String}
use knowledgeos.Prelude.{
  ℕ, Bool, true, false, ◌||◌, Option, none, some, List, [], ◌∷◌, ◌++◌, leb, ltb, if◌then◌else◌,
  length,
}
use knowledgeos.Text.{Text, Unicode, is_empty, join, cons_word}
use knowledgeos.Fusion.Similar.{has_word}

abbrev pub codes : String → Text
codes String.[] = []
codes (String.◌∷◌ c s) = code c ∷ codes s

abbrev words_of : List String → List Text
words_of [] = []
words_of (w ∷ ws) = codes w ∷ words_of ws

-- `_QUERY_STOPWORDS`
unfoldable pub query_stopwords : List Text
query_stopwords = words_of (
    "a" ∷ "an" ∷ "and" ∷ "are" ∷ "as" ∷ "at" ∷ "be" ∷ "but" ∷ "by" ∷ "can" ∷ "do" ∷ "does" ∷ "for"
    ∷ "from" ∷ "had" ∷ "has" ∷ "have" ∷ "how" ∷ "i" ∷ "if" ∷ "in" ∷ "into" ∷ "is" ∷ "it" ∷ "its"
    ∷ "of" ∷ "on" ∷ "or" ∷ "our" ∷ "that" ∷ "the" ∷ "their" ∷ "there" ∷ "these" ∷ "they" ∷ "this"
    ∷ "to" ∷ "was" ∷ "were" ∷ "what" ∷ "when" ∷ "where" ∷ "which" ∷ "who" ∷ "why" ∷ "will" ∷ "with"
    ∷ "would" ∷ "you" ∷ "your" ∷ [])

abbrev pub max_query_terms : ℕ
max_query_terms = 24

-- `raw` is too short, a stopword, or a term already.
unfoldable pub is_skipped : List Text → Text → Bool
unfolding has_word query_stopwords
is_skipped terms raw = ltb (length raw) 2 || has_word raw query_stopwords || has_word raw terms

-- The loop over the words. `seen` and `terms` have the same members, so one list stands for both;
-- the loop ends once there are `max_query_terms` terms.
unfoldable pub collect_terms : List Text → List Text → List Text
unfolding is_skipped
collect_terms terms [] = terms
collect_terms terms (raw ∷ rest) =
    let more = terms ++ raw ∷ [] in
    elim (is_skipped terms raw) [
      | true ↦ collect_terms terms rest
      | false ↦ (elim (leb max_query_terms (length more)) [
        | true ↦ more
        | false ↦ collect_terms more rest
      ])
    ]

module _ (u : Unicode) where
  open u use {is_word}

  unfoldable pub word_from : Text → Text × List Text
  word_from [] = ([], [])
  word_from (c ∷ s) =
      let (w, ws) = word_from s in if is_word c then (c ∷ w, ws) else ([], cons_word w ws)

  -- `re.findall(r"\w+", text)`
  unfoldable pub find_words : Text → List Text
  unfolding word_from
  find_words s = let (w, ws) = word_from s in cons_word w ws

  unfoldable pub query_terms : Text → List Text
  unfolding collect_terms find_words
  query_terms query = collect_terms [] (find_words (u.lower query))

  unfoldable pub build_or_tsquery : Text → Option Text
  unfolding query_terms join
  build_or_tsquery query =
      let terms = query_terms query in
      if is_empty terms then none else some (join (b' ' ∷ b'|' ∷ b' ' ∷ []) terms)

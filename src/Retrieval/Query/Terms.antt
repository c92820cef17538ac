-- ===== src/Retrieval/Query/Terms.antt =====
-- The terms that `_build_or_tsquery` of services/retrieval_service.py joins.
use knowledgeos.Prelude.{
  ◌≤◌, ◌<◌, ◌≡◌, refl, Bool, true, false, ◌||◌, List, [], ◌∷◌, ◌++◌, leb, length, length-append,
  All, All-append, arith,
}
use knowledgeos.Text.{Text, Unicode, text_eq}
use knowledgeos.Fusion.Similar.{has_word}
use knowledgeos.Retrieval.Query.{
  query_stopwords, is_skipped, collect_terms, query_terms, find_words,
}

-- A term has two characters at least and is no stopword.
abbrev pub IsTerm : Text → Type 0
IsTerm w = (2 ≤ length w) × (has_word w query_stopwords ≡ false)

-- No word stands twice in the list.
abbrev pub IsDistinctWords : List Text → Type 0
IsDistinctWords [] = Unit
IsDistinctWords (w ∷ ws) = (has_word w ws ≡ false) × IsDistinctWords ws

text_eq_comm : (s t : Text) → text_eq s t ≡ text_eq t s
text_eq_comm [] [] = refl
text_eq_comm [] (d ∷ t) = refl
text_eq_comm (c ∷ s) [] = refl
text_eq_comm (c ∷ s) (d ∷ t) = ground (arith, text_eq_comm s t)

has_word-snoc :
    (w x : Text) (ws : List Text) → has_word w (ws ++ x ∷ []) ≡ (text_eq w x || has_word w ws)
unfolding has_word
has_word-snoc w x [] = refl
has_word-snoc w x (v ∷ ws) = ground (arith, has_word-snoc w x ws)

IsDistinctWords-snoc :
    (ws : List Text) (x : Text)
    → IsDistinctWords ws
    → has_word x ws ≡ false
    → IsDistinctWords (ws ++ x ∷ [])
unfolding has_word
IsDistinctWords-snoc [] x d h = (refl, tt)
IsDistinctWords-snoc (w ∷ ws) x d h =
    ground (arith, has_word-snoc w x ws, text_eq_comm x w, IsDistinctWords-snoc ws x d.1)

not_skipped :
    (terms : List Text) (raw : Text)
    → is_skipped terms raw ≡ false
    → IsTerm raw × (has_word raw terms ≡ false)
unfolding is_skipped
not_skipped terms raw e = ((ground (arith, e), ground (arith, e)), ground (arith, e))

abbrev Good : List Text → Type 0
Good terms = All IsTerm terms × IsDistinctWords terms

abbrev Bounded : List Text → Type 0
Bounded terms = Good terms × (length terms ≤ 24)

-- The three ways in which the loop goes on.
by_tests :
    (skip full : Bool) (skipped last more : List Text)
    → (skip ≡ true → Bounded skipped)
    → (skip ≡ false → full ≡ true → Bounded last)
    → (skip ≡ false → full ≡ false → Bounded more)
    → Bounded (elim skip [ true ↦ skipped | false ↦ (elim full [ true ↦ last | false ↦ more ]) ])
by_tests true full skipped last more f g h = f refl
by_tests false true skipped last more f g h = g refl refl
by_tests false false skipped last more f g h = h refl refl

Good-snoc :
    (terms : List Text) (raw : Text)
    → Good terms
    → is_skipped terms raw ≡ false
    → Good (terms ++ raw ∷ [])
Good-snoc terms raw good e =
    let (term, absent) = not_skipped terms raw e in
    (
      All-append IsTerm terms (raw ∷ []) good.0 (term, tt),
      IsDistinctWords-snoc terms raw good.1 absent,
    )

collect_terms-Bounded :
    (terms words : List Text) → length terms < 24 → Good terms → Bounded (collect_terms terms words)
unfolding collect_terms
collect_terms-Bounded terms [] short good = (good, omega arith)
collect_terms-Bounded terms (raw ∷ rest) short good =
    let more = terms ++ raw ∷ [] in
    let longer = length-append terms (raw ∷ []) in
    by_tests (is_skipped terms raw) (leb 24 (length more)) (collect_terms terms rest) more
      (collect_terms more rest) (λ e. collect_terms-Bounded terms rest short good)
      (λ e f. (Good-snoc terms raw good e, omega (arith, longer)))
      (λ e f. collect_terms-Bounded more rest (ground (arith, f)) (Good-snoc terms raw good e))

-- The terms of a query are at most 24, none twice, each of two characters at least, and none a
-- stopword.
pub query_terms-Good :
    (u : Unicode) (query : Text)
    → All IsTerm (query_terms u query)
      × IsDistinctWords (query_terms u query)
      × (length (query_terms u query) ≤ 24)
unfolding query_terms
query_terms-Good u query =
    let good = collect_terms-Bounded [] (find_words u (u.lower query)) (omega arith) (tt, tt) in
    (good.0.0, good.0.1, good.1)

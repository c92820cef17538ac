-- ===== src/Retrieval/Search.antt =====
-- `retrieve` of services/retrieval_service.py. The vector store, the embedder and Postgres full-text
-- ranking are third-party code: the dense half is what the store answered (`none` if it raised), and
-- the match and the rank of a chunk for a tsquery are functions of the two. The rows are the
-- database's; the joins and predicates are those of the source's statements.
use knowledgeos.Prelude.{
  ℕ, Bool, false, ◌&&◌, ◌||◌, Option, none, some, List, [], ◌∷◌, ◌==◌, if◌then◌else◌, length,
  contains, take,
}
use knowledgeos.Text.{Text, Unicode, is_empty, strip}
use knowledgeos.Float.{FloatOps}
use knowledgeos.Content.{Document, Chunk, is_ready, page_label, find_document}
use knowledgeos.Fusion.{
  FusedHit, Ranked, rrf_k, reciprocal_rank_fusion, normalize_scores, found_by_both,
}
use knowledgeos.Fusion.Merge.{hit_ids}
use knowledgeos.Fusion.Diversify.{diversify}
use knowledgeos.Retrieval.{RetrievedChunk}
use knowledgeos.Retrieval.Query.{build_or_tsquery}

pub record Database : Type 0 where
  pub chunks : List Chunk
  pub documents : List Document

-- A chunk joined with its document.
abbrev pub Row : Type 0
Row = Chunk × Document

pub record RetrievalResult (Float : Type 0) : Type 0 where
  pub chunks : List (RetrievedChunk Float)
  pub dense_count : ℕ
  pub sparse_count : ℕ
  pub fused_count : ℕ
  pub took_ms : ℕ
  pub max_dense_score : Float

pub record Settings : Type 0 where
  pub retrieval_top_k : ℕ
  pub retrieval_candidates : ℕ

-- `value or default` of an optional number
abbrev pub number_or : Option ℕ → ℕ → ℕ
number_or none d = d
number_or (some n) d = if n == 0 then d else n

-- `select(...).join(Document).where(test)`
unfoldable pub join_rows : (Chunk → Bool) → List Chunk → List Document → List Row
unfolding find_document
join_rows test [] ds = []
join_rows test (c ∷ cs) ds =
    if test c
    then elim (find_document c.document_id ds) [
      | none ↦ join_rows test cs ds
      | some d ↦ (c, d) ∷ join_rows test cs ds
    ]
    else join_rows test cs ds

-- `by_id.get(id)`
unfoldable pub find_row : ℕ → List Row → Option Row
find_row id [] = none
find_row id ((c, d) ∷ rows) = if c.id == id then some (c, d) else find_row id rows

abbrev pub content_of : List Row → ℕ → Option Text
content_of rows id = elim (find_row id rows) [ none ↦ none | some (c, _) ↦ some c.content ]

abbrev pub document_of : List Row → ℕ → Option ℕ
document_of rows id = elim (find_row id rows) [ none ↦ none | some (c, _) ↦ some c.document_id ]

-- The hit has a row, and its document is `READY`.
unfoldable pub is_resolved : {Float : Type 0} → List Row → FusedHit Float → Bool
unfolding find_row
is_resolved rows h = elim (find_row h.chunk_id rows) [
  | none ↦ false
  | some (_, d) ↦ is_ready d.status
]

unfoldable pub resolve : {Float : Type 0} → List Row → List (FusedHit Float) → List (FusedHit Float)
unfolding is_resolved
resolve rows [] = []
resolve rows (h ∷ hs) = if is_resolved rows h then h ∷ resolve rows hs else resolve rows hs

module _ (F : FloatOps) where
  open F use {Float, of_nat, le, round}

  -- What the third parties answer.
  pub record Answers : Type 0 where
    -- `get_vector_store().search(...)` of the embedded query with a limit, or `none` if it raised
    pub dense : ℕ → Option (Ranked Float)
    -- the full-text match and rank of a chunk, for a tsquery
    pub matches : Text → Chunk → Bool
    pub rank : Text → Chunk → Float
    -- the statement did not raise
    pub sparse_works : Bool
    pub took_ms : ℕ

  unfoldable pub dense_search : Answers → ℕ → Ranked Float
  dense_search answers limit = elim (answers.dense limit) [ none ↦ [] | some hits ↦ hits ]

  -- `ORDER BY rank DESC`
  unfoldable pub insert_rank : ℕ × Float → Ranked Float → Ranked Float
  insert_rank x [] = x ∷ []
  insert_rank x (y ∷ ys) = if le y.1 x.1 then x ∷ y ∷ ys else y ∷ insert_rank x ys

  unfoldable pub rank_rows : (Chunk → Float) → List Row → Ranked Float
  unfolding insert_rank
  rank_rows rank [] = []
  rank_rows rank ((c, d) ∷ rows) =
      if is_ready d.status
      then insert_rank (c.id, rank c) (rank_rows rank rows)
      else rank_rows rank rows

  -- `Chunk.document_id.in_(document_ids)`, where ids are given
  abbrev pub in_documents : List ℕ → Chunk → Bool
  in_documents ids c = is_empty ids || contains c.document_id ids

  unfoldable pub sparse_search : Unicode → Answers → Database → ℕ → Text → ℕ → List ℕ → Ranked Float
  unfolding build_or_tsquery join_rows rank_rows
  sparse_search u answers db workspace query limit ids = elim (build_or_tsquery u query) [
    | none ↦ []
    | some tsquery ↦
        (if answers.sparse_works
          then take limit (
              rank_rows (answers.rank tsquery) (
                join_rows
                  (λ c.
                    c.workspace_id == workspace && answers.matches tsquery c && in_documents ids c)
                  db.chunks db.documents))
          else [])
  ]

  -- `max((score for _cid, score in dense), default=0.0)`
  abbrev max_from : Float → Ranked Float → Float
  max_from best [] = best
  max_from best ((_, s) ∷ rest) = max_from (if le s best then best else s) rest

  unfoldable pub max_dense : Ranked Float → Float
  max_dense [] = of_nat 0
  max_dense ((_, s) ∷ rest) = max_from s rest

  unfoldable pub retrieved_chunk : FusedHit Float → Row → RetrievedChunk Float
  unfolding found_by_both page_label
  retrieved_chunk hit (chunk, document) = record {
    chunk_id = chunk.id;
    document_id = chunk.document_id;
    document_title = document.title;
    content = chunk.content;
    ordinal = chunk.ordinal;
    page_label = page_label chunk;
    section = chunk.section;
    score = round hit.score;
    dense_rank = hit.dense_rank;
    sparse_rank = hit.sparse_rank;
    found_by_both = found_by_both hit;
    dense_score = hit.dense_score;
    sparse_score = hit.sparse_score;
  }

  -- The loop over `selected`. Every selected hit has a row.
  unfoldable pub retrieved_chunks : List Row → List (FusedHit Float) → List (RetrievedChunk Float)
  unfolding find_row retrieved_chunk
  retrieved_chunks rows [] = []
  retrieved_chunks rows (h ∷ hs) = elim (find_row h.chunk_id rows) [
    | none ↦ retrieved_chunks rows hs
    | some row ↦ retrieved_chunk h row ∷ retrieved_chunks rows hs
  ]

  -- The second isolation check, the choice of the sources, and the result.
  unfoldable pub assemble :
      Unicode → Answers → Database → ℕ → ℕ → Ranked Float → Ranked Float → RetrievalResult Float
  unfolding reciprocal_rank_fusion normalize_scores join_rows resolve diversify retrieved_chunks
      max_dense
  assemble u answers db workspace top_k ds ss =
      let fused = normalize_scores F (reciprocal_rank_fusion F rrf_k ds ss) in
      let rows =
        join_rows (λ c. contains c.id (hit_ids fused) && c.workspace_id == workspace) db.chunks
          db.documents in
      let selected =
        diversify u (content_of rows) (document_of rows) top_k 4 (resolve rows fused) in
      record {
        chunks = retrieved_chunks rows selected;
        dense_count = length ds;
        sparse_count = length ss;
        fused_count = length fused;
        took_ms = answers.took_ms;
        max_dense_score = max_dense ds;
      }

  unfoldable pub retrieve :
      Unicode
      → Settings
      → Answers
      → Database
      → ℕ
      → Text
      → Option ℕ
      → Option ℕ
      → List ℕ
      → RetrievalResult Float
  unfolding assemble dense_search sparse_search strip
  retrieve u settings answers db workspace query top_k candidates ids =
      let stripped = strip u query in
      let limit = number_or candidates settings.retrieval_candidates in
      if is_empty stripped
      then record {
        chunks = [];
        dense_count = 0;
        sparse_count = 0;
        fused_count = 0;
        took_ms = 0;
        max_dense_score = of_nat 0;
      }
      else assemble u answers db workspace (number_or top_k settings.retrieval_top_k)
          (dense_search answers limit) (sparse_search u answers db workspace stripped limit ids)

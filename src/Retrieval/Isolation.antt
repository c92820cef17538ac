-- ===== src/Retrieval/Isolation.antt =====
-- Tenant isolation of `retrieve` in services/retrieval_service.py: whatever the vector store and the
-- full-text index answer, what is returned is re-read from the rows of the workspace.
use knowledgeos.Prelude.{
  ℕ, ◌≤◌, ◌≡◌, refl, sym, ap, subst, Bool, true, false, ◌&&◌, ◌⊎◌, inl, inr, Option, none, some,
  List, [], ◌∷◌, arith, ◌==◌, length, contains, All, All-imp, IsDistinct, Bool-cases, Option-cases,
}
use knowledgeos.Text.{Text, Unicode, is_empty, strip}
use knowledgeos.Float.{FloatOps}
use knowledgeos.Content.{Document, Chunk, is_ready, find_document}
use knowledgeos.Fusion.{FusedHit, Ranked, rrf_k, reciprocal_rank_fusion, normalize_scores}
use knowledgeos.Fusion.Merge.{hit_ids, find_hit, merge_both-IsDistinct}
use knowledgeos.Fusion.Order.{sort_hits-IsDistinct}
use knowledgeos.Fusion.Normalize.{hit_ids-normalize_scores}
use knowledgeos.Fusion.Diversify.{diversify}
use knowledgeos.Fusion.Diversify.Laws.{diversify-found, length-diversify}
use knowledgeos.Retrieval.{RetrievedChunk}
use knowledgeos.Retrieval.Search.{
  Database, Row, RetrievalResult, Settings, Answers, number_or, join_rows, find_row, content_of,
  document_of, is_resolved, resolve, retrieved_chunk, retrieved_chunks, assemble, retrieve,
  dense_search, sparse_search,
}

abbrev pub IsIn : Chunk → List Chunk → Type 0
IsIn x [] = ⊥
IsIn x (y ∷ ys) = (x ≡ y) ⊎ IsIn x ys

-- The row is of a chunk that passes the test, with its own document.
abbrev IsJoined : (Chunk → Bool) → List Chunk → List Document → Row → Type 0
IsJoined test cs ds row =
    IsIn row.0 cs × (find_document row.0.document_id ds ≡ some row.1) × (test row.0 ≡ true)

IsJoined-cons :
    (test : Chunk → Bool) (c : Chunk) (cs : List Chunk) (ds : List Document) (rows : List Row)
    → All (IsJoined test cs ds) rows
    → All (IsJoined test (c ∷ cs) ds) rows
IsJoined-cons test c cs ds rows h =
    All-imp (IsJoined test cs ds) (IsJoined test (c ∷ cs) ds) rows (λ row j. (inr j.0, j.1, j.2)) h

join_rows-IsJoined :
    (test : Chunk → Bool) (cs : List Chunk) (ds : List Document)
    → All (IsJoined test cs ds) (join_rows test cs ds)
unfolding join_rows
join_rows-IsJoined test [] ds = tt
join_rows-IsJoined test (c ∷ cs) ds =
    let rest = IsJoined-cons test c cs ds (join_rows test cs ds) (join_rows-IsJoined test cs ds) in
    elim (Bool-cases (test c)) [
      | inl held ↦ rw held (elim (Option-cases (find_document c.document_id ds)) [
        | inl p ↦ rw p rest
        | inr (d, p) ↦ rw p ((inl refl, p, held), rest)
      ])
      | inr lost ↦ rw lost rest
    ]

some_inj : {x y : Row} → some x ≡ some y → x ≡ y
some_inj p = cc p

-- A row found by its id has that id, and what holds of every row.
find_row_lem :
    (P : Row → Type 0) (id : ℕ) (rows : List Row) (row : Row)
    → All P rows
    → find_row id rows ≡ some row
    → P row × (row.0.id ≡ id)
unfolding find_row
find_row_lem P id [] row a h = cc
find_row_lem P id ((c, d) ∷ rows) row a h = elim (Bool-cases (c.id == id)) [
  | inl same ↦
      subst (λ r. P r × (r.0.id ≡ id)) (some_inj (rw same at h)) (a.0, ground (arith, same))
  | inr other ↦ find_row_lem P id rows row a.1 (rw other at h)
]

resolve-IsDistinct :
    {Float : Type 0} (rows : List Row) (hs : List (FusedHit Float))
    → IsDistinct (hit_ids hs)
    → ((j : ℕ) → contains j (hit_ids hs) ≡ false → contains j (hit_ids (resolve rows hs)) ≡ false)
      × IsDistinct (hit_ids (resolve rows hs))
unfolding resolve
resolve-IsDistinct rows [] d = (λ j h. refl, tt)
resolve-IsDistinct rows (h ∷ hs) d =
    let rest = resolve-IsDistinct rows hs d.1 in
    elim (Bool-cases (is_resolved rows h)) [
      | inl held ↦ rw held (λ j e. ground (arith, e, rest.0 j), (rest.0 h.chunk_id d.0, rest.1))
      | inr lost ↦ rw lost (λ j e. rest.0 j (ground (arith, e)), rest.1)
    ]

find_hit-resolve :
    {Float : Type 0} (id : ℕ) (rows : List Row) (hs : List (FusedHit Float)) (h : FusedHit Float)
    → find_hit id (resolve rows hs) ≡ some h
    → is_resolved rows h ≡ true
unfolding resolve find_hit
find_hit-resolve id rows [] h e = cc
find_hit-resolve id rows (x ∷ hs) h e = elim (Bool-cases (is_resolved rows x)) [
  | inl held ↦ ground (arith, find_hit-resolve id rows hs h)
  | inr lost ↦ find_hit-resolve id rows hs h (rw lost at e)
]

resolved_row :
    {Float : Type 0} (rows : List Row) (h : FusedHit Float)
    → is_resolved rows h ≡ true
    → (row : Row) × (find_row h.chunk_id rows ≡ some row) × (is_ready row.1.status ≡ true)
unfolding is_resolved
resolved_row rows h e = by_row (find_row h.chunk_id rows) refl e
  where
    by_row :
        (o : Option Row)
        → find_row h.chunk_id rows ≡ o
        → elim o [ none ↦ false | some (_, d) ↦ is_ready d.status ] ≡ true
        → (row : Row) × (find_row h.chunk_id rows ≡ some row) × (is_ready row.1.status ≡ true)
    by_row none p q = cc
    by_row (some (c, d)) p q = ((c, d), p, q)

-- What a retrieved chunk quotes: a chunk row of the workspace, whose document is ready, by its own
-- text, title and place.
pub record IsIsolated {Float : Type 0} (db : Database) (workspace : ℕ) (r : RetrievedChunk Float)
    : Type 0 where
  pub chunk : Chunk
  pub document : Document
  pub stored : IsIn chunk db.chunks
  pub owned : chunk.workspace_id ≡ workspace
  pub document_stored : find_document chunk.document_id db.documents ≡ some document
  pub ready : is_ready document.status ≡ true
  pub quoted :
      (r.chunk_id ≡ chunk.id)
      × (r.document_id ≡ chunk.document_id)
      × (r.document_title ≡ document.title)
      × (r.content ≡ chunk.content)
      × (r.ordinal ≡ chunk.ordinal)

module _ (F : FloatOps) where
  open F use {Float}

  abbrev pub source_ids : List (RetrievedChunk Float) → List ℕ
  source_ids [] = []
  source_ids (r ∷ rs) = r.chunk_id ∷ source_ids rs

  source_ids-cons :
      (h : FusedHit Float) (row : Row) (rs : List (RetrievedChunk Float)) (ids : List ℕ)
      → row.0.id ≡ h.chunk_id
      → source_ids rs ≡ ids
      → source_ids (retrieved_chunk F h row ∷ rs) ≡ h.chunk_id ∷ ids
  unfolding retrieved_chunk
  source_ids-cons h (c, d) rs ids p q = cc (p, q)

  retrieved_chunks-cons :
      (rows : List Row) (h : FusedHit Float) (hs : List (FusedHit Float)) (row : Row)
      → find_row h.chunk_id rows ≡ some row
      → retrieved_chunks F rows (h ∷ hs) ≡ retrieved_chunk F h row ∷ retrieved_chunks F rows hs
  unfolding retrieved_chunks
  retrieved_chunks-cons rows h hs row p =
      ap
        (λ (o : Option Row). elim o [
          | none ↦ retrieved_chunks F rows hs
          | some r ↦ retrieved_chunk F h r ∷ retrieved_chunks F rows hs
        ])
        p

  module _ (db : Database) (workspace : ℕ) (ids : List ℕ) where
    abbrev wanted : Chunk → Bool
    wanted c = contains c.id ids && c.workspace_id == workspace

    abbrev rows : List Row
    rows = join_rows wanted db.chunks db.documents

    retrieved_chunk-IsIsolated :
        (h : FusedHit Float) (row : Row)
        → find_row h.chunk_id rows ≡ some row
        → is_ready row.1.status ≡ true
        → IsIsolated db workspace (retrieved_chunk F h row)
    unfolding retrieved_chunk
    retrieved_chunk-IsIsolated h (c, d) p ready =
        let j =
          find_row_lem (IsJoined wanted db.chunks db.documents) h.chunk_id rows (c, d)
            (join_rows-IsJoined wanted db.chunks db.documents) p in
        record {
          chunk = c;
          document = d;
          stored = j.0.0;
          owned = ground (arith, j.0.2);
          document_stored = j.0.1;
          ready = ready;
          quoted = (refl, refl, refl, refl, refl);
        }

    retrieved_chunks-IsIsolated :
        (hs : List (FusedHit Float))
        → All (λ h. is_resolved rows h ≡ true) hs
        → All (IsIsolated db workspace) (retrieved_chunks F rows hs)
          × (source_ids (retrieved_chunks F rows hs) ≡ hit_ids hs)
    unfolding retrieved_chunks
    retrieved_chunks-IsIsolated [] a = (tt, refl)
    retrieved_chunks-IsIsolated (h ∷ hs) a =
        let (row, p, ready) = resolved_row rows h a.0 in
        let rest = retrieved_chunks-IsIsolated hs a.1 in
        let same : row.0.id ≡ h.chunk_id =
          (find_row_lem (IsJoined wanted db.chunks db.documents) h.chunk_id rows row
            (join_rows-IsJoined wanted db.chunks db.documents) p).1 in
        rw (retrieved_chunks-cons rows h hs row p) (
          (retrieved_chunk-IsIsolated h row p ready, rest.0),
          source_ids-cons h row (retrieved_chunks F rows hs) (hit_ids hs) same rest.1,
        )

  selected_resolved :
      (joined : List Row) (fused chosen : List (FusedHit Float))
      → All (λ h. find_hit h.chunk_id (resolve joined fused) ≡ some h) chosen
      → All (λ h. is_resolved joined h ≡ true) chosen
  selected_resolved joined fused [] a = tt
  selected_resolved joined fused (h ∷ chosen) a =
      (find_hit-resolve h.chunk_id joined fused h a.0, selected_resolved joined fused chosen a.1)

  -- What `retrieve` promises of its result.
  abbrev pub IsSound : Database → ℕ → ℕ → RetrievalResult Float → Type 0
  IsSound db workspace top_k r =
      All (IsIsolated db workspace) r.chunks
      × IsDistinct (source_ids r.chunks)
      × (length r.chunks ≤ top_k)

  length-source_ids : (rs : List (RetrievedChunk Float)) → length (source_ids rs) ≡ length rs
  length-source_ids [] = refl
  length-source_ids (r ∷ rs) = omega (arith, length-source_ids rs)

  length-hit_ids : (hs : List (FusedHit Float)) → length (hit_ids hs) ≡ length hs
  length-hit_ids [] = refl
  length-hit_ids (h ∷ hs) = omega (arith, length-hit_ids hs)

  length_bounded :
      (rs : List (RetrievedChunk Float)) (hs : List (FusedHit Float)) (n : ℕ)
      → source_ids rs ≡ hit_ids hs
      → length hs ≤ n
      → length rs ≤ n
  length_bounded rs hs n e h =
      let lengths = ap length e in omega (arith, length-source_ids rs, length-hit_ids hs)

  fused-IsDistinct :
      (ds ss : Ranked Float)
      → IsDistinct (hit_ids (normalize_scores F (reciprocal_rank_fusion F rrf_k ds ss)))
  unfolding reciprocal_rank_fusion
  fused-IsDistinct ds ss =
      subst IsDistinct (sym (hit_ids-normalize_scores F (reciprocal_rank_fusion F rrf_k ds ss)))
        (sort_hits-IsDistinct F _ (merge_both-IsDistinct F rrf_k ds ss))

  assemble-IsSound :
      (u : Unicode) (answers : Answers F) (db : Database) (workspace top_k : ℕ)
      (ds ss : Ranked Float)
      → IsSound db workspace top_k (assemble F u answers db workspace top_k ds ss)
  unfolding assemble
  assemble-IsSound u answers db workspace top_k ds ss =
      let fused = normalize_scores F (reciprocal_rank_fusion F rrf_k ds ss) in
      let joined = rows db workspace (hit_ids fused) in
      let contents = content_of joined in
      let documents = document_of joined in
      let ready = resolve joined fused in
      let once = (resolve-IsDistinct joined fused (fused-IsDistinct ds ss)).1 in
      let found = diversify-found u contents documents top_k 4 ready once in
      let count = length-diversify u contents documents top_k 4 ready once in
      let chosen = diversify u contents documents top_k 4 ready in
      let quoted =
        retrieved_chunks-IsIsolated db workspace (hit_ids fused) chosen
          (selected_resolved joined fused chosen found.1) in
      (
        quoted.0,
        subst IsDistinct (sym quoted.1) found.0,
        length_bounded (retrieved_chunks F joined chosen) chosen top_k quoted.1
            (omega (arith, count)),
      )

  -- Every source that `retrieve` returns quotes a chunk row of the workspace whose document is ready,
  -- by that row's own text, title and position, whatever the vector store and the full-text index
  -- answer. No chunk is returned twice, and there are no more of them than asked for.
  pub retrieve-IsSound :
      (u : Unicode) (settings : Settings) (answers : Answers F) (db : Database) (workspace : ℕ)
      (query : Text) (top_k candidates : Option ℕ) (ids : List ℕ)
      → IsSound db workspace
          (number_or top_k settings.retrieval_top_k)
          (retrieve F u settings answers db workspace query top_k candidates ids)
  unfolding retrieve
  retrieve-IsSound u settings answers db workspace query top_k candidates ids =
      elim (Bool-cases (is_empty (strip u query))) [
        | inl blank ↦ rw blank (tt, tt, omega arith)
        | inr given ↦ rw given (
            assemble-IsSound u answers db workspace (number_or top_k settings.retrieval_top_k)
              (dense_search F answers (number_or candidates settings.retrieval_candidates))
              (sparse_search F u answers db workspace (strip u query)
                (number_or candidates settings.retrieval_candidates) ids))
      ]

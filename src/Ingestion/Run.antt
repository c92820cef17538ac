-- ===== src/Ingestion/Run.antt =====
-- How `_run` of services/ingestion_pipeline.py ends, on every branch.

use knowledgeos.Prelude.{
  ℕ, ◌≡◌, refl, sym, ap, subst, Bool, true, false, ◌&&◌, ◌||◌, ◌⊎◌, inl, inr, Option, none, some,
  List, [], ◌∷◌, ◌++◌, ◌==◌, if◌then◌else◌, arith, All, All-imp, All-append, ◌∙◌, Bool-cases,
}
use knowledgeos.Text.{Text, is_empty}
use knowledgeos.Content.{Document, DocumentStatus, Chunk, IngestionJob, find_document}
use knowledgeos.Retrieval.Query.{codes}
use knowledgeos.Ingestion.{
  has_no_text, new_title, Attempt, returned, raised, World, VectorRecord, Session, TextChunk,
  ParsedDocument, IngestionResult, Providers, set_document, set_job_if, without_chunks,
  without_vectors, chunk_texts, key_of, new_row, new_record, zip_rows, index, embed_and_index,
  replace_version, run, commit,
}
use knowledgeos.Ingestion.Counted.{own_chunks, own_chunks-without_chunks}

pub find-set_document :
    (id : ℕ) (f : Document → Document) (ds : List Document) (d : Document)
    → ((x : Document) → (f x).id ≡ x.id)
    → find_document id ds ≡ some d
    → find_document id (set_document id f ds) ≡ some (f d)
unfolding find_document set_document
find-set_document id f [] d keeps e = cc
find-set_document id f (x ∷ ds) d keeps e =
    ground (arith, keeps x, find-set_document id f ds d keeps)

pub set_job_if-documents :
    (job : Option ℕ) (f : IngestionJob → IngestionJob) (w : World)
    → ((set_job_if job f w).documents ≡ w.documents) × ((set_job_if job f w).chunks ≡ w.chunks)
unfolding set_job_if
set_job_if-documents none f w = (refl, refl)
set_job_if-documents (some id) f w = (refl, refl)

module _ {Vector : Type 0} where
  -- The store has a vector of the chunk.
  abbrev pub has_record : Chunk → List (VectorRecord Vector) → Bool
  has_record c [] = false
  has_record c (v ∷ vs) =
      (v.chunk_id == c.id && v.document_id == c.document_id && v.ordinal == c.ordinal)
      || has_record c vs

  -- Each chunk of the document has a vector.
  abbrev pub IsIndexed : ℕ → List Chunk → List (VectorRecord Vector) → Type 0
  IsIndexed id cs vs =
      All (λ (c : Chunk). (c.document_id == id ≡ false) ⊎ (has_record c vs ≡ true)) cs

  has_record-append :
      (c : Chunk) (vs ws : List (VectorRecord Vector))
      → has_record c ws ≡ true
      → has_record c (vs ++ ws) ≡ true
  has_record-append c [] ws h = h
  has_record-append c (v ∷ vs) ws h = ground (arith, has_record-append c vs ws h)

  without_chunks-IsIndexed :
      (id : ℕ) (cs : List Chunk) (vs : List (VectorRecord Vector))
      → IsIndexed id (without_chunks id cs) vs
  unfolding without_chunks
  without_chunks-IsIndexed id [] vs = tt
  without_chunks-IsIndexed id (c ∷ cs) vs = elim (Bool-cases (c.document_id == id)) [
    | inl own ↦ rw own (without_chunks-IsIndexed id cs vs)
    | inr other ↦ rw other (inl other, without_chunks-IsIndexed id cs vs)
  ]

  module _ (providers : Providers Vector) (document : Document) where
    -- The row is the document's and has a vector.
    abbrev IsOwnIndexed : List (VectorRecord Vector) → Chunk → Type 0
    IsOwnIndexed records c = (has_record c records ≡ true) × (c.document_id ≡ document.id)

    abbrev RowsIndexed : Option (List Chunk × List (VectorRecord Vector)) → Type 0
    RowsIndexed none = Unit
    RowsIndexed (some (rows, records)) = All (IsOwnIndexed records) rows

    RowsIndexed-cons :
        (c : TextChunk) (v : Vector) (o : Option (List Chunk × List (VectorRecord Vector)))
        → RowsIndexed o
        → RowsIndexed (elim o [
          | none ↦ none
          | some (rows, records) ↦
              some
                (new_row providers document c ∷ rows, new_record providers document c v ∷ records)
        ])
    unfolding new_row new_record
    RowsIndexed-cons c v none h = tt
    RowsIndexed-cons c v (some (rows, records)) h = (
      (ground arith, refl),
      All-imp (IsOwnIndexed records) (IsOwnIndexed (new_record providers document c v ∷ records))
          rows
          (λ x (e, own).
            (has_record-append x (new_record providers document c v ∷ []) records e, own))
          h,
    )

    zip_rows-RowsIndexed :
        (cs : List TextChunk) (vs : List Vector) → RowsIndexed (zip_rows providers document cs vs)
    unfolding zip_rows
    zip_rows-RowsIndexed [] [] = tt
    zip_rows-RowsIndexed [] (v ∷ vs) = tt
    zip_rows-RowsIndexed (c ∷ cs) [] = tt
    zip_rows-RowsIndexed (c ∷ cs) (v ∷ vs) =
        RowsIndexed-cons c v (zip_rows providers document cs vs) (zip_rows-RowsIndexed cs vs)

    abbrev pub HasDocument : World → Type 0
    HasDocument w = (d : Document) × (find_document document.id w.documents ≡ some d)

    -- How `_run` ends.
    pub data RunEnd (out : Attempt IngestionResult × Session Vector) : Type 0 where
      run_failed : (m : Text) → out.0 ≡ raised m → HasDocument out.1.committed → RunEnd out
      run_done :
          (r : IngestionResult) (d : Document)
          → out.0 ≡ returned r
          → find_document document.id out.1.working.documents ≡ some d
          → d.status ≡ DocumentStatus.ready
          → d.chunk_count ≡ r.chunks
          → own_chunks document.id out.1.working.chunks ≡ r.chunks
          → IsIndexed document.id out.1.working.chunks out.1.vectors
          → RunEnd out

    Attempt-cases :
        {A : Type 0} (a : Attempt A) → ((m : Text) × (a ≡ raised m)) ⊎ ((x : A) × (a ≡ returned x))
    Attempt-cases (raised m) = inl (m, refl)
    Attempt-cases (returned x) = inr (x, refl)

    -- A session in which the document is there, and whose other chunks are not the document's.
    abbrev pub Starts : Session Vector → Type 0
    Starts s = HasDocument s.committed × HasDocument s.working

    index-RunEnd :
        (parsed : ParsedDocument) (chunks : List TextChunk) (old rows : List Chunk)
        (records : List (VectorRecord Vector)) (s : Session Vector)
        → Starts s
        → s.working.chunks ≡ without_chunks document.id old ++ rows
        → All (IsOwnIndexed records) rows
        → RunEnd (index providers document parsed chunks rows records s)
    unfolding index
    index-RunEnd parsed chunks old rows records s start stored indexed =
        elim (Attempt-cases providers.upsert) [
          | inl (m, p) ↦ rw p (run_failed m refl start.0)
          | inr (x, p) ↦ rw p (
              run_done _ _ refl
                (find-set_document document.id _ s.working.documents start.1.0 (λ y. refl)
                  start.1.1)
                refl refl
                (ap (own_chunks document.id) stored
                  ∙ own_chunks-without_chunks document.id old rows
                      (All-imp (IsOwnIndexed records) _ rows (λ c (e, own). own) indexed))
                (subst (λ cs. IsIndexed document.id cs (s.vectors ++ records)) (sym stored)
                  (All-append _ (without_chunks document.id old) rows
                    (without_chunks-IsIndexed document.id old (s.vectors ++ records))
                    (All-imp (IsOwnIndexed records) _ rows
                      (λ c (e, own). inr (has_record-append c s.vectors records e)) indexed))))
        ]

    -- A call that may raise, and what follows it.
    Attempt-RunEnd :
        {A : Type 0} (a : Attempt A) (s : Session Vector)
        (then_do : A → Attempt IngestionResult × Session Vector)
        → HasDocument s.committed
        → ((x : A) → RunEnd (then_do x))
        → RunEnd (elim a [ raised m ↦ (raised m, s) | returned x ↦ then_do x ])
    Attempt-RunEnd (raised m) s then_do h rest = run_failed m refl h
    Attempt-RunEnd (returned x) s then_do h rest = rest x

    abbrev zipped :
        ParsedDocument
        → List TextChunk
        → Session Vector
        → Option (List Chunk × List (VectorRecord Vector))
        → Attempt IngestionResult × Session Vector
    zipped parsed chunks s none = (raised (codes "zip() argument lengths differ"), s)
    zipped parsed chunks s (some (rows, records)) =
        index providers document parsed chunks rows records
          (commit (record s { working = record s.working { chunks = s.working.chunks ++ rows } }))

    zipped-RunEnd :
        (parsed : ParsedDocument) (chunks : List TextChunk) (old : List Chunk) (s : Session Vector)
        (o : Option (List Chunk × List (VectorRecord Vector)))
        → Starts s
        → s.working.chunks ≡ without_chunks document.id old
        → RowsIndexed o
        → RunEnd (zipped parsed chunks s o)
    zipped-RunEnd parsed chunks old s none start stored h = run_failed _ refl start.0
    zipped-RunEnd parsed chunks old s (some (rows, records)) start stored h =
        index-RunEnd parsed chunks old rows records _ (start.1, start.1)
          (ap (λ (cs : List Chunk). cs ++ rows) stored) h

    embed_and_index-RunEnd :
        (parsed : ParsedDocument) (chunks : List TextChunk) (old : List Chunk) (s : Session Vector)
        → Starts s
        → s.working.chunks ≡ without_chunks document.id old
        → RunEnd (embed_and_index providers document parsed chunks s)
    unfolding embed_and_index
    embed_and_index-RunEnd parsed chunks old s start stored =
        Attempt-RunEnd (providers.embed (chunk_texts chunks)) s
          (λ vs. zipped parsed chunks s (zip_rows providers document chunks vs)) start.0
          (λ vs.
            zipped-RunEnd parsed chunks old s (zip_rows providers document chunks vs) start stored
              (zip_rows-RowsIndexed chunks vs))

    abbrev cleared : Session Vector → Session Vector
    cleared s = record s {
      vectors = without_vectors document.id s.vectors;
      working = record s.working { chunks = without_chunks document.id s.working.chunks };
    }

    replace_version-RunEnd :
        (parsed : ParsedDocument) (chunks : List TextChunk) (s : Session Vector)
        → Starts s
        → RunEnd (replace_version providers document parsed chunks s)
    unfolding replace_version
    replace_version-RunEnd parsed chunks s start =
        Attempt-RunEnd providers.ensure_collection s
          (λ x. elim providers.delete_by_document [
            | raised m ↦ (raised m, s)
            | returned y ↦ embed_and_index providers document parsed chunks (cleared s)
          ])
          start.0
          (λ x.
            Attempt-RunEnd providers.delete_by_document s
              (λ y. embed_and_index providers document parsed chunks (cleared s)) start.0
              (λ y. embed_and_index-RunEnd parsed chunks s.working.chunks (cleared s) start refl))

    if_RunEnd :
        (b : Bool) (x y : Attempt IngestionResult × Session Vector)
        → RunEnd x
        → RunEnd y
        → RunEnd (if b then x else y)
    if_RunEnd true x y h k = h
    if_RunEnd false x y h k = k

    abbrev titled : ParsedDocument → Session Vector → Session Vector
    titled parsed s = record s {
      working = record s.working {
        documents =
            set_document document.id
              (λ d. record d { title = new_title parsed.title document.title }) s.working.documents;
      };
    }

    titled-Starts :
        (parsed : ParsedDocument) (s : Session Vector) → Starts s → Starts (titled parsed s)
    titled-Starts parsed s start = (
      start.0,
      (_, find-set_document document.id _ s.working.documents start.1.0 (λ y. refl) start.1.1),
    )

    parsed-RunEnd :
        (parsed : ParsedDocument) (s : Session Vector)
        → Starts s
        → RunEnd (
            if has_no_text parsed
            then (
              raised (
                  codes
                    "No extractable text found. Scanned documents need OCR, which this build does not perform."),
              s,
            )
            else (let chunks = providers.chunk_document parsed in
                if is_empty chunks
                then (raised (codes "Document produced no chunks."), titled parsed s)
                else replace_version providers document parsed chunks (titled parsed s)))
    parsed-RunEnd parsed s start = if_RunEnd (has_no_text parsed) _ _ (run_failed _ refl start.0) (
        if_RunEnd (is_empty (providers.chunk_document parsed)) _ _ (run_failed _ refl start.0) (
          replace_version-RunEnd parsed (providers.chunk_document parsed) (titled parsed s)
            (titled-Starts parsed s start)))

    Option-RunEnd :
        {A : Type 0} (o : Option A) (s : Session Vector) (m : Text)
        (then_do : A → Attempt IngestionResult × Session Vector)
        → HasDocument s.committed
        → ((x : A) → RunEnd (then_do x))
        → RunEnd (elim o [ none ↦ (raised m, s) | some x ↦ then_do x ])
    Option-RunEnd none s m then_do h rest = run_failed m refl h
    Option-RunEnd (some x) s m then_do h rest = rest x

    pub run-RunEnd : (s : Session Vector) → Starts s → RunEnd (run providers document s)
    unfolding run
    run-RunEnd s start = Option-RunEnd (key_of document.storage_key) s _ _ start.0 (λ key.
        Attempt-RunEnd (providers.parse key document.source_type document.source_uri) s _ start.0
          (λ parsed. parsed-RunEnd parsed s start))

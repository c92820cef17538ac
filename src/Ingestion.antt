-- ===== src/Ingestion.antt =====
-- services/ingestion_pipeline.py: parse, chunk, embed and index one document. A session has the rows
-- that are committed and those that it works on; the vector store is beside it and is not rolled
-- back. The parser, the chunker, the embedder and the store are arguments, each of which may raise.
-- The record of the usage and the duration are left out.
pub mod Rows
pub mod Counted
pub mod Run
pub mod Laws
pub use knowledgeos.Ingestion.Rows.{
  Attempt, World, VectorRecord, Session, TextChunk, ParsedPage, ParsedDocument, IngestionResult,
  Providers, new_title, key_of, returned, raised,
}
unfoldable pub use knowledgeos.Ingestion.Rows.{
  chunk_tokens, total_characters, has_no_text, set_document, set_job, set_job_if, without_chunks,
  chunk_texts, sum_tokens,
}
use Prim.Native.String.{String}
use knowledgeos.Prelude.{
  ltb, max, ◌/◌, ℕ, zero, suc, ◌+◌, ◌*◌, ◌≡◌, refl, Bool, true, false, not, ◌&&◌, Option, none,
  some, List, [], ◌∷◌, ◌++◌, length, take, ◌==◌, if◌then◌else◌, map,
}
use knowledgeos.Text.{Text, is_empty, text_eq}
use knowledgeos.Content.{
  Document, DocumentStatus, Chunk, IngestionJob, JobStatus, SourceType, find_document,
}
use knowledgeos.Retrieval.Query.{codes}

module _ {Vector : Type 0} where
  unfoldable pub without_vectors : ℕ → List (VectorRecord Vector) → List (VectorRecord Vector)
  without_vectors id [] = []
  without_vectors id (v ∷ vs) =
      if v.document_id == id then without_vectors id vs else v ∷ without_vectors id vs

  abbrev pub commit : Session Vector → Session Vector
  commit s = record s { committed = s.working }

  abbrev pub rollback : Session Vector → Session Vector
  rollback s = record s { working = s.committed }

  module _ (providers : Providers Vector) (document : Document) where
    unfoldable pub new_row : TextChunk → Chunk
    unfolding chunk_tokens
    new_row c = record {
      id = (providers.new_ids c.ordinal).0;
      document_id = document.id;
      workspace_id = document.workspace_id;
      ordinal = c.ordinal;
      content = c.content;
      token_count = chunk_tokens c;
      page_from = c.page_from;
      page_to = c.page_to;
      section = c.section;
      vector_id = some (providers.new_ids c.ordinal).1;
    }

    unfoldable pub new_record : TextChunk → Vector → VectorRecord Vector
    new_record c v = record {
      vector_id = (providers.new_ids c.ordinal).1;
      chunk_id = (providers.new_ids c.ordinal).0;
      document_id = document.id;
      workspace_id = document.workspace_id;
      vector = v;
      ordinal = c.ordinal;
      page_from = c.page_from;
      page_to = c.page_to;
    }

    -- `zip(chunks, vectors, strict=True)`, for the rows and for the records
    unfoldable pub zip_rows :
        List TextChunk → List Vector → Option (List Chunk × List (VectorRecord Vector))
    unfolding new_row new_record
    zip_rows [] [] = some ([], [])
    zip_rows [] (v ∷ vs) = none
    zip_rows (c ∷ cs) [] = none
    zip_rows (c ∷ cs) (v ∷ vs) = elim (zip_rows cs vs) [
      | none ↦ none
      | some (rows, records) ↦ some (new_row c ∷ rows, new_record c v ∷ records)
    ]

    abbrev ready_document : ParsedDocument → ℕ → ℕ → Document → Document
    ready_document parsed rows tokens d = record d {
      status = DocumentStatus.ready;
      chunk_count = rows;
      token_count = tokens;
      page_count = length parsed.pages;
      processed_at = some providers.finished;
    }

    -- From the upsert on.
    unfoldable pub index :
        ParsedDocument
        → List TextChunk
        → List Chunk
        → List (VectorRecord Vector)
        → Session Vector
        → Attempt IngestionResult × Session Vector
    unfolding set_document sum_tokens
    index parsed chunks rows records s = elim providers.upsert [
      | raised message ↦ (raised message, s)
      | returned _ ↦
          (let tokens = sum_tokens chunks in
            (
              returned (record {
                document_id = document.id;
                chunks = length rows;
                pages = length parsed.pages;
                tokens = tokens;
              }),
              record s {
                vectors = s.vectors ++ records;
                working = record s.working {
                  documents =
                      set_document document.id (ready_document parsed (length rows) tokens)
                        s.working.documents;
                };
              },
            ))
    ]

    -- From the embedding on: the chunk rows are committed before they are indexed.
    unfoldable pub embed_and_index :
        ParsedDocument → List TextChunk → Session Vector → Attempt IngestionResult × Session Vector
    unfolding index zip_rows chunk_texts
    embed_and_index parsed chunks s = elim (providers.embed (chunk_texts chunks)) [
      | raised message ↦ (raised message, s)
      | returned vectors ↦ (elim (zip_rows chunks vectors) [
        | none ↦ (raised (codes "zip() argument lengths differ"), s)
        | some (rows, records) ↦
            index parsed chunks rows records (
              commit
                (record s { working = record s.working { chunks = s.working.chunks ++ rows } }))
      ])
    ]

    -- The replacement of the previous version, and what follows.
    unfoldable pub replace_version :
        ParsedDocument → List TextChunk → Session Vector → Attempt IngestionResult × Session Vector
    unfolding embed_and_index without_vectors without_chunks
    replace_version parsed chunks s = elim providers.ensure_collection [
      | raised message ↦ (raised message, s)
      | returned _ ↦ (elim providers.delete_by_document [
        | raised message ↦ (raised message, s)
        | returned _ ↦ embed_and_index parsed chunks (record s {
          vectors = without_vectors document.id s.vectors;
          working = record s.working { chunks = without_chunks document.id s.working.chunks };
        })
      ])
    ]

    -- `_run`
    unfoldable pub run : Session Vector → Attempt IngestionResult × Session Vector
    unfolding replace_version set_document has_no_text
    run s = elim (key_of document.storage_key) [
      | none ↦ (raised (codes "Document has no stored content."), s)
      | some key ↦ (elim (providers.parse key document.source_type document.source_uri) [
        | raised message ↦ (raised message, s)
        | returned parsed ↦
            (if has_no_text parsed
              then (
                raised (
                    codes
                      "No extractable text found. Scanned documents need OCR, which this build does not perform."),
                s,
              )
              else (let titled = record s {
                working = record s.working {
                  documents =
                      set_document document.id
                        (λ d. record d { title = new_title parsed.title document.title })
                        s.working.documents;
                };
              } in
                  let chunks = providers.chunk_document parsed in
                  if is_empty chunks
                  then (raised (codes "Document produced no chunks."), titled)
                  else replace_version parsed chunks titled))
      ])
    ]

abbrev pub processing : Document → Document
processing d = record d { status = DocumentStatus.processing; error_message = none }

abbrev pub failed_document : Text → Document → Document
failed_document message d = record d {
  status = DocumentStatus.failed;
  error_message = some (take 2000 message);
}

abbrev pub running_job : ℕ → IngestionJob → IngestionJob
running_job now j = record j {
  status = JobStatus.running;
  started_at = some now;
  attempts = j.attempts + 1;
}

abbrev pub failed_job : ℕ → Text → IngestionJob → IngestionJob
failed_job now message j = record j {
  status = JobStatus.failed;
  last_error = some (take 2000 message);
  finished_at = some now;
}

abbrev pub finished_job : ℕ → IngestionJob → IngestionJob
finished_job now j = record j { status = JobStatus.succeeded; finished_at = some now }

module _ {Vector : Type 0} (providers : Providers Vector) where
  unfoldable pub on_document : ℕ → (Document → Document) → World → World
  unfolding set_document
  on_document id f w = record w { documents = set_document id f w.documents }

  -- What `process_document` commits after `_run`, and whether it raises.
  unfoldable pub settle :
      ℕ
      → Option ℕ
      → Attempt IngestionResult × Session Vector
      → Attempt IngestionResult × Session Vector
  unfolding on_document set_job_if
  settle id job (raised message, s) =
      let w = (rollback s).working in
      let failed = on_document id (failed_document message) w in
      (
        raised message,
        commit
            (record s { working = set_job_if job (failed_job providers.finished message) failed }),
      )
  settle id job (returned r, s) = (
    returned r,
    commit (record s { working = set_job_if job (finished_job providers.finished) s.working }),
  )

  unfoldable pub process_document :
      ℕ → Option ℕ → Session Vector → Attempt IngestionResult × Session Vector
  unfolding on_document set_job_if settle run
  process_document id job s = elim (find_document id s.working.documents) [
    | none ↦ (raised (codes "Document " ++ (providers.show_id id ++ codes " no longer exists.")), s)
    | some document ↦
        (let w =
            set_job_if job (running_job providers.started) (on_document id processing s.working) in
          settle id job (run providers (processing document) (commit (record s { working = w }))))
  ]

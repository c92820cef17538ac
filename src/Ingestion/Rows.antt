-- ===== src/Ingestion/Rows.antt =====
-- The world of services/ingestion_pipeline.py: the rows, the vector store and the records that a run
-- works on, and the changes of rows.
use knowledgeos.Prelude.{
  ltb, max, ◌/◌, ℕ, ◌+◌, Bool, not, ◌&&◌, Option, none, some, List, [], ◌∷◌, length, take, ◌==◌,
  if◌then◌else◌,
}
use knowledgeos.Text.{Text, is_empty, text_eq}
use knowledgeos.Content.{Document, Chunk, IngestionJob, SourceType}
use knowledgeos.Retrieval.Query.{codes}

-- A call that returns, or raises an exception with a message.
pub data Attempt (A : Type 0) : Type 0 where
  returned : A → Attempt A
  raised : Text → Attempt A

pub record World : Type 0 where
  pub documents : List Document
  pub chunks : List Chunk
  pub jobs : List IngestionJob

pub record VectorRecord (Vector : Type 0) : Type 0 where
  pub vector_id : ℕ
  pub chunk_id : ℕ
  pub document_id : ℕ
  pub workspace_id : ℕ
  pub vector : Vector
  pub ordinal : ℕ
  pub page_from : Option ℕ
  pub page_to : Option ℕ

pub record Session (Vector : Type 0) : Type 0 where
  pub committed : World
  pub working : World
  pub vectors : List (VectorRecord Vector)

pub record TextChunk : Type 0 where
  pub ordinal : ℕ
  pub content : Text
  pub page_from : Option ℕ
  pub page_to : Option ℕ
  pub section : Option Text

-- `TextChunk.token_estimate`
unfoldable pub chunk_tokens : TextChunk → ℕ
chunk_tokens c = max 1 (length c.content / 4)

pub record ParsedPage : Type 0 where
  pub number : ℕ
  pub text : Text
  pub section : Option Text

pub record ParsedDocument : Type 0 where
  pub pages : List ParsedPage
  pub title : Option Text

unfoldable pub total_characters : List ParsedPage → ℕ
total_characters [] = 0
total_characters (p ∷ ps) = length p.text + total_characters ps

-- `ParsedDocument.is_empty`
unfoldable pub has_no_text : ParsedDocument → Bool
unfolding total_characters
has_no_text parsed = ltb (total_characters parsed.pages) 20

pub record IngestionResult : Type 0 where
  pub document_id : ℕ
  pub chunks : ℕ
  pub pages : ℕ
  pub tokens : ℕ

-- What the providers do in a run, and what the clock and the id generator give.
pub record Providers (Vector : Type 0) : Type 0 where
  -- `get_storage().get(key)` and `parser.parse(raw, filename=...)`
  pub parse : Text → SourceType → Option Text → Attempt ParsedDocument
  pub chunk_document : ParsedDocument → List TextChunk
  pub ensure_collection : Attempt (Unit {0})
  pub delete_by_document : Attempt (Unit {0})
  pub embed : List Text → Attempt (List Vector)
  pub upsert : Attempt (Unit {0})
  -- the id and the vector id of the row of an ordinal
  pub new_ids : ℕ → ℕ × ℕ
  -- `str(document_id)`
  pub show_id : ℕ → Text
  pub started : ℕ
  pub finished : ℕ

-- The change of the row with an id.
unfoldable pub set_document : ℕ → (Document → Document) → List Document → List Document
set_document id f [] = []
set_document id f (d ∷ ds) = if d.id == id then f d ∷ ds else d ∷ set_document id f ds

unfoldable pub set_job : ℕ → (IngestionJob → IngestionJob) → List IngestionJob → List IngestionJob
set_job id f [] = []
set_job id f (j ∷ js) = if j.id == id then f j ∷ js else j ∷ set_job id f js

-- A job id that may be `None`.
unfoldable pub set_job_if : Option ℕ → (IngestionJob → IngestionJob) → World → World
unfolding set_job
set_job_if none f w = w
set_job_if (some id) f w = record w { jobs = set_job id f w.jobs }

-- `delete(Chunk).where(Chunk.document_id == id)`
unfoldable pub without_chunks : ℕ → List Chunk → List Chunk
without_chunks id [] = []
without_chunks id (c ∷ cs) =
    if c.document_id == id then without_chunks id cs else c ∷ without_chunks id cs

unfoldable pub chunk_texts : List TextChunk → List Text
chunk_texts [] = []
chunk_texts (c ∷ cs) = c.content ∷ chunk_texts cs

unfoldable pub sum_tokens : List TextChunk → ℕ
unfolding chunk_tokens
sum_tokens [] = 0
sum_tokens (c ∷ cs) = chunk_tokens c + sum_tokens cs

abbrev starts_untitled : Text → Bool
starts_untitled s = text_eq (take 8 s) (codes "Untitled")

abbrev pub new_title : Option Text → Text → Text
new_title none title = title
new_title (some t) title = if not (is_empty t) && starts_untitled title then take 500 t else title

-- `document.storage_key or None`
abbrev pub key_of : Option Text → Option Text
key_of none = none
key_of (some k) = if is_empty k then none else some k

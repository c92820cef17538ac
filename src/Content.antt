-- ===== src/Content.antt =====
-- db/models/content.py and db/models/enums.py: the rows of documents, chunks and ingestion jobs. An
-- id is the number of a UUID, a time a number of microseconds, and a table the list of its rows.
use knowledgeos.Prelude.{
  ℕ, Bool, true, false, ◌&&◌, not, Option, none, some, List, [], ◌∷◌, ◌++◌, ◌==◌, if◌then◌else◌,
}
use knowledgeos.Text.{Text, show_number}

pub data SourceType : Type 0 where
  pdf docx pptx markdown txt url : SourceType

pub data DocumentStatus : Type 0 where
  pending processing ready failed quarantined deleted : DocumentStatus

pub data JobStatus : Type 0 where
  queued running succeeded failed : JobStatus

abbrev pub is_ready : DocumentStatus → Bool
is_ready DocumentStatus.ready = true
is_ready _ = false

pub record Document : Type 0 where
  pub id : ℕ
  pub workspace_id : ℕ
  pub uploaded_by : ℕ
  pub title : Text
  pub source_type : SourceType
  pub source_uri : Option Text
  pub mime_type : Option Text
  pub checksum : ℕ
  pub byte_size : ℕ
  pub storage_key : Option Text
  pub status : DocumentStatus
  pub error_message : Option Text
  pub page_count : ℕ
  pub chunk_count : ℕ
  pub token_count : ℕ
  pub processed_at : Option ℕ

pub record Chunk : Type 0 where
  pub id : ℕ
  pub document_id : ℕ
  pub workspace_id : ℕ
  pub ordinal : ℕ
  pub content : Text
  pub token_count : ℕ
  pub page_from : Option ℕ
  pub page_to : Option ℕ
  pub section : Option Text
  pub vector_id : Option ℕ

pub record IngestionJob : Type 0 where
  pub id : ℕ
  pub document_id : ℕ
  pub status : JobStatus
  pub attempts : ℕ
  pub last_error : Option Text
  pub started_at : Option ℕ
  pub finished_at : Option ℕ

-- `Chunk.page_label`; a page of number 0 counts as missing where it is the last page.
unfoldable pub page_label : Chunk → Option Text
page_label c = elim c.page_from [
  | none ↦ none
  | some first ↦ some (elim c.page_to [
    | none ↦ show_number first
    | some last ↦
        (if not (last == 0) && not (last == first)
          then show_number first ++ (b'-' ∷ show_number last)
          else show_number first)
  ])
]

-- `db.get(Document, id)`
unfoldable pub find_document : ℕ → List Document → Option Document
find_document id [] = none
find_document id (d ∷ ds) = if d.id == id then some d else find_document id ds

-- ===== src/Intake.antt =====
-- services/document_service.py, and `source_type_for` of providers/parsers/formats.py: an upload is
-- checked, deduplicated, stored and queued. SHA-256, the decoding of UTF-8, the text of an id and the
-- ids of the new rows are arguments; the storage and the queue answer or raise. The caller commits;
-- where an upload raises, its session is closed, the rows are as before, and what is stored stays.
pub mod Unique
pub mod Raised
use knowledgeos.Retrieval.Query.{codes}
use knowledgeos.Prelude.{
  ℕ, ◌+◌, ◌*◌, ◌/◌, Bool, true, false, ◌&&◌, ◌||◌, not, Option, none, some, List, [], ◌∷◌, ◌++◌,
  ltb, ◌==◌, if◌then◌else◌, length, take, contains,
}
use knowledgeos.Text.{Text, text_eq, is_empty, strip, Unicode, starts_with}
use knowledgeos.Errors.{plain, Kind, Detail, AppError, Result, ok, err}
use knowledgeos.Content.{SourceType, DocumentStatus, JobStatus, Document, IngestionJob}
use knowledgeos.Queue.{enqueue, Queue}
use knowledgeos.Ingestion.{set_document}

-- `text.rsplit(c, 1)[-1]` and `text.split(c)[-1]`
unfoldable after_last : ℕ → Text → Text
after_last c [] = []
after_last c (d ∷ s) =
    let rest = after_last c s in if contains c s then rest else if d == c then s else d ∷ s

-- What the code relies on of the platform.
pub record Platform : Type 0 where
  pub unicode : Unicode
  pub sha256 : Text → ℕ
  pub is_utf8 : Text → Bool
  pub show_id : ℕ → Text
  pub max_upload_bytes : ℕ
  -- `get_storage().put(...)` and `queue.enqueue(...)`: done, or raised
  pub put : Result (Unit {0})
  pub push : Result (Unit {0})

-- `if filename and "." in filename`
unfoldable extension_of : Unicode → Option Text → Text
unfolding after_last
extension_of u none = []
extension_of u (some name) =
    if contains b'.' name then b'.' ∷ u.lower (after_last b'.' name) else []

-- `_BY_EXTENSION`
unfoldable by_extension : Text → Option SourceType
by_extension e =
    if text_eq e (codes ".pdf")
    then some SourceType.pdf
    else if text_eq e (codes ".docx")
    then some SourceType.docx
    else if text_eq e (codes ".pptx")
    then some SourceType.pptx
    else if text_eq e (codes ".md") || text_eq e (codes ".markdown")
    then some SourceType.markdown
    else if text_eq e (codes ".txt") || text_eq e (codes ".text")
    then some SourceType.txt
    else if text_eq e (codes ".html") || text_eq e (codes ".htm")
    then some SourceType.url
    else none

abbrev unsupported : Detail → AppError
unsupported detail = record { kind = Kind.unsupported_media; detail = detail; retry_after = none }

abbrev mismatch : Text → AppError
mismatch extension =
    unsupported (Detail.with_text "File claims to be " extension " but its content does not match.")

-- An extension of a format that has magic bytes, on content that does not have them.
unfoldable declared_type : Text → SourceType → Result SourceType
declared_type extension SourceType.pdf = err (mismatch extension)
declared_type extension SourceType.docx = err (mismatch extension)
declared_type extension SourceType.pptx = err (mismatch extension)
declared_type extension SourceType.markdown = ok SourceType.markdown
declared_type extension SourceType.txt = ok SourceType.txt
declared_type extension SourceType.url = ok SourceType.url

-- `b"PK\x03\x04"`
abbrev zip_magic : Text
zip_magic = b'P' ∷ b'K' ∷ 3 ∷ 4 ∷ []

abbrev zip_type : Text → Result SourceType
zip_type extension =
    if text_eq extension (codes ".pptx")
    then ok SourceType.pptx
    else if text_eq extension (codes ".docx")
    then ok SourceType.docx
    else err (
        unsupported (
          Detail.literal "Zip-based file with an unrecognised extension; expected .docx or .pptx."))

abbrev text_type : Bool → Result SourceType
text_type decoded =
    if decoded
    then ok SourceType.txt
    else err (
        unsupported
          (Detail.literal "Unsupported file type. Accepted: PDF, DOCX, PPTX, Markdown, text."))

unfoldable pub source_type_for : Platform → Option Text → Text → Result SourceType
unfolding extension_of by_extension declared_type
source_type_for p filename bytes =
    let extension = extension_of p.unicode filename in
    if starts_with (codes "%PDF-") (take 8 bytes)
    then ok SourceType.pdf
    else if starts_with zip_magic (take 8 bytes)
    then zip_type extension
    else elim (by_extension extension) [
      | none ↦ text_type (p.is_utf8 (take 4096 bytes))
      | some declared ↦ declared_type extension declared
    ]

abbrev slashes : Text → Text
slashes [] = []
slashes (c ∷ s) = (if c == 92 then b'/' else c) ∷ slashes s

abbrev or_text : Text → Text → Text
or_text [] other = other
or_text (c ∷ s) other = c ∷ s

-- `_safe_title`
unfoldable pub safe_title : Unicode → Option Text → Text → Text
unfolding after_last strip
safe_title u none fallback = fallback
safe_title u (some []) fallback = fallback
safe_title u (some (c ∷ name)) fallback =
    take 500 (or_text (strip u (after_last b'/' (slashes (c ∷ name)))) fallback)

-- The rows that an upload works on, the stored keys and the queue.
pub record Store : Type 0 where
  pub documents : List Document
  pub jobs : List IngestionJob
  pub keys : List Text
  pub queue : Queue

pub record Upload : Type 0 where
  pub workspace_id : ℕ
  pub uploaded_by : ℕ
  pub bytes : Text
  pub filename : Option Text
  pub source_type : Option SourceType
  pub source_uri : Option Text
  pub title : Option Text
  pub mime_type : Option Text
  -- the ids of the rows, if there are new ones
  pub document_id : ℕ
  pub job_id : ℕ

pub record IntakeResult : Type 0 where
  pub document : Document
  pub duplicate : Bool

abbrev pub given_or : Option Text → Text → Text
given_or none other = other
given_or (some s) other = or_text s other

abbrev new_job : ℕ → ℕ → IngestionJob
new_job job_id document_id = record {
  id = job_id;
  document_id = document_id;
  status = JobStatus.queued;
  attempts = 0;
  last_error = none;
  started_at = none;
  finished_at = none;
}

-- A new job row and its payload.
unfoldable pub queue_job : ℕ → ℕ → Store → Store
unfolding enqueue
queue_job job_id document_id s = record s {
  jobs = s.jobs ++ new_job job_id document_id ∷ [];
  queue = enqueue (record { document_id = document_id; job_id = job_id; attempt = 0 }) s.queue;
}

abbrev pub pending_again : Document → Document
pending_again d = record d { status = DocumentStatus.pending; error_message = none }

-- `requeue`
unfoldable pub requeue_document : ℕ → Document → Store → Store
unfolding queue_job set_document
requeue_document job_id d s =
    queue_job job_id d.id (record s { documents = set_document d.id pending_again s.documents })

-- The document of the workspace with the checksum.
unfoldable pub find_duplicate : ℕ → ℕ → List Document → Option Document
find_duplicate workspace checksum [] = none
find_duplicate workspace checksum (d ∷ ds) =
    if d.workspace_id == workspace && d.checksum == checksum
    then some d
    else find_duplicate workspace checksum ds

abbrev pub is_usable : DocumentStatus → Bool
is_usable DocumentStatus.ready = true
is_usable DocumentStatus.pending = true
is_usable _ = false

module _ (p : Platform) (up : Upload) where
  abbrev pub new_document : SourceType → Document
  new_document kind = record {
    id = up.document_id;
    workspace_id = up.workspace_id;
    uploaded_by = up.uploaded_by;
    title = given_or up.title (safe_title p.unicode up.filename (codes "Untitled document"));
    source_type = kind;
    source_uri = some (given_or up.source_uri (safe_title p.unicode up.filename []));
    mime_type = up.mime_type;
    checksum = p.sha256 up.bytes;
    byte_size = length up.bytes;
    storage_key =
        some (p.show_id up.workspace_id ++ (b'/' ∷ p.show_id up.document_id) ++ codes ".bin");
    status = DocumentStatus.pending;
    error_message = none;
    page_count = 0;
    chunk_count = 0;
    token_count = 0;
    processed_at = none;
  }

  abbrev pub new_key : Text
  new_key = p.show_id up.workspace_id ++ (b'/' ∷ p.show_id up.document_id) ++ codes ".bin"

  -- What `queue.enqueue` leaves: where it raises, the store that is given.
  abbrev pub queued : Store → IntakeResult × Store → Result IntakeResult × Store
  queued left (r, t) = elim p.push [ err e ↦ (err e, left) | ok _ ↦ (ok r, t) ]

  -- The upload, once the format and an equal document are looked up.
  unfoldable pub place : SourceType → Option Document → Store → Result IntakeResult × Store
  unfolding requeue_document queue_job safe_title
  place kind none s = elim p.put [
    | err e ↦ (err e, s)
    | ok _ ↦
        queued (record s { keys = s.keys ++ new_key ∷ [] })
          (
            record { document = new_document kind; duplicate = false },
            queue_job up.job_id up.document_id (record s {
              documents = s.documents ++ new_document kind ∷ [];
              keys = s.keys ++ new_key ∷ [];
            }),
          )
  ]
  place kind (some existing) s =
      if is_usable existing.status
      then (ok (record { document = existing; duplicate = true }), s)
      else queued s (
        record { document = pending_again existing; duplicate = false },
        requeue_document up.job_id existing s,
      )

  abbrev pub resolved_type : Result SourceType
  resolved_type = elim up.source_type [
    | none ↦ source_type_for p up.filename up.bytes
    | some kind ↦ ok kind
  ]

  unfoldable pub typed_intake : Result SourceType → Store → Result IntakeResult × Store
  unfolding place find_duplicate
  typed_intake (err e) s = (err e, s)
  typed_intake (ok kind) s =
      place kind (find_duplicate up.workspace_id (p.sha256 up.bytes) s.documents) s

  -- `intake_bytes`
  unfoldable pub intake_bytes : Store → Result IntakeResult × Store
  unfolding typed_intake source_type_for
  intake_bytes s =
      if is_empty up.bytes
      then (err (plain Kind.validation "The uploaded file is empty."), s)
      else if ltb p.max_upload_bytes (length up.bytes)
      then (
        err (record {
          kind = Kind.payload_too_large;
          detail =
              Detail.with_number "File exceeds the " (p.max_upload_bytes / (1024 * 1024))
                " MB limit.";
          retry_after = none;
        }),
        s,
      )
      else typed_intake resolved_type s

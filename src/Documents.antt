-- ===== src/Documents.antt =====
-- api/v1/documents.py: the endpoints that change documents, over the tables, the storage, the queue,
-- the limiter and the vector store. A request that raises is rolled back, but for the limiter and the storage. What
-- the vector store answers and the ids of new rows are arguments.
pub mod Authorized
pub mod Removed
use Prim.Native.String.{String}
use knowledgeos.Retrieval.Query.{codes}
use knowledgeos.Prelude.{
  ℕ, ◌+◌, ◌*◌, ◌/◌, Bool, Option, none, some, List, [], ◌∷◌, ◌++◌, ltb, if◌then◌else◌, length, ◌==◌,
}
use knowledgeos.Text.{Text, text_eq}
use knowledgeos.Errors.{plain, Kind, Detail, Result, ok, err}
use knowledgeos.Content.{SourceType, Document, Chunk, IngestionJob}
use knowledgeos.Access.{
  satisfies, workspace_context, load_document, Role, User, Tables, WorkspaceContext, require,
}
use knowledgeos.Fetching.{fetch, Net, FetchedResource}
use knowledgeos.Limits.{check_rate_limit}
use knowledgeos.Intake.{
  pending_again, requeue_document, intake_bytes, Platform, Store, Upload, IntakeResult, given_or,
}
use knowledgeos.Queue.{Queue}

pub record Service : Type 0 where
  pub tables : Tables
  pub jobs : List IngestionJob
  pub keys : List Text
  pub queue : Queue
  pub chunks : List Chunk
  -- the document ids of the stored vectors
  pub vectors : List ℕ
  -- the times that the limiter holds for the caller's uploads
  pub uploads : List ℕ

abbrev pub store_of : Service → Store
store_of s = record {
  documents = s.tables.documents;
  jobs = s.jobs;
  keys = s.keys;
  queue = s.queue;
}

-- The rows after an upload or a requeue are committed.
abbrev pub with_store : Store → Service → Service
with_store t s = record s {
  tables = record s.tables { documents = t.documents };
  jobs = t.jobs;
  keys = t.keys;
  queue = t.queue;
}

-- A request: its caller, the clock, the settings and what the outside answers.
pub record Request : Type 0 where
  pub platform : Platform
  pub net : Net
  pub user : User
  pub now_ms : ℕ
  pub redis_up : Bool
  pub uploads_per_minute : ℕ
  pub document_id : ℕ
  pub job_id : ℕ
  -- `get_vector_store().delete_by_document(...)`
  pub delete_vectors : Result (Unit {0})

-- The loop that reads an upload, piece by piece, from a total.
unfoldable read_pieces : Platform → ℕ → List Text → Result Text
read_pieces p total [] = ok []
read_pieces p total (piece ∷ pieces) =
    let rest = read_pieces p (total + length piece) pieces in
    if ltb p.max_upload_bytes (total + length piece)
    then err (record {
      kind = Kind.payload_too_large;
      detail =
          Detail.with_number "File exceeds the " (p.max_upload_bytes / (1024 * 1024)) " MB limit.";
      retry_after = none;
    })
    else elim rest [ err e ↦ err e | ok bytes ↦ ok (piece ++ bytes) ]

-- What `intake_bytes` leaves committed; where it raises, what it leaves in the storage.
abbrev pub stored : Result IntakeResult × Store → Service → Result IntakeResult × Service
stored (r, t) s = (r, with_store t s)

unfoldable pub take_in : Platform → Result Upload → Service → Result IntakeResult × Service
unfolding intake_bytes
take_in p (err e) s = (err e, s)
take_in p (ok up) s = stored (intake_bytes p up (store_of s)) s

unfoldable pub after_limit :
    Platform → Result (Unit {0}) × List ℕ → Result Upload → Service → Result IntakeResult × Service
unfolding take_in
after_limit p (err e, times) up s = (err e, record s { uploads = times })
after_limit p (ok _, times) up s = take_in p up (record s { uploads = times })

-- `ctx.require(Role.MEMBER)` and what follows, for an upload that is read or fetched.
abbrev pub with_role :
    Request → Result (Unit {0}) → Result Upload → Service → Result IntakeResult × Service
with_role q (err e) up s = (err e, s)
with_role q (ok _) up s =
    after_limit q.platform (check_rate_limit q.redis_up q.uploads_per_minute 60 q.now_ms s.uploads)
      up s

abbrev pub in_workspace :
    Request
    → Result WorkspaceContext
    → (WorkspaceContext → Result Upload)
    → Service
    → Result IntakeResult × Service
in_workspace q (err e) make s = (err e, s)
in_workspace q (ok ctx) make s = with_role q (require ctx Role.member) (make ctx) s

-- The upload of `upload_document`
unfoldable pub file_upload :
    Request → List Text → Option Text → Option Text → WorkspaceContext → Result Upload
unfolding read_pieces
file_upload q pieces filename content_type ctx = elim (read_pieces q.platform 0 pieces) [
  | err e ↦ err e
  | ok bytes ↦ ok (record {
    workspace_id = ctx.workspace.id;
    uploaded_by = ctx.user.id;
    bytes = bytes;
    filename = filename;
    source_type = none;
    source_uri = none;
    title = none;
    mime_type = content_type;
    document_id = q.document_id;
    job_id = q.job_id;
  })
]

unfoldable pub upload_document :
    Request → ℕ → List Text → Option Text → Option Text → Service → Result IntakeResult × Service
unfolding file_upload after_limit
upload_document q workspace pieces filename content_type s =
    in_workspace q (workspace_context s.tables q.user workspace)
      (file_upload q pieces filename content_type) s

-- The upload of `ingest_url`, from what is fetched.
abbrev pub fetched_upload : Request → Option Text → WorkspaceContext → FetchedResource → Upload
fetched_upload q title ctx fetched = record {
  workspace_id = ctx.workspace.id;
  uploaded_by = ctx.user.id;
  bytes = fetched.content;
  filename = none;
  source_type = some (
      if text_eq fetched.content_type (codes "application/pdf")
      then SourceType.pdf
      else SourceType.url);
  source_uri = some fetched.url;
  title = some (given_or title fetched.url);
  mime_type = some fetched.content_type;
  document_id = q.document_id;
  job_id = q.job_id;
}

abbrev pub page_upload :
    Request → Option Text → WorkspaceContext → Result FetchedResource → Result Upload
page_upload q title ctx (err e) = err e
page_upload q title ctx (ok fetched) = ok (fetched_upload q title ctx fetched)

unfoldable pub ingest_url :
    Request → ℕ → Text → Option Text → Service → Result IntakeResult × Service
unfolding after_limit
ingest_url q workspace url title s =
    in_workspace q (workspace_context s.tables q.user workspace)
      (λ ctx. page_upload q title ctx (fetch q.platform.unicode q.net url).0) s

abbrev pub needs_admin : Role → String → Result (Unit {0})
needs_admin role what =
    if satisfies role Role.admin then ok tt else err (plain Kind.authorization what)

abbrev reprocess_loaded :
    Request → Document → Result (Unit {0}) → Service → Result Document × Service
reprocess_loaded q d (err e) s = (err e, s)
reprocess_loaded q d (ok _) s = elim q.platform.push [
  | err e ↦ (err e, s)
  | ok _ ↦ (ok (pending_again d), with_store (requeue_document q.job_id d (store_of s)) s)
]

abbrev reprocess_found : Request → Result (Document × Role) → Service → Result Document × Service
reprocess_found q (err e) s = (err e, s)
reprocess_found q (ok (d, role)) s =
    reprocess_loaded q d (needs_admin role "Requires ADMIN role to reprocess a document.") s

-- `reprocess`
unfoldable reprocess : Request → ℕ → Service → Result Document × Service
unfolding load_document requeue_document satisfies
reprocess q document s = reprocess_found q (load_document s.tables q.user document) s

-- The rows that a deleted document leaves; its chunks and its jobs go with it in the database.
abbrev pub other_documents : ℕ → List Document → List Document
other_documents id [] = []
other_documents id (d ∷ ds) =
    if d.id == id then other_documents id ds else d ∷ other_documents id ds

abbrev pub other_jobs : ℕ → List IngestionJob → List IngestionJob
other_jobs id [] = []
other_jobs id (j ∷ js) = if j.document_id == id then other_jobs id js else j ∷ other_jobs id js

abbrev pub other_chunks : ℕ → List Chunk → List Chunk
other_chunks id [] = []
other_chunks id (c ∷ cs) =
    if c.document_id == id then other_chunks id cs else c ∷ other_chunks id cs

abbrev pub other_vectors : ℕ → List ℕ → List ℕ
other_vectors id [] = []
other_vectors id (v ∷ vs) = if v == id then other_vectors id vs else v ∷ other_vectors id vs

-- `delete_document` of services/ingestion_pipeline.py and the commit, once the vector store has
-- answered: the vectors go first.
unfoldable pub remove_rows : Result (Unit {0}) → ℕ → Service → Result (Unit {0}) × Service
remove_rows (err e) id s = (err e, s)
remove_rows (ok _) id s = (
  ok tt,
  record s {
    tables = record s.tables { documents = other_documents id s.tables.documents };
    jobs = other_jobs id s.jobs;
    chunks = other_chunks id s.chunks;
    vectors = other_vectors id s.vectors;
  },
)

abbrev pub delete_loaded :
    Request → Document → Result (Unit {0}) → Service → Result (Unit {0}) × Service
delete_loaded q d (err e) s = (err e, s)
delete_loaded q d (ok _) s = remove_rows q.delete_vectors d.id s

abbrev pub delete_found : Request → Result (Document × Role) → Service → Result (Unit {0}) × Service
delete_found q (err e) s = (err e, s)
delete_found q (ok (d, role)) s =
    delete_loaded q d (needs_admin role "Requires ADMIN role to delete a document.") s

-- `delete_document`
unfoldable pub delete_document : Request → ℕ → Service → Result (Unit {0}) × Service
unfolding load_document remove_rows satisfies
delete_document q document s = delete_found q (load_document s.tables q.user document) s

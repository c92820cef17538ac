-- ===== src/Tests/Services.antt =====
-- Runs of api/v1/documents.py.

use knowledgeos.Fetching.{fetch}
use knowledgeos.Tests.Turns.{document, chunk}
use knowledgeos.Tests.Members.{user, tables}
use knowledgeos.Tests.Uploads.{net, platform, link}
use knowledgeos.Intake.{IntakeResult}
use knowledgeos.Prelude.{◌≡◌, ◌⊎◌, true, none, [], ◌∷◌}
use knowledgeos.Errors.{AppError, ok, err}
use knowledgeos.Access.Laws.{IsMember}
use knowledgeos.Documents.{page_upload, ingest_url, delete_document, Service, Request}
use knowledgeos.Documents.Authorized.{IsLeftover, ComesFrom, ingest_url-UploadEnd, IsTaken}
use knowledgeos.Documents.Removed.{delete_document-DeleteEnd, DeleteEnd}

abbrev request : Request
request = record {
  platform = platform;
  net = net;
  user = user;
  now_ms = 5;
  redis_up = true;
  uploads_per_minute = 3;
  document_id = 2;
  job_id = 3;
  delete_vectors = ok tt;
}

-- The workspace of the document is one where the user is an admin.
abbrev service : Service
service = record {
  tables = record tables { documents = record document { workspace_id = 10 } ∷ [] };
  jobs = [];
  keys = [];
  queue = record { pending = []; processing = []; heartbeat = [] };
  chunks = chunk ∷ [];
  vectors = 1 ∷ 1 ∷ 6 ∷ [];
  uploads = [];
}

ingest_url-UploadEnd_example :
    ((e : AppError) × ((ingest_url request 10 link none service).0 ≡ err e)
      × IsLeftover request e service (ingest_url request 10 link none service).1)
    ⊎ ((r : IntakeResult) × (taken : IsTaken request 10
          (λ ctx. page_upload request none ctx (fetch request.platform.unicode request.net link).0)
          service
          r
          (ingest_url request 10 link none service).1)
        × ((ingest_url request 10 link none service).0 ≡ ok r)
        × (taken.upload.workspace_id ≡ 10)
        × IsMember service.tables taken.context.workspace.org_id request.user.id taken.context.role
        × ComesFrom request link taken.upload)
ingest_url-UploadEnd_example = ingest_url-UploadEnd request 10 link none service

delete_document-DeleteEnd_example : DeleteEnd request 1 service (delete_document request 1 service)
delete_document-DeleteEnd_example = delete_document-DeleteEnd request service 1

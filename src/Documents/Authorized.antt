-- ===== src/Documents/Authorized.antt =====
-- api/v1/documents.py: who may change documents, and where the bytes of a fetched page come from.

use knowledgeos.Prelude.{
  ℕ, ◌≤◌, ◌≡◌, refl, Option, List, [], ◌∷◌, ◌++◌, arith, leb, ◌⊎◌, some, sym, ap, ◌∙◌, inl, inr,
}
use knowledgeos.Text.{Text}
use knowledgeos.Errors.{passed, AppError, Result, ok, err}
use knowledgeos.Access.{rank, satisfies, workspace_context, require, Role, WorkspaceContext}
use knowledgeos.Limits.{check_rate_limit}
use knowledgeos.Intake.{intake_bytes, Store, Upload, IntakeResult, place}
use knowledgeos.Intake.Raised.{LeftIfRaised, intake_bytes-LeftIfRaised}
use knowledgeos.Fetching.{fetch, FetchedResource}
use knowledgeos.Fetching.Vetted.{IsDelivered, fetch-delivers}
use knowledgeos.Access.Laws.{IsMember, workspace_context-IsMember}
use knowledgeos.Documents.{
  store_of, stored, take_in, after_limit, with_role, in_workspace, file_upload, upload_document,
  Service, Request, with_store, page_upload, ingest_url, fetched_upload,
}

-- What a refused call leaves: the service as it was but for the limiter's times, and where the
-- queue has raised this error, for a key that the storage has taken.
abbrev pub IsLeftover : Request → AppError → Service → Service → Type 0
IsLeftover q e s t =
    (t ≡ record s { uploads = t.uploads })
    ⊎ ((q.platform.put ≡ ok tt)
        × (q.platform.push ≡ err e)
        × ((key : Text) × (t ≡ record s { uploads = t.uploads; keys = s.keys ++ key ∷ [] })))

-- What an upload that was taken went through: its caller is a member of the workspace with a role of
-- MEMBER or above, the limiter let it pass, and what `intake_bytes` made of the upload is committed.
pub record IsTaken (q : Request) (workspace : ℕ) (make : WorkspaceContext → Result Upload)
    (s : Service) (r : IntakeResult) (t : Service) : Type 0 where
  pub context : WorkspaceContext
  pub reached : workspace_context s.tables q.user workspace ≡ ok context
  pub high_enough : rank Role.member ≤ rank context.role
  pub passed_limit :
      (check_rate_limit q.redis_up q.uploads_per_minute 60 q.now_ms s.uploads).0 ≡ ok tt
  pub upload : Upload
  pub made : make context ≡ ok upload
  pub after : Store
  pub taken : intake_bytes q.platform upload (store_of s) ≡ (ok r, after)
  pub committed : t ≡ with_store after (record s { uploads = t.uploads })

-- How an upload ends: refused, with what that leaves, or taken.
pub data UploadEnd (q : Request) (workspace : ℕ) (make : WorkspaceContext → Result Upload)
    (s : Service) (out : Result IntakeResult × Service) : Type 0 where
  refused :
      (e : AppError) → out.0 ≡ err e → IsLeftover q e s out.1 → UploadEnd q workspace make s out
  taken_in :
      (r : IntakeResult)
      → out.0 ≡ ok r
      → IsTaken q workspace make s r out.1
      → UploadEnd q workspace make s out

module _ (q : Request) (workspace : ℕ) (make : WorkspaceContext → Result Upload) (s : Service) where
  module _ (ctx : WorkspaceContext) (reached : workspace_context s.tables q.user workspace ≡ ok ctx)
      (high_enough : rank Role.member ≤ rank ctx.role) where
    stored-UploadEnd :
        (times : List ℕ) (up : Upload) (o : Result IntakeResult × Store)
        → LeftIfRaised q.platform up (store_of s) o
        → (check_rate_limit q.redis_up q.uploads_per_minute 60 q.now_ms s.uploads).0 ≡ ok tt
        → make ctx ≡ ok up
        → intake_bytes q.platform up (store_of s) ≡ o
        → UploadEnd q workspace make s (stored o (record s { uploads = times }))
    stored-UploadEnd times up (err e, t) left limit made h = refused e refl (elim left [
      | inl same ↦ inl (ap (λ x. with_store x (record s { uploads = times })) same)
      | inr (put, push, more) ↦
          inr (put, push, (_, ap (λ x. with_store x (record s { uploads = times })) more))
    ])
    stored-UploadEnd times up (ok r, t) left limit made h = taken_in r refl (record {
      context = ctx;
      reached = reached;
      high_enough = high_enough;
      passed_limit = limit;
      upload = up;
      made = made;
      after = t;
      taken = h;
      committed = refl;
    })

    take_in-UploadEnd :
        (times : List ℕ) (o : Result Upload)
        → (check_rate_limit q.redis_up q.uploads_per_minute 60 q.now_ms s.uploads).0 ≡ ok tt
        → make ctx ≡ o
        → UploadEnd q workspace make s (take_in q.platform o (record s { uploads = times }))
    unfolding take_in
    take_in-UploadEnd times (err e) limit made = refused e refl (inl refl)
    take_in-UploadEnd times (ok up) limit made =
        stored-UploadEnd times up (intake_bytes q.platform up (store_of s))
          (intake_bytes-LeftIfRaised q.platform up (store_of s)) limit made refl

    after_limit-UploadEnd :
        (answer : Result (Unit {0}) × List ℕ) (o : Result Upload)
        → (check_rate_limit q.redis_up q.uploads_per_minute 60 q.now_ms s.uploads).0 ≡ answer.0
        → make ctx ≡ o
        → UploadEnd q workspace make s (after_limit q.platform answer o s)
    unfolding after_limit
    after_limit-UploadEnd (err e, times) o limit made = refused e refl (inl refl)
    after_limit-UploadEnd (ok _, times) o limit made = take_in-UploadEnd times o limit made

  with_role-UploadEnd :
      (ctx : WorkspaceContext) (v : Result (Unit {0}))
      → workspace_context s.tables q.user workspace ≡ ok ctx
      → require ctx Role.member ≡ v
      → UploadEnd q workspace make s (with_role q v (make ctx) s)
  unfolding require satisfies
  with_role-UploadEnd ctx (err e) reached role = refused e refl (inl refl)
  with_role-UploadEnd ctx (ok _) reached role =
      let allowed = (passed (leb (rank Role.member) (rank ctx.role)) (ok tt) _ tt role).0 in
      after_limit-UploadEnd ctx reached (ground (arith, allowed))
        (check_rate_limit q.redis_up q.uploads_per_minute 60 q.now_ms s.uploads) (make ctx) refl
        refl

  in_workspace-UploadEnd :
      (o : Result WorkspaceContext)
      → workspace_context s.tables q.user workspace ≡ o
      → UploadEnd q workspace make s (in_workspace q o make s)
  in_workspace-UploadEnd (err e) reached = refused e refl (inl refl)
  in_workspace-UploadEnd (ok ctx) reached =
      with_role-UploadEnd ctx (require ctx Role.member) reached refl

-- Where the bytes of an upload by URL come from: a response to a URL that was vetted.
abbrev pub ComesFrom : Request → Text → Upload → Type 0
ComesFrom q url up =
    (f : FetchedResource) × ((fetch q.platform.unicode q.net url).0 ≡ ok f)
    × IsDelivered q.net q.platform.unicode f
    × (up.bytes ≡ f.content)
    × (up.source_uri ≡ some f.url)

module _ (q : Request) (workspace : ℕ) (url : Text) (title : Option Text) (s : Service) where
  page_upload-ComesFrom :
      (ctx : WorkspaceContext) (o : Result FetchedResource) (up : Upload)
      → (fetch q.platform.unicode q.net url).0 ≡ o
      → page_upload q title ctx o ≡ ok up
      → ComesFrom q url up × (up.workspace_id ≡ ctx.workspace.id)
  page_upload-ComesFrom ctx (err e) up got made = cc made
  page_upload-ComesFrom ctx (ok f) up got made =
      let same : fetched_upload q title ctx f ≡ up = cc made in
      (
        (
          f,
          got,
          fetch-delivers q.net q.platform.unicode url f got,
          ap (λ (x : Upload). x.bytes) (sym same),
          ap (λ (x : Upload). x.source_uri) (sym same),
        ),
        ap (λ (x : Upload). x.workspace_id) (sym same),
      )

  -- `ingest_url` ends in one of two ways. It refuses, and every row, stored key and job is as it was,
  -- but that a key may be left which the storage took before the queue raised the error answered.
  -- Or the caller is a member, with a role of MEMBER or above, of the organization of the workspace asked
  -- for, the limiter let the call pass, and what is committed is the upload of the content of a response
  -- to a vetted URL.
  pub ingest_url-UploadEnd :
      ((e : AppError) × ((ingest_url q workspace url title s).0 ≡ err e)
        × IsLeftover q e s (ingest_url q workspace url title s).1)
      ⊎ ((r : IntakeResult) × (taken : IsTaken q workspace
            (λ ctx. page_upload q title ctx (fetch q.platform.unicode q.net url).0)
            s
            r
            (ingest_url q workspace url title s).1)
          × ((ingest_url q workspace url title s).0 ≡ ok r)
          × (taken.upload.workspace_id ≡ workspace)
          × IsMember s.tables taken.context.workspace.org_id q.user.id taken.context.role
          × ComesFrom q url taken.upload)
  unfolding ingest_url
  ingest_url-UploadEnd =
      let make = λ (ctx : WorkspaceContext).
        page_upload q title ctx (fetch q.platform.unicode q.net url).0 in
      elim (in_workspace-UploadEnd q workspace make s (workspace_context s.tables q.user workspace)
        refl) [
          | refused e failed same ↦ inl (e, failed, same)
          | taken_in r returned_it taken ↦
              let (origin, place) =
                page_upload-ComesFrom taken.context (fetch q.platform.unicode q.net url).0
                  taken.upload refl taken.made in
              let (who, id, row, member) =
                workspace_context-IsMember s.tables q.user workspace taken.context taken.reached in
              inr (r, taken, returned_it, place ∙ id, member, origin)
        ]

-- `upload_document` ends in one of two ways. It refuses, and every row, stored key and job is as it
-- was, but for a key that the storage took before the queue raised; or its caller is a member of the workspace with a role of MEMBER or above, the limiter let the
-- call pass, and the upload of the bytes that were read is committed.
upload_document-UploadEnd :
    (q : Request) (workspace : ℕ) (pieces : List Text) (filename content_type : Option Text)
    (s : Service)
    → UploadEnd q workspace
        (file_upload q pieces filename content_type)
        s
        (upload_document q workspace pieces filename content_type s)
unfolding upload_document
upload_document-UploadEnd q workspace pieces filename content_type s =
    in_workspace-UploadEnd q workspace (file_upload q pieces filename content_type) s _ refl

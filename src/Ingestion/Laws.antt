-- ===== src/Ingestion/Laws.antt =====
-- What `process_document` of services/ingestion_pipeline.py leaves committed, on every branch.
use mathlib.Core.Option.{some-injective}
use knowledgeos.Prelude.{ℕ, ◌≡◌, refl, sym, ap, ◌∙◌, subst, Option, none, some, take}
use knowledgeos.Text.{Text}
use knowledgeos.Content.{Document, DocumentStatus, find_document}
use knowledgeos.Ingestion.{
  processing, failed_job, finished_job, running_job, Attempt, returned, raised, Session,
  IngestionResult, Providers, set_document, set_job_if, commit, failed_document, on_document,
  settle, process_document,
}
use knowledgeos.Ingestion.Run.{
  find-set_document, set_job_if-documents, IsIndexed, RunEnd, run_failed, run_done, run-RunEnd,
}
use knowledgeos.Ingestion.Counted.{own_chunks}

module _ {Vector : Type 0} where
  -- How `process_document` ends, by what it returns and what is committed.
  pub data Settled (id : ℕ) (out : Attempt IngestionResult × Session Vector) : Type 0 where
    settled_ready :
        (r : IngestionResult) (d : Document)
        → out.0 ≡ returned r
        → find_document id out.1.committed.documents ≡ some d
        → d.status ≡ DocumentStatus.ready
        → d.chunk_count ≡ own_chunks id out.1.committed.chunks
        → d.chunk_count ≡ r.chunks
        → IsIndexed id out.1.committed.chunks out.1.vectors
        → Settled id out
    settled_failed :
        (m : Text) (d : Document)
        → out.0 ≡ raised m
        → find_document id out.1.committed.documents ≡ some d
        → d.status ≡ DocumentStatus.failed
        → d.error_message ≡ some (take 2000 m)
        → Settled id out

  module _ (providers : Providers Vector) where
    settle-Settled :
        (document : Document) (job : Option ℕ) (out : Attempt IngestionResult × Session Vector)
        → RunEnd providers document out
        → Settled document.id (settle providers document.id job out)
    unfolding settle on_document
    settle-Settled document job (raised m, s) (run_failed m' e (d, found)) =
        let w = record s.committed {
          documents = set_document document.id (failed_document m) s.committed.documents;
        } in
        settled_failed m (failed_document m d) refl
          (ap (find_document document.id)
              (set_job_if-documents job (failed_job providers.finished m) w).0
            ∙ find-set_document document.id (failed_document m) s.committed.documents d (λ y. refl)
                found)
          refl refl
    settle-Settled document job (raised m, s) (run_done r d e found st n own ix) = cc
    settle-Settled document job (returned r, s) (run_failed m e h) = cc
    settle-Settled document job (returned r, s) (run_done r' d e found st n own ix) =
        let same = set_job_if-documents job (finished_job providers.finished) s.working in
        settled_ready r' d e (ap (find_document document.id) same.0 ∙ found) st
          (n ∙ sym own ∙ ap (own_chunks document.id) (sym same.1)) n
          (subst (λ cs. IsIndexed document.id cs s.vectors) (sym same.1) ix)

    found-Settled :
        (id : ℕ) (o : Option Document) (d : Document)
        (missing : Attempt IngestionResult × Session Vector)
        (go : Document → Attempt IngestionResult × Session Vector)
        → o ≡ some d
        → Settled id (go d)
        → Settled id (elim o [ none ↦ missing | some x ↦ go x ])
    found-Settled id none d missing go e h = cc
    found-Settled id (some x) d missing go e h =
        subst (λ y. Settled id (go y)) (sym (some-injective x d e)) h

    -- Whatever the providers do, processing a stored document ends in one of two ways. It returns, and
    -- the committed document is ready, its chunk count is the number of its committed chunks and the
    -- number returned, and each of these chunks has a vector in the store. Or it raises, and the committed document is failed with the message.
    pub process_document-Settled :
        (document : Document) (job : Option ℕ) (s : Session Vector)
        → find_document document.id s.working.documents ≡ some document
        → Settled document.id (process_document providers document.id job s)
    unfolding process_document on_document
    process_document-Settled document job s found =
        let w = record s.working {
          documents = set_document document.id processing s.working.documents;
        } in
        let w' = set_job_if job (running_job providers.started) w in
        let there : (d : Document) × (find_document document.id w'.documents ≡ some d) = (
          processing document,
          ap (find_document document.id)
                (set_job_if-documents job (running_job providers.started) w).0
              ∙ find-set_document document.id processing s.working.documents document (λ y. refl)
                  found,
        ) in
        found-Settled document.id (find_document document.id s.working.documents) document _ _ found
          (settle-Settled (processing document) job _ (
            run-RunEnd providers (processing document) (commit (record s { working = w' }))
              (there, there)))

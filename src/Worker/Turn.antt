-- ===== src/Worker/Turn.antt =====
-- worker.py: what a turn of `consume_forever` leaves of a job that the guard lets pass.
use knowledgeos.Prelude.{
  ◌+◌, ◌≤◌, ◌<◌, ◌≡◌, refl, inl, inr, Option, some, arith, ltb, Bool-cases, ℕ, sym, subst, false,
  none, List, [], ◌∷◌, leb, if◌then◌else◌,
}
use knowledgeos.Content.{find_document, DocumentStatus, Document, IngestionJob}
use knowledgeos.Ingestion.{
  Attempt, Session, IngestionResult, Providers, returned, raised, process_document,
}
use knowledgeos.Ingestion.Laws.{Settled, settled_ready, settled_failed, process_document-Settled}
use knowledgeos.Queue.{acknowledge, requeue, IngestJob, Raw, Queue}
use knowledgeos.Worker.{
  max_attempts, find_job, fresh_session, conclude, attempt_job, guarded, handle, Worker, abandon,
}

-- A job row, if there is one, has attempts left.
abbrev pub HasAttemptsLeft : Option IngestionJob → Type 0
HasAttemptsLeft none = Unit
HasAttemptsLeft (some j) = j.attempts < max_attempts

find_document-id :
    (id : ℕ) (ds : List Document) (d : Document) → find_document id ds ≡ some d → d.id ≡ id
unfolding find_document
find_document-id id [] d e = cc e
find_document-id id (x ∷ ds) d e = ground (arith, find_document-id id ds d)

module _ {Vector : Type 0} (job : IngestJob) (raw : Raw) (q : Queue) where
  -- How an attempt ends, by the committed document and the queue.
  pub data Concluded (w : Worker Vector) : Type 0 where
    succeeded :
        (d : Document)
        → find_document job.document_id w.session.committed.documents ≡ some d
        → d.status ≡ DocumentStatus.ready
        → w.queue ≡ acknowledge raw q
        → Concluded w
    tried_again :
        (d : Document)
        → find_document job.document_id w.session.committed.documents ≡ some d
        → d.status ≡ DocumentStatus.failed
        → job.attempt + 1 < max_attempts
        → w.queue ≡ requeue raw job q
        → Concluded w
    exhausted :
        (d : Document)
        → find_document job.document_id w.session.committed.documents ≡ some d
        → d.status ≡ DocumentStatus.failed
        → max_attempts ≤ job.attempt + 1
        → w.queue ≡ acknowledge raw q
        → Concluded w

  conclude-Concluded :
      (out : Attempt IngestionResult × Session Vector)
      → Settled job.document_id out
      → Concluded (conclude job raw out q)
  unfolding conclude
  conclude-Concluded (returned r, s) (settled_ready r' d e found status own chunks ix) =
      succeeded d found status refl
  conclude-Concluded (raised m, s) (settled_ready r' d e found status own chunks ix) = cc e
  conclude-Concluded (returned r, s) (settled_failed m d e found status message) = cc e
  conclude-Concluded (raised m, s) (settled_failed m' d e found status message) =
      elim (Bool-cases (ltb (job.attempt + 1) max_attempts)) [
        | inl few ↦ tried_again d found status (ground (arith, few)) (rw few refl)
        | inr many ↦ exhausted d found status (ground (arith, many)) (rw many refl)
      ]

  module _ (providers : Providers Vector) where
    attempt_job-Concluded :
        (s : Session Vector) (document : Document)
        → find_document job.document_id s.working.documents ≡ some document
        → Concluded (attempt_job providers job raw s q)
    unfolding attempt_job
    attempt_job-Concluded s document stored =
        let key = find_document-id job.document_id s.working.documents document stored in
        conclude-Concluded (process_document providers job.document_id (some job.job_id) s) (
          subst (λ id. Settled id (process_document providers id (some job.job_id) s)) key
            (process_document-Settled providers document (some job.job_id) s (
              subst (λ id. find_document id s.working.documents ≡ some document) (sym key) stored)))

    guarded-Concluded :
        (o : Option IngestionJob) (s : Session Vector) (document : Document)
        → find_document job.document_id s.working.documents ≡ some document
        → HasAttemptsLeft o
        → Concluded (guarded providers job raw o s q)
    unfolding guarded
    guarded-Concluded none s document stored few = attempt_job-Concluded s document stored
    guarded-Concluded (some j) s document stored few =
        let passed : false ≡ leb max_attempts j.attempts = ground (arith, few) in
        subst
          (λ b. Concluded (if b then abandon job raw j s q else attempt_job providers job raw s q))
          passed (attempt_job-Concluded s document stored)

    -- A turn on a job whose row, if it is there, has attempts left and whose document is there ends in
    -- one of three ways. The document is ready and the queue lets the job go; or it is failed, and the
    -- next attempt is queued while the payload has attempts left; or it is failed, this was the last
    -- attempt of the payload, and the queue lets the job go.
    pub handle-Concluded :
        (w : Worker Vector) (document : Document)
        → find_document job.document_id w.session.committed.documents ≡ some document
        → HasAttemptsLeft (find_job job.job_id w.session.committed.jobs)
        → Concluded (handle providers job raw (record w { queue = q }))
    unfolding handle
    handle-Concluded w document stored few =
        guarded-Concluded (find_job job.job_id w.session.committed.jobs) (fresh_session w.session)
          document stored few

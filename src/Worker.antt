-- ===== src/Worker.antt =====
-- worker.py: what `consume_forever` does with a claimed job, over the session of the worker and the
-- queue. `process_document` is the one of the ingestion. The queue's calls and the commit are taken
-- to return; the sleep of the backoff is left out.
pub mod Poison
pub mod Turn
use knowledgeos.Retrieval.Query.{codes}
use knowledgeos.Prelude.{
  ℕ, ◌+◌, Option, none, some, List, [], ◌∷◌, ◌++◌, ltb, leb, ◌==◌, if◌then◌else◌,
}
use knowledgeos.Text.{Text, show_number}
use knowledgeos.Content.{DocumentStatus, JobStatus, Document, IngestionJob}
use knowledgeos.Ingestion.{
  set_document, set_job, set_job_if, commit, run, processing, running_job, on_document,
  process_document, Attempt, World, Session, IngestionResult, Providers, returned, raised,
}
use knowledgeos.Queue.{acknowledge, requeue, IngestJob, Raw, Queue}

abbrev pub max_attempts : ℕ
max_attempts = 3

-- `db.get(IngestionJob, id)`
unfoldable pub find_job : ℕ → List IngestionJob → Option IngestionJob
find_job id [] = none
find_job id (j ∷ js) = if j.id == id then some j else find_job id js

-- The message for a document that is given up, for a number of attempts.
abbrev poison_message : ℕ → Text
poison_message attempts =
    codes "Processing failed "
    ++ (show_number attempts
        ++ codes
            " times without completing. The document is most likely too large for this instance's memory. Try a smaller file, or run the full stack where the worker has its own process.")

abbrev pub poisoned_document : ℕ → Document → Document
poisoned_document attempts d = record d {
  status = DocumentStatus.failed;
  error_message = some (poison_message attempts);
}

abbrev pub poisoned_job : IngestionJob → IngestionJob
poisoned_job j = record j {
  status = JobStatus.failed;
  last_error = some (codes "worker terminated repeatedly (suspected resource exhaustion)");
}

pub record Worker (Vector : Type 0) : Type 0 where
  pub session : Session Vector
  pub queue : Queue

module _ {Vector : Type 0} where
  -- `SessionLocal()`: a new session begins at what is committed.
  abbrev pub fresh_session : Session Vector → Session Vector
  fresh_session s = record s { working = s.committed }

  -- The poison-pill guard, on a job row whose attempts are used up.
  unfoldable pub abandon : IngestJob → Raw → IngestionJob → Session Vector → Queue → Worker Vector
  unfolding set_document set_job acknowledge
  abandon job raw persisted s q = record {
    session = commit (record s {
      working = record s.working {
        documents =
            set_document job.document_id (poisoned_document persisted.attempts) s.working.documents;
        jobs = set_job job.job_id poisoned_job s.working.jobs;
      };
    });
    queue = acknowledge raw q;
  }

  -- The end of an attempt: done, to be tried again, or given up.
  unfoldable pub conclude :
      IngestJob → Raw → Attempt IngestionResult × Session Vector → Queue → Worker Vector
  unfolding acknowledge requeue
  conclude job raw (returned result, s) q = record { session = s; queue = acknowledge raw q }
  conclude job raw (raised message, s) q = record {
    session = s;
    queue = if ltb (job.attempt + 1) max_attempts then requeue raw job q else acknowledge raw q;
  }

  module _ (providers : Providers Vector) where
    unfoldable pub attempt_job : IngestJob → Raw → Session Vector → Queue → Worker Vector
    unfolding conclude process_document
    attempt_job job raw s q =
        conclude job raw (process_document providers job.document_id (some job.job_id) s) q

    unfoldable pub guarded :
        IngestJob → Raw → Option IngestionJob → Session Vector → Queue → Worker Vector
    unfolding abandon attempt_job
    guarded job raw none s q = attempt_job job raw s q
    guarded job raw (some persisted) s q =
        if leb max_attempts persisted.attempts
        then abandon job raw persisted s q
        else attempt_job job raw s q

    -- A turn of the loop, once a job is claimed.
    unfoldable pub handle : IngestJob → Raw → Worker Vector → Worker Vector
    unfolding guarded find_job
    handle job raw w =
        guarded job raw (find_job job.job_id w.session.committed.jobs) (fresh_session w.session)
          w.queue

    -- What `process_document` commits before the work, which a death of the worker leaves.
    unfoldable pub begun : IngestJob → Session Vector → World
    unfolding set_job_if on_document
    begun job s =
        set_job_if (some job.job_id) (running_job providers.started)
          (on_document providers job.document_id processing s.committed)

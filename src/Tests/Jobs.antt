-- ===== src/Tests/Jobs.antt =====
-- Runs of services/queue.py and worker.py.
use knowledgeos.Prelude.{ℕ, ◌+◌, ◌≤◌, ◌<◌, ◌≡◌, refl, ◌⊎◌, none, some, List, [], ◌∷◌, arith}
use knowledgeos.Content.{find_document, JobStatus, IngestionJob}
use knowledgeos.Ingestion.{set_document, set_job_if, processing, on_document, World, Session}
use knowledgeos.Queue.{
  hget, brpoplpush, beat, enqueue, take_back, reap_orphans, alone, IngestJob, Queue, encoded,
}
use knowledgeos.Queue.Kept.{
  count, held, apply_ops, puts, gives_up, total, apply_ops-Kept, Op, enqueued, moved_over, beaten,
  taken_back, acknowledged, doubled,
}
use knowledgeos.Queue.Fifo.{
  run_calls, spec_calls, oldest_first, run_calls-Refines, Call, put, take_one, done, again,
}
use knowledgeos.Queue.Reaped.{reap_orphans_claimed}
use knowledgeos.Worker.{max_attempts, find_job, handle, begun}
use knowledgeos.Worker.Poison.{handle_after-Deaths, Deaths, IsAbandoned, no_death, one_more}
use knowledgeos.Worker.Turn.{HasAttemptsLeft, handle-Concluded, Concluded}
use knowledgeos.Tests.Turns.{document, providers}

abbrev job : IngestJob
job = record { document_id = 1; job_id = 3; attempt = 0 }

abbrev later_job : IngestJob
later_job = record { document_id = 2; job_id = 4; attempt = 0 }

abbrev waiting : Queue
waiting = record { pending = encoded later_job ∷ encoded job ∷ []; processing = []; heartbeat = [] }

abbrev steps : List Op
steps =
    enqueued job
    ∷ moved_over
    ∷ beaten 5 (encoded job)
    ∷ taken_back (encoded job)
    ∷ taken_back (encoded job)
    ∷ acknowledged (encoded job)
    ∷ []

apply_ops-Kept_example :
    (held (encoded job) (apply_ops steps waiting)
      ≤ held (encoded job) waiting + total (puts job) steps + doubled job steps waiting)
    × (held (encoded job) waiting + total (puts job) steps + doubled job steps waiting
        ≤ held (encoded job) (apply_ops steps waiting) + total (gives_up job) steps)
apply_ops-Kept_example = apply_ops-Kept steps job waiting

-- Two reapers that have read the job take it back one after the other: the queue holds it once more.
two_reapers : doubled job steps waiting ≡ 1
unfolding doubled beat brpoplpush enqueue take_back
two_reapers = refl

abbrev calls : List Call
calls =
    put job
    ∷ take_one 1
    ∷ take_one 2
    ∷ done (encoded job)
    ∷ again (encoded later_job) later_job
    ∷ take_one 3
    ∷ []

run_calls-Refines_example :
    run_calls calls waiting ≡ spec_calls calls (oldest_first waiting.pending)
run_calls-Refines_example = run_calls-Refines calls waiting

abbrev claimed_queue : Queue
claimed_queue = record {
  pending = encoded later_job ∷ [];
  processing = encoded job ∷ [];
  heartbeat = [];
}

moved_job : brpoplpush waiting ≡ (some (encoded job), claimed_queue)
unfolding brpoplpush
moved_job = refl

no_beat : hget (encoded job) waiting.heartbeat ≡ none
unfolding hget
no_beat = refl

reap_orphans_claimed_example :
    let reaped = (reap_orphans alone 100 claimed_queue).1 in
    (1 ≤ count (encoded job) reaped.pending)
    × (count (encoded job) reaped.processing ≡ 0)
    × ((beat 101 (some (encoded job), reaped)).0 ≡ some (job, encoded job))
reap_orphans_claimed_example =
    reap_orphans_claimed 100 101 job waiting claimed_queue moved_job no_beat

abbrev job_row : ℕ → IngestionJob
job_row attempts = record {
  id = 3;
  document_id = 1;
  status = JobStatus.queued;
  attempts = attempts;
  last_error = none;
  started_at = none;
  finished_at = none;
}

abbrev world : ℕ → World
world attempts = record { documents = document ∷ []; chunks = []; jobs = job_row attempts ∷ [] }

abbrev session : ℕ → Session ℕ
session attempts = record { committed = world attempts; working = world attempts; vectors = [] }

stored : find_document 1 (document ∷ []) ≡ some document
unfolding find_document
stored = refl

row : (attempts : ℕ) → find_job 3 (job_row attempts ∷ []) ≡ some (job_row attempts)
unfolding find_job
row attempts = refl

few_attempts : HasAttemptsLeft (find_job 3 (job_row 1 ∷ []))
unfolding find_job
few_attempts = omega arith

handle-Concluded_example :
    Concluded job
      (encoded job)
      claimed_queue
      (handle providers job (encoded job) (record { session = session 1; queue = claimed_queue }))
handle-Concluded_example =
    handle-Concluded job (encoded job) claimed_queue providers
      (record { session = session 1; queue = waiting }) document stored few_attempts

-- A death in the third attempt.
abbrev dead : Session ℕ
dead = record (session 2) { committed = begun providers job (session 2) }

one_death : Deaths providers job (session 2) 1 dead
one_death = one_more 0 (session 2) dead (job_row 2) no_death (row 2) refl refl

still_stored : find_document 1 dead.committed.documents ≡ some (processing document)
unfolding begun find_document on_document set_document set_job_if
still_stored = refl

handle_after-Deaths_example :
    (2 + 1 ≤ max_attempts)
    × ((2 + 1 < max_attempts)
        ⊎ IsAbandoned providers job
            (encoded job)
            claimed_queue
            (handle providers job (encoded job) (record { session = dead; queue = claimed_queue })))
handle_after-Deaths_example =
    handle_after-Deaths providers job (encoded job) (session 2) dead claimed_queue
      (processing document) 1 2 one_death (job_row 2, row 2, refl) (omega arith) still_stored

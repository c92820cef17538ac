-- ===== src/Worker/Poison.antt =====
-- worker.py: how often a job that kills its worker is begun, and what becomes of it then; and what a
-- turn of the loop leaves where the worker lives.
use mathlib.Core.Option.{some-injective}
use knowledgeos.Prelude.{
  ℕ, ◌+◌, ◌≡◌, refl, ap, ◌∙◌, false, some, List, [], ◌∷◌, arith, leb, ◌≤◌, sym, Option, none, subst,
  if◌then◌else◌, true, ◌<◌, ◌⊎◌, inl, inr,
}
use knowledgeos.Content.{IngestionJob, JobStatus, find_document, DocumentStatus, Document}
use knowledgeos.Ingestion.{set_job, set_job_if, running_job, on_document, Session, Providers}
use knowledgeos.Ingestion.Run.{find-set_document}
use knowledgeos.Queue.{IngestJob, Queue, acknowledge, Raw}
use knowledgeos.Worker.{
  max_attempts, find_job, begun, Worker, abandon, guarded, poisoned_document, poisoned_job,
  fresh_session, attempt_job, handle,
}

find-set_job :
    (id : ℕ) (f : IngestionJob → IngestionJob) (js : List IngestionJob) (j : IngestionJob)
    → ((x : IngestionJob) → (f x).id ≡ x.id)
    → find_job id js ≡ some j
    → find_job id (set_job id f js) ≡ some (f j)
unfolding find_job set_job
find-set_job id f [] j keeps h = cc h
find-set_job id f (x ∷ js) j keeps h = ground (arith, keeps x, find-set_job id f js j keeps)

-- The attempts of a job that are committed.
abbrev HasAttempts : {Vector : Type 0} → ℕ → ℕ → Session Vector → Type 0
HasAttempts id n s = (j : IngestionJob) × (find_job id s.committed.jobs ≡ some j) × (j.attempts ≡ n)

module _ {Vector : Type 0} (providers : Providers Vector) (job : IngestJob) where
  begun-HasAttempts :
      (n : ℕ) (t u : Session Vector)
      → HasAttempts job.job_id n t
      → u.committed.jobs ≡ (begun providers job t).jobs
      → HasAttempts job.job_id (n + 1) u
  unfolding begun on_document set_job_if
  begun-HasAttempts n t u (j, found, same) jobs =
      let again =
        find-set_job job.job_id (running_job providers.started) t.committed.jobs j (λ x. refl)
          found in
      (running_job providers.started j, ap (find_job job.job_id) jobs ∙ again, ap (λ k. k + 1) same)

  -- Deaths of workers in the work on a job since a state, one after the other: each time the guard
  -- let the job pass and the start of the attempt was committed.
  pub data Deaths (s : Session Vector) : ℕ → Session Vector → Type 0 where
    no_death : Deaths s 0 s
    one_more :
        (n : ℕ) (t u : Session Vector) (j : IngestionJob)
        → Deaths s n t
        → find_job job.job_id t.committed.jobs ≡ some j
        → leb max_attempts j.attempts ≡ false
        → u.committed.jobs ≡ (begun providers job t).jobs
        → Deaths s (n + 1) u

  -- Each death is counted in the row of the job.
  Deaths-HasAttempts :
      (s u : Session Vector) (n a : ℕ)
      → Deaths s n u
      → HasAttempts job.job_id a s
      → HasAttempts job.job_id (a + n) u
  Deaths-HasAttempts s u n a no_death (j, found, same) = (j, found, omega (arith, same))
  Deaths-HasAttempts s u n a (one_more m t u' j before found passed jobs) has =
      let (k, there, count) =
        begun-HasAttempts (a + m) t u' (Deaths-HasAttempts s t m a before has) jobs in
      (k, there, omega (arith, count))

  Deaths-bounded :
      (s u : Session Vector) (n a : ℕ)
      → Deaths s n u
      → HasAttempts job.job_id a s
      → a ≤ max_attempts
      → a + n ≤ max_attempts
  Deaths-bounded s u n a no_death has bound = omega (arith, bound)
  Deaths-bounded s u n a (one_more m t u' j before found passed jobs) has bound =
      let (k, there, count) = Deaths-HasAttempts s t m a before has in
      let same : j ≡ k = some-injective j k (sym found ∙ there) in
      let few : j.attempts ≡ a + m = ap (λ (i : IngestionJob). i.attempts) same ∙ count in
      ground (arith, passed, few)

  -- What the guard leaves of a job: its row and its document are failed, and the queue has let go
  -- of it.
  pub record IsAbandoned (raw : Raw) (before : Queue) (w : Worker Vector) : Type 0 where
    pub job_failed :
        (j : IngestionJob) × (find_job job.job_id w.session.committed.jobs ≡ some j)
        × (j.status ≡ JobStatus.failed)
    pub document_failed :
        (d : Document) × (find_document job.document_id w.session.committed.documents ≡ some d)
        × (d.status ≡ DocumentStatus.failed)
    pub acknowledged_it : w.queue ≡ acknowledge raw before

  module _ (raw : Raw) (s : Session Vector) (q : Queue) (j : IngestionJob) (d : Document) where
    abandon-IsAbandoned :
        find_job job.job_id s.working.jobs ≡ some j
        → find_document job.document_id s.working.documents ≡ some d
        → IsAbandoned raw q (abandon job raw j s q)
    unfolding abandon
    abandon-IsAbandoned row stored = record {
      job_failed = (
        poisoned_job j,
        find-set_job job.job_id poisoned_job s.working.jobs j (λ x. refl) row,
        refl,
      );
      document_failed = (
        poisoned_document j.attempts d,
        find-set_document job.document_id (poisoned_document j.attempts) s.working.documents d
            (λ x. refl) stored,
        refl,
      );
      acknowledged_it = refl;
    }

    guarded-IsAbandoned :
        (o : Option IngestionJob)
        → o ≡ some j
        → find_job job.job_id s.working.jobs ≡ some j
        → find_document job.document_id s.working.documents ≡ some d
        → max_attempts ≤ j.attempts
        → IsAbandoned raw q (guarded providers job raw o s q)
    unfolding guarded
    guarded-IsAbandoned none e row stored used = cc e
    guarded-IsAbandoned (some i) e row stored used =
        let same : j ≡ i = some-injective j i (sym e) in
        let out_of : true ≡ leb max_attempts j.attempts = ground (arith, used) in
        subst
          (λ k. IsAbandoned raw q (
            if leb max_attempts k.attempts
            then abandon job raw k s q
            else attempt_job providers job raw s q))
          same
          (subst
            (λ b.
              IsAbandoned raw q
                (if b then abandon job raw j s q else attempt_job providers job raw s q))
            out_of (abandon-IsAbandoned row stored))

  used_up : (k : ℕ) → k ≤ max_attempts → (k < max_attempts) ⊎ (max_attempts ≤ k)
  used_up k h = ground (arith, h)

  -- A job kills its worker at most as often as the attempts that its row has left; and once they are
  -- used up, whoever claims it next gives it up: the row and the document are committed as failed, and
  -- the queue lets the job go.
  pub handle_after-Deaths :
      (raw : Raw) (s u : Session Vector) (q : Queue) (d : Document) (n a : ℕ)
      → Deaths s n u
      → HasAttempts job.job_id a s
      → a ≤ max_attempts
      → find_document job.document_id u.committed.documents ≡ some d
      → (a + n ≤ max_attempts)
        × ((a + n < max_attempts)
            ⊎ IsAbandoned raw q (handle providers job raw (record { session = u; queue = q })))
  unfolding handle
  handle_after-Deaths raw s u q d n a deaths has few stored =
      let bounded = Deaths-bounded s u n a deaths has few in
      let (j, row, count) = Deaths-HasAttempts s u n a deaths has in
      (
        bounded,
        elim (used_up (a + n) bounded) [
          | inl left_over ↦ inl left_over
          | inr used ↦ inr (
              guarded-IsAbandoned raw (fresh_session u) q j d (find_job job.job_id u.committed.jobs)
                row row stored (omega (arith, used, count)))
        ],
      )

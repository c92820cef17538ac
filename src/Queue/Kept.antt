-- ===== src/Queue/Kept.antt =====
-- services/queue.py: the jobs that the two lists hold, counted over any interleaving of the commands of
-- several workers, any of which may die between two of its commands.
use knowledgeos.Prelude.{
  ℕ, ◌+◌, ◌-◌, ◌≡◌, refl, ap, inl, inr, Bool, true, false, ◌&&◌, ◌==◌, List, [], ◌∷◌, arith,
  if◌then◌else◌, Bool-cases, sym, subst, ◌∙◌, Option, none, some, ◌≤◌,
}
use knowledgeos.Queue.{
  same_job, same_raw, lrem, Raw, Queue, encoded, undecodable, decode, rpop_after, rpop, moved,
  brpoplpush, beat, claim, IngestJob, acknowledge, take_back, enqueue, next_attempt, requeue,
}

-- How often a payload stands in a list.
unfoldable pub count : Raw → List Raw → ℕ
unfolding same_raw
count x [] = 0
count x (r ∷ rs) = (if same_raw r x then 1 else 0) + count x rs

-- How often the queue holds a payload, pending or in a worker's hands.
unfoldable pub held : Raw → Queue → ℕ
unfolding count
held x q = count x q.pending + count x q.processing

pub same_raw_sound : (a b : Raw) → same_raw a b ≡ true → a ≡ b
unfolding same_raw same_job
same_raw_sound (encoded i) (encoded j) h =
    let same : (i.document_id ≡ j.document_id) × (i.job_id ≡ j.job_id) × (i.attempt ≡ j.attempt) =
      ground (arith, h) in
    ap encoded (cc (same.0, same.1, same.2))
same_raw_sound (undecodable m) (undecodable n) h =
    let same : m ≡ n = ground (arith, h) in ap undecodable same
same_raw_sound (encoded i) (undecodable n) h = cc h
same_raw_sound (undecodable m) (encoded j) h = cc h

pub same_raw_refl : (a : Raw) → same_raw a a ≡ true
unfolding same_raw same_job
same_raw_refl (encoded i) = ground arith
same_raw_refl (undecodable n) = ground arith

-- Another payload is not counted for this one.
count-lrem_other :
    (x raw : Raw) (rs : List Raw) → same_raw raw x ≡ false → count x (lrem raw rs) ≡ count x rs
unfolding count lrem
count-lrem_other x raw [] h = refl
count-lrem_other x raw (r ∷ rs) h = elim (Bool-cases (same_raw r raw)) [
  | inl here ↦
      rw here
        (rw (subst (λ p. same_raw p x ≡ false) (sym (same_raw_sound r raw here)) h) (omega arith))
  | inr later ↦
      rw later (ap (λ n. (if same_raw r x then 1 else 0) + n) (count-lrem_other x raw rs h))
]

-- A copy that is there goes, and no more.
count-lrem_same : (x : Raw) (rs : List Raw) → count x (lrem x rs) ≡ count x rs - 1
unfolding count lrem
count-lrem_same x [] = refl
count-lrem_same x (r ∷ rs) = elim (Bool-cases (same_raw r x)) [
  | inl here ↦ rw here (omega arith)
  | inr later ↦ rw later (rw later (omega (arith, count-lrem_same x rs)))
]

-- `n` counts what `rpop` leaves and the payload that it takes.
abbrev CountedIn : Raw → ℕ → Option (List Raw × Raw) → Type 0
CountedIn x n none = n ≡ 0
CountedIn x n (some p) = n ≡ count x p.0 + (if same_raw p.1 x then 1 else 0)

count-rpop_after :
    (x r : Raw) (o : Option (List Raw × Raw)) (n : ℕ)
    → CountedIn x n o
    → CountedIn x ((if same_raw r x then 1 else 0) + n) (some (rpop_after r o))
unfolding count
count-rpop_after x r none n h = omega (arith, h)
count-rpop_after x r (some p) n h = omega (arith, h)

count-rpop : (x : Raw) (rs : List Raw) → CountedIn x (count x rs) (rpop rs)
unfolding count rpop
count-rpop x [] = refl
count-rpop x (r ∷ rs) = count-rpop_after x r (rpop rs) (count x rs) (count-rpop x rs)

held-moved :
    (x : Raw) (q : Queue) (o : Option (List Raw × Raw))
    → CountedIn x (count x q.pending) o
    → held x (moved q o).1 ≡ held x q
unfolding held count
held-moved x q none h = refl
held-moved x q (some p) h = omega (arith, h)

held-brpoplpush : (x : Raw) (q : Queue) → held x (brpoplpush q).1 ≡ held x q
unfolding brpoplpush
held-brpoplpush x q = held-moved x q (rpop q.pending) (count-rpop x q.pending)

undecodable_other : (n : ℕ) (job : IngestJob) → same_raw (undecodable n) (encoded job) ≡ false
unfolding same_raw
undecodable_other n job = refl

-- A payload that is dropped is not the encoding of a job.
held-beat :
    (now : ℕ) (job : IngestJob) (o : Option Raw) (q : Queue)
    → held (encoded job) (beat now (o, q)).1 ≡ held (encoded job) q
unfolding beat held decode
held-beat now job none q = refl
held-beat now job (some (encoded j)) q = refl
held-beat now job (some (undecodable n)) q =
    ap (λ k. count (encoded job) q.pending + k)
      (count-lrem_other (encoded job) (undecodable n) q.processing (undecodable_other n job))

held-claim :
    (now : ℕ) (job : IngestJob) (q : Queue)
    → held (encoded job) (claim now q).1 ≡ held (encoded job) q
unfolding claim
held-claim now job q =
    held-beat now job (brpoplpush q).0 (brpoplpush q).1 ∙ held-brpoplpush (encoded job) q

-- `lrem` takes one copy of an equal payload, if there is one, and leaves the others.
pub count-lrem :
    (x raw : Raw) (rs : List Raw)
    → count x (lrem raw rs) ≡ count x rs - (if same_raw raw x then 1 else 0)
count-lrem x raw rs = elim (Bool-cases (same_raw raw x)) [
  | inl same ↦ rw same (
      subst (λ p. count x (lrem p rs) ≡ count x rs - 1) (sym (same_raw_sound raw x same))
        (count-lrem_same x rs))
  | inr other ↦ rw other (omega (arith, count-lrem_other x raw rs other))
]

-- `acknowledge` gives up one copy at most.
held-acknowledge :
    (x raw : Raw) (q : Queue)
    → (held x (acknowledge raw q) ≤ held x q)
      × (held x q ≤ held x (acknowledge raw q) + (if same_raw raw x then 1 else 0))
unfolding held acknowledge
held-acknowledge x raw q =
    (omega (arith, count-lrem x raw q.processing), omega (arith, count-lrem x raw q.processing))

held-enqueue :
    (x : Raw) (job : IngestJob) (q : Queue)
    → held x (enqueue job q) ≡ held x q + (if same_raw (encoded job) x then 1 else 0)
unfolding held enqueue count
held-enqueue x job q = omega arith

held-requeue :
    (x raw : Raw) (job : IngestJob) (q : Queue)
    → held x (requeue raw job q) ≡ held x (enqueue (next_attempt job) (acknowledge raw q))
unfolding requeue
held-requeue x raw job q = refl

-- The atomic commands of Redis that several workers, reapers and the API run in one order or another:
-- an `enqueue`, the `brpoplpush` of a claim, the rest of a claim, an `acknowledge`, which is also the
-- first half of `requeue`, and the pipeline of a reaper for a payload that it read some time before.
-- A death of a worker is that its next command does not come.
pub data Op : Type 0 where
  enqueued : IngestJob → Op
  moved_over : Op
  beaten : ℕ → Raw → Op
  acknowledged taken_back : Raw → Op

unfoldable pub apply_op : Op → Queue → Queue
apply_op (enqueued job) q = enqueue job q
apply_op moved_over q = (brpoplpush q).1
apply_op (beaten now raw) q = (beat now (some raw, q)).1
apply_op (acknowledged raw) q = acknowledge raw q
apply_op (taken_back raw) q = take_back raw q

unfoldable pub apply_ops : List Op → Queue → Queue
unfolding apply_op
apply_ops [] q = q
apply_ops (op ∷ ops) q = apply_ops ops (apply_op op q)

abbrev pub one_if : Bool → ℕ
one_if b = if b then 1 else 0

-- Whether a command puts a job into the queue, and whether a worker gives it up there.
unfoldable pub puts : IngestJob → Op → ℕ
puts job (enqueued j) = one_if (same_raw (encoded j) (encoded job))
puts job _ = 0

unfoldable pub gives_up : IngestJob → Op → ℕ
gives_up job (acknowledged raw) = one_if (same_raw raw (encoded job))
gives_up job _ = 0

unfoldable pub total : (Op → ℕ) → List Op → ℕ
total f [] = 0
total f (op ∷ ops) = f op + total f ops

-- Whether a reaper takes back a job that is no more in the processing list.
unfoldable pub doubles : IngestJob → Op → Queue → ℕ
unfolding count
doubles job (taken_back raw) q =
    one_if (same_raw raw (encoded job) && count (encoded job) q.processing == 0)
doubles job _ q = 0

-- How often one does, over the commands.
unfoldable pub doubled : IngestJob → List Op → Queue → ℕ
unfolding doubles apply_op
doubled job [] q = 0
doubled job (op ∷ ops) q = doubles job op q + doubled job ops (apply_op op q)

-- A reaper's pipeline keeps every copy, and makes one more exactly if it comes too late.
held-take_back :
    (job : IngestJob) (raw : Raw) (q : Queue)
    → held (encoded job) (take_back raw q) ≡ held (encoded job) q + doubles job (taken_back raw) q
unfolding held take_back count doubles
held-take_back job raw q =
    let left = count-lrem (encoded job) raw q.processing in ground (arith, left)

held-apply_op :
    (op : Op) (job : IngestJob) (q : Queue)
    → (held (encoded job) (apply_op op q) ≤ held (encoded job) q + puts job op + doubles job op q)
      × (held (encoded job) q + puts job op + doubles job op q
          ≤ held (encoded job) (apply_op op q) + gives_up job op)
unfolding apply_op puts gives_up doubles
held-apply_op (enqueued j) job q =
    let same = held-enqueue (encoded job) j q in (omega (arith, same), omega (arith, same))
held-apply_op moved_over job q =
    let same = held-brpoplpush (encoded job) q in (omega (arith, same), omega (arith, same))
held-apply_op (beaten now raw) job q =
    let same = held-beat now job (some raw) q in (omega (arith, same), omega (arith, same))
held-apply_op (acknowledged raw) job q =
    let (upper, lower) = held-acknowledge (encoded job) raw q in
    (omega (arith, upper), omega (arith, lower))
held-apply_op (taken_back raw) job q =
    let same = held-take_back job raw q in (omega (arith, same), omega (arith, same))

-- Over any interleaving of the commands of any workers, reapers and callers, at each of which any of
-- them may have died, the queue holds a job as often as before and as it was enqueued since and as a
-- reaper took it back when it was no more in the processing list, less at most the times that a worker
-- acknowledged it; and never more often.
pub apply_ops-Kept :
    (ops : List Op) (job : IngestJob) (q : Queue)
    → (held (encoded job) (apply_ops ops q)
        ≤ held (encoded job) q + total (puts job) ops + doubled job ops q)
      × (held (encoded job) q + total (puts job) ops + doubled job ops q
          ≤ held (encoded job) (apply_ops ops q) + total (gives_up job) ops)
unfolding apply_ops total doubled
apply_ops-Kept [] job q = (omega arith, omega arith)
apply_ops-Kept (op ∷ ops) job q =
    let (upper, lower) = held-apply_op op job q in
    let (most, least) = apply_ops-Kept ops job (apply_op op q) in
    (omega (arith, upper, most), omega (arith, lower, least))

-- A worker that dies in the sleep of `requeue` leaves the queue without the job: neither the attempt
-- it acknowledged nor the next one is held, where the queue held the attempt once and the next one not
-- at all.
died_requeueing_loses :
    (job : IngestJob) (q : Queue)
    → count (encoded job) q.processing ≡ 1
    → count (encoded job) q.pending ≡ 0
    → held (encoded (next_attempt job)) q ≡ 0
    → (held (encoded job) (apply_op (acknowledged (encoded job)) q) ≡ 0)
      × (held (encoded (next_attempt job)) (apply_op (acknowledged (encoded job)) q) ≡ 0)
unfolding apply_op held acknowledge
died_requeueing_loses job q once gone fresh = (
  omega (arith, once, gone, count-lrem_same (encoded job) q.processing),
  omega (arith, fresh, count-lrem (encoded (next_attempt job)) (encoded job) q.processing),
)

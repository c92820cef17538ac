-- ===== src/Queue.antt =====
-- services/queue.py: the job queue in Redis. The two lists stand with their left end first, so that
-- `lpush` is a cons and `brpoplpush` takes the last item; the hash of the heartbeats is a list of
-- pairs. A payload is the encoding of a job, or text that `IngestJob.decode` refuses. Between
-- `brpoplpush` and the heartbeat, and between the two halves of `requeue`, a worker may die or another
-- may run: both halves are operations.
pub mod Kept
pub mod Interleaved
pub mod Fifo
pub mod Reaped
use knowledgeos.Prelude.{
  ℕ, ◌+◌, Bool, true, false, ◌&&◌, Option, none, some, List, [], ◌∷◌, ltb, ◌==◌, if◌then◌else◌,
  length,
}

pub record IngestJob : Type 0 where
  pub document_id : ℕ
  pub job_id : ℕ
  pub attempt : ℕ

pub data Raw : Type 0 where
  encoded : IngestJob → Raw
  undecodable : ℕ → Raw

unfoldable pub same_job : IngestJob → IngestJob → Bool
same_job i j = i.document_id == j.document_id && (i.job_id == j.job_id && i.attempt == j.attempt)

unfoldable pub same_raw : Raw → Raw → Bool
unfolding same_job
same_raw (encoded i) (encoded j) = same_job i j
same_raw (encoded i) (undecodable n) = false
same_raw (undecodable m) (encoded j) = false
same_raw (undecodable m) (undecodable n) = m == n

-- `IngestJob.decode`
unfoldable pub decode : Raw → Option IngestJob
decode (encoded job) = some job
decode (undecodable n) = none

pub record Queue : Type 0 where
  pub pending : List Raw
  pub processing : List Raw
  pub heartbeat : List (Raw × ℕ)

abbrev pub visibility_timeout_seconds : ℕ
visibility_timeout_seconds = 900

-- `lrem(key, 1, raw)`: the first item equal to the payload goes.
unfoldable pub lrem : Raw → List Raw → List Raw
unfolding same_raw
lrem raw [] = []
lrem raw (r ∷ rs) = if same_raw r raw then rs else r ∷ lrem raw rs

unfoldable pub hdel : Raw → List (Raw × ℕ) → List (Raw × ℕ)
unfolding same_raw
hdel raw [] = []
hdel raw ((r, t) ∷ rest) = if same_raw r raw then hdel raw rest else (r, t) ∷ hdel raw rest

unfoldable pub hget : Raw → List (Raw × ℕ) → Option ℕ
unfolding same_raw
hget raw [] = none
hget raw ((r, t) ∷ rest) = if same_raw r raw then some t else hget raw rest

unfoldable hset : Raw → ℕ → List (Raw × ℕ) → List (Raw × ℕ)
unfolding hdel
hset raw t beats = (raw, t) ∷ hdel raw beats

-- The items but the last, and the last; what is taken from the end of a longer list.
abbrev pub rpop_after : Raw → Option (List Raw × Raw) → List Raw × Raw
rpop_after r none = ([], r)
rpop_after r (some (front, last)) = (r ∷ front, last)

unfoldable pub rpop : List Raw → Option (List Raw × Raw)
rpop [] = none
rpop (r ∷ rs) = some (rpop_after r (rpop rs))

unfoldable pub enqueue : IngestJob → Queue → Queue
enqueue job q = record q { pending = encoded job ∷ q.pending }

abbrev pub moved : Queue → Option (List Raw × Raw) → Option Raw × Queue
moved q none = (none, q)
moved q (some (front, raw)) =
    (some raw, record q { pending = front; processing = raw ∷ q.processing })

-- `brpoplpush(_PENDING, _PROCESSING)`, `none` at its timeout
unfoldable pub brpoplpush : Queue → Option Raw × Queue
unfolding rpop
brpoplpush q = moved q (rpop q.pending)

abbrev beat_decoded : ℕ → Raw → Queue → Option IngestJob → Option (IngestJob × Raw) × Queue
beat_decoded now raw q none = (none, record q { processing = lrem raw q.processing })
beat_decoded now raw q (some job) =
    (some (job, raw), record q { heartbeat = hset raw now q.heartbeat })

-- The rest of `claim`: an undecodable payload is dropped, a job gets its heartbeat.
unfoldable pub beat : ℕ → Option Raw × Queue → Option (IngestJob × Raw) × Queue
unfolding decode lrem hset
beat now (none, q) = (none, q)
beat now (some raw, q) = beat_decoded now raw q (decode raw)

unfoldable pub claim : ℕ → Queue → Option (IngestJob × Raw) × Queue
unfolding brpoplpush beat
claim now q = beat now (brpoplpush q)

unfoldable pub acknowledge : Raw → Queue → Queue
unfolding lrem hdel
acknowledge raw q = record q {
  processing = lrem raw q.processing;
  heartbeat = hdel raw q.heartbeat;
}

abbrev pub next_attempt : IngestJob → IngestJob
next_attempt job = record job { attempt = job.attempt + 1 }

unfoldable pub requeue : Raw → IngestJob → Queue → Queue
unfolding acknowledge enqueue
requeue raw job q = enqueue (next_attempt job) (acknowledge raw q)

-- `started is None or now - int(started) > VISIBILITY_TIMEOUT_SECONDS`
unfoldable pub is_orphan : ℕ → Queue → Raw → Bool
unfolding hget
is_orphan now q raw = elim (hget raw q.heartbeat) [
  | none ↦ true
  | some started ↦ ltb (started + visibility_timeout_seconds) now
]

-- The pipeline that takes a payload back.
unfoldable pub take_back : Raw → Queue → Queue
unfolding lrem hdel
take_back raw q = record q {
  processing = lrem raw q.processing;
  heartbeat = hdel raw q.heartbeat;
  pending = raw ∷ q.pending;
}

-- One turn of the loop of `reap_orphans`, with its counter.
unfoldable pub reap_one : Bool → Raw → ℕ × Queue → ℕ × Queue
unfolding take_back
reap_one true raw (recovered, q) = (recovered + 1, take_back raw q)
reap_one false raw (recovered, q) = (recovered, q)

-- The loop over the items that `lrange` read. Each command of Redis is atomic, and other workers run
-- between two commands: `others n` is what they do to the queue before the command `n`.
unfoldable pub reap_each : (ℕ → Queue → Queue) → ℕ → ℕ → List Raw → ℕ × Queue → ℕ × Queue
unfolding is_orphan reap_one
reap_each others now n [] out = out
reap_each others now n (raw ∷ rest) (recovered, q) =
    let looked = others n q in
    let acting = others (n + 1) looked in
    reap_each others now (n + 2) rest (reap_one (is_orphan now looked raw) raw (recovered, acting))

unfoldable pub reap_orphans : (ℕ → Queue → Queue) → ℕ → Queue → ℕ × Queue
unfolding reap_each
reap_orphans others now q = reap_each others now 0 q.processing (0, q)

-- No other worker runs.
abbrev pub alone : ℕ → Queue → Queue
alone n q = q

-- `depth`
unfoldable depth : Queue → ℕ × ℕ
depth q = (length q.pending, length q.processing)

-- ===== src/Queue/Fifo.antt =====
-- services/queue.py: without a death and a reaper the queue gives the jobs first in, first out. The
-- specification knows one list, the oldest payload first.
use knowledgeos.Prelude.{ℕ, ◌≡◌, refl, sym, ap, ◌∙◌, Option, none, some, List, [], ◌∷◌, ◌++◌}
use knowledgeos.Queue.{
  decode, rpop_after, rpop, enqueue, moved, brpoplpush, beat, claim, acknowledge, next_attempt,
  requeue, IngestJob, Raw, Queue, encoded, undecodable,
}

-- What clients ask of the queue: `enqueue`, `claim`, `acknowledge` and `requeue`.
pub data Call : Type 0 where
  put : IngestJob → Call
  take_one : ℕ → Call
  done : Raw → Call
  again : Raw → IngestJob → Call

abbrev answer_of : Option (IngestJob × Raw) → Option IngestJob
answer_of none = none
answer_of (some (job, raw)) = some job

-- The jobs that the claims of some calls give.
unfoldable pub run_calls : List Call → Queue → List (Option IngestJob)
unfolding enqueue claim acknowledge requeue
run_calls [] q = []
run_calls (put job ∷ calls) q = run_calls calls (enqueue job q)
run_calls (take_one now ∷ calls) q = answer_of (claim now q).0 ∷ run_calls calls (claim now q).1
run_calls (done raw ∷ calls) q = run_calls calls (acknowledge raw q)
run_calls (again raw job ∷ calls) q = run_calls calls (requeue raw job q)

-- The specification: a payload joins at the end and leaves at the front.
unfoldable pub spec_calls : List Call → List Raw → List (Option IngestJob)
unfolding decode
spec_calls [] waiting = []
spec_calls (put job ∷ calls) waiting = spec_calls calls (waiting ++ encoded job ∷ [])
spec_calls (take_one now ∷ calls) [] = none ∷ spec_calls calls []
spec_calls (take_one now ∷ calls) (raw ∷ waiting) = decode raw ∷ spec_calls calls waiting
spec_calls (done raw ∷ calls) waiting = spec_calls calls waiting
spec_calls (again raw job ∷ calls) waiting =
    spec_calls calls (waiting ++ encoded (next_attempt job) ∷ [])

unfoldable pub oldest_first : List Raw → List Raw
oldest_first [] = []
oldest_first (r ∷ rs) = oldest_first rs ++ r ∷ []

-- A list, oldest first, by what `rpop` gives.
abbrev in_order : Option (List Raw × Raw) → List Raw
in_order none = []
in_order (some p) = p.1 ∷ oldest_first p.0

in_order-rpop_after :
    (r : Raw) (o : Option (List Raw × Raw))
    → in_order o ++ r ∷ [] ≡ in_order (some (rpop_after r o))
unfolding oldest_first
in_order-rpop_after r none = refl
in_order-rpop_after r (some p) = refl

oldest_first-rpop : (rs : List Raw) → oldest_first rs ≡ in_order (rpop rs)
unfolding rpop oldest_first
oldest_first-rpop [] = refl
oldest_first-rpop (r ∷ rs) =
    ap (λ waiting. waiting ++ r ∷ []) (oldest_first-rpop rs) ∙ in_order-rpop_after r (rpop rs)

claimed-decode :
    (now : ℕ) (raw : Raw) (q : Queue)
    → (answer_of (beat now (some raw, q)).0 ≡ decode raw)
      × ((beat now (some raw, q)).1.pending ≡ q.pending)
unfolding beat decode
claimed-decode now (encoded job) q = (refl, refl)
claimed-decode now (undecodable n) q = (refl, refl)

-- A claim against the specification's, by what stands at the end of the pending list.
claim-take_one :
    (now : ℕ) (calls : List Call) (q : Queue) (o : Option (List Raw × Raw))
    → run_calls calls (beat now (moved q o)).1
      ≡ spec_calls calls (oldest_first (beat now (moved q o)).1.pending)
    → oldest_first q.pending ≡ in_order o
    → answer_of (beat now (moved q o)).0 ∷ run_calls calls (beat now (moved q o)).1
      ≡ spec_calls (take_one now ∷ calls) (in_order o)
unfolding spec_calls beat
claim-take_one now calls q none later order =
    ap (λ l. none ∷ l) (later ∙ ap (spec_calls calls) order)
claim-take_one now calls q (some (front, raw)) later order =
    let (answer, rest) =
      claimed-decode now raw (record q { pending = front; processing = raw ∷ q.processing }) in
    ap (λ a. a ∷ run_calls calls (beat now (moved q (some (front, raw)))).1) answer
    ∙ ap (λ l. decode raw ∷ l) (later ∙ ap (λ p. spec_calls calls (oldest_first p)) rest)

-- The queue refines the specification: any calls give the jobs that the specification gives on the
-- pending payloads, oldest first.
pub run_calls-Refines :
    (calls : List Call) (q : Queue) → run_calls calls q ≡ spec_calls calls (oldest_first q.pending)
unfolding run_calls spec_calls enqueue requeue acknowledge oldest_first claim brpoplpush
run_calls-Refines [] q = refl
run_calls-Refines (put job ∷ calls) q = run_calls-Refines calls (enqueue job q)
run_calls-Refines (take_one now ∷ calls) q =
    let order = oldest_first-rpop q.pending in
    claim-take_one now calls q (rpop q.pending) (run_calls-Refines calls (claim now q).1) order
    ∙ ap (spec_calls (take_one now ∷ calls)) (sym order)
run_calls-Refines (done raw ∷ calls) q = run_calls-Refines calls (acknowledge raw q)
run_calls-Refines (again raw job ∷ calls) q = run_calls-Refines calls (requeue raw job q)

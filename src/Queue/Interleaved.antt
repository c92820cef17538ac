-- ===== src/Queue/Interleaved.antt =====
-- The operations of services/queue.py as the commands that they are made of, with those of other
-- workers in between.
use knowledgeos.Prelude.{
  ℕ, ◌+◌, ◌≡◌, refl, sym, ap, ◌∙◌, Bool, true, false, List, [], ◌∷◌, ◌++◌, if◌then◌else◌,
}
use knowledgeos.Queue.{
  Raw, Queue, IngestJob, next_attempt, is_orphan, reap_one, reap_each, reap_orphans, requeue,
}
use knowledgeos.Queue.Kept.{Op, enqueued, acknowledged, taken_back, apply_op, apply_ops}

apply_ops-append :
    (xs ys : List Op) (q : Queue) → apply_ops (xs ++ ys) q ≡ apply_ops ys (apply_ops xs q)
unfolding apply_ops
apply_ops-append [] ys q = refl
apply_ops-append (x ∷ xs) ys q = apply_ops-append xs ys (apply_op x q)

-- The pipeline of one turn, if the payload was an orphan.
abbrev if_taken : Bool → Raw → List Op
if_taken orphan raw = if orphan then taken_back raw ∷ [] else []

-- The commands of a reaper's loop with those of others, by the scripts of the others.
abbrev reaper_ops : (ℕ → List Op) → ℕ → ℕ → List Raw → Queue → List Op
reaper_ops script now n [] q = []
reaper_ops script now n (raw ∷ rest) q =
    let orphan = is_orphan now (apply_ops (script n) q) raw in
    let turn = script n ++ (script (n + 1) ++ if_taken orphan raw) in
    turn ++ reaper_ops script now (n + 2) rest (apply_ops turn q)

reap_one-ops :
    (orphan : Bool) (raw : Raw) (c : ℕ) (q : Queue)
    → (reap_one orphan raw (c, q)).1 ≡ apply_ops (if_taken orphan raw) q
unfolding reap_one apply_ops apply_op
reap_one-ops true raw c q = refl
reap_one-ops false raw c q = refl

reap_each-ops :
    (script : ℕ → List Op) (now n : ℕ) (rest : List Raw) (out : ℕ × Queue)
    → (reap_each (λ k. apply_ops (script k)) now n rest out).1
      ≡ apply_ops (reaper_ops script now n rest out.1) out.1
unfolding reap_each
reap_each-ops script now n [] out = unfold apply_ops in refl
reap_each-ops script now n (raw ∷ rest) (c, q) =
    let looked = apply_ops (script n) q in
    let acting = apply_ops (script (n + 1)) looked in
    let orphan = is_orphan now looked raw in
    let turn = script n ++ (script (n + 1) ++ if_taken orphan raw) in
    let turn_run : apply_ops turn q ≡ apply_ops (if_taken orphan raw) acting =
      apply_ops-append (script n) (script (n + 1) ++ if_taken orphan raw) q
      ∙ apply_ops-append (script (n + 1)) (if_taken orphan raw) looked in
    reap_each-ops script now (n + 2) rest (reap_one orphan raw (c, acting))
    ∙ ap (λ r. apply_ops (reaper_ops script now (n + 2) rest r) r)
        (reap_one-ops orphan raw c acting ∙ sym turn_run)
    ∙ sym (apply_ops-append turn (reaper_ops script now (n + 2) rest (apply_ops turn q)) q)

-- `reap_orphans`, with any commands of other workers before each of its own, is a run of commands.
reap_orphans-ops :
    (script : ℕ → List Op) (now : ℕ) (q : Queue)
    → (reap_orphans (λ k. apply_ops (script k)) now q).1
      ≡ apply_ops (reaper_ops script now 0 q.processing q) q
unfolding reap_orphans
reap_orphans-ops script now q = reap_each-ops script now 0 q.processing (0, q)

-- `requeue` that no other command interrupts is its two halves.
requeue-ops :
    (raw : Raw) (job : IngestJob) (q : Queue)
    → requeue raw job q ≡ apply_ops (acknowledged raw ∷ enqueued (next_attempt job) ∷ []) q
unfolding requeue apply_ops apply_op
requeue-ops raw job q = refl

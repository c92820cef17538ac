-- ===== src/Queue/Reaped.antt =====
-- `reap_orphans` of services/queue.py: which payloads go back to the pending list, and the window in
-- which a payload that has just been claimed counts as an orphan.
use mathlib.Core.Option.{some-injective}
use knowledgeos.Prelude.{
  ℕ, ◌+◌, ◌-◌, ◌≡◌, refl, sym, ap, ◌∙◌, subst, inl, inr, Bool, true, false, Option, none, some,
  List, [], ◌∷◌, arith, ltb, if◌then◌else◌, Bool-cases, ◌≤◌,
}
use knowledgeos.Queue.{
  same_raw, visibility_timeout_seconds, hdel, hget, is_orphan, take_back, reap_one, reap_each, Raw,
  Queue, decode, rpop, moved, brpoplpush, beat, reap_orphans, alone, IngestJob, encoded,
}
use knowledgeos.Queue.Kept.{count, same_raw_sound, count-lrem, one_if, same_raw_refl}

hget-hdel_other :
    (x raw : Raw) (beats : List (Raw × ℕ))
    → same_raw raw x ≡ false
    → hget x (hdel raw beats) ≡ hget x beats
unfolding hget hdel
hget-hdel_other x raw [] h = refl
hget-hdel_other x raw ((r, t) ∷ beats) h = elim (Bool-cases (same_raw r raw)) [
  | inl here ↦ rw here (
      rw (subst (λ p. same_raw p x ≡ false) (sym (same_raw_sound r raw here)) h)
        (hget-hdel_other x raw beats h))
  | inr later ↦
      rw later (ap (λ rest. if same_raw r x then some t else rest) (hget-hdel_other x raw beats h))
]

hget-hdel_same : (x : Raw) (beats : List (Raw × ℕ)) → hget x (hdel x beats) ≡ none
unfolding hget hdel
hget-hdel_same x [] = refl
hget-hdel_same x ((r, t) ∷ beats) = elim (Bool-cases (same_raw r x)) [
  | inl here ↦ rw here (hget-hdel_same x beats)
  | inr later ↦ rw later (rw later (hget-hdel_same x beats))
]

-- A payload is an orphan by its heartbeat alone.
abbrev is_late : ℕ → Option ℕ → Bool
is_late now none = true
is_late now (some started) = ltb (started + visibility_timeout_seconds) now

is_orphan_by :
    (now : ℕ) (q : Queue) (x : Raw) → is_orphan now q x ≡ is_late now (hget x q.heartbeat)
unfolding is_orphan
is_orphan_by now q x = refl

is_orphan-take_back :
    (now : ℕ) (raw x : Raw) (q : Queue)
    → is_orphan now q raw ≡ true
    → is_orphan now (take_back raw q) x ≡ is_orphan now q x
unfolding take_back
is_orphan-take_back now raw x q orphan = elim (Bool-cases (same_raw raw x)) [
  | inl same ↦
      let gone =
        is_orphan_by now (take_back raw q) raw
        ∙ ap (is_late now) (hget-hdel_same raw q.heartbeat) in
      subst (λ p. is_orphan now (take_back raw q) p ≡ is_orphan now q p) (same_raw_sound raw x same)
        (gone ∙ sym orphan)
  | inr other ↦
      is_orphan_by now (take_back raw q) x
      ∙ ap (is_late now) (hget-hdel_other x raw q.heartbeat other)
      ∙ sym (is_orphan_by now q x)
]

is_orphan-reap_one :
    (now : ℕ) (b : Bool) (raw x : Raw) (out : ℕ × Queue)
    → is_orphan now out.1 raw ≡ b
    → is_orphan now (reap_one b raw out).1 x ≡ is_orphan now out.1 x
unfolding reap_one
is_orphan-reap_one now false raw x out h = refl
is_orphan-reap_one now true raw x out h = is_orphan-take_back now raw x out.1 h

-- What one turn of the loop moves of a payload.
abbrev if_orphan : Bool → ℕ → ℕ
if_orphan orphan n = if orphan then n else 0

count-reap_one :
    (x raw : Raw) (b : Bool) (out : ℕ × Queue)
    → (count x (reap_one b raw out).1.processing
        ≡ count x out.1.processing - if_orphan b (one_if (same_raw raw x)))
      × (count x (reap_one b raw out).1.pending
          ≡ count x out.1.pending + if_orphan b (one_if (same_raw raw x)))
unfolding reap_one take_back count
count-reap_one x raw false out = (omega arith, omega arith)
count-reap_one x raw true out = (count-lrem x raw out.1.processing, omega arith)

-- The payload of a turn is the one counted, or does not matter to it.
same_orphan :
    (now : ℕ) (q : Queue) (raw x : Raw)
    → if_orphan (is_orphan now q raw) (one_if (same_raw raw x))
      ≡ if_orphan (is_orphan now q x) (one_if (same_raw raw x))
same_orphan now q raw x = elim (Bool-cases (same_raw raw x)) [
  | inl same ↦
      ap (λ p. if_orphan (is_orphan now q p) (one_if (same_raw raw x))) (same_raw_sound raw x same)
  | inr other ↦ rw other (ground arith)
]

two_turns :
    (now_first first orphan : Bool) (a b c d e f m n : ℕ)
    → now_first ≡ orphan
    → if_orphan first m ≡ if_orphan orphan m
    → (a ≡ b - if_orphan now_first n) × (d ≡ e + if_orphan now_first n)
    → (b ≡ c - if_orphan first m) × (e ≡ f + if_orphan first m)
    → (a ≡ c - if_orphan orphan (m + n)) × (d ≡ f + if_orphan orphan (m + n))
two_turns now_first first true a b c d e f m n h k = ground arith
two_turns now_first first false a b c d e f m n h k = ground arith

all_or_none : (orphan : Bool) (n : ℕ) → n - if_orphan orphan n ≡ (if orphan then 0 else n)
all_or_none true n = omega arith
all_or_none false n = omega arith

count-reap_each :
    (now n : ℕ) (x : Raw) (rest : List Raw) (out : ℕ × Queue)
    → (count x (reap_each alone now n rest out).1.processing
        ≡ count x out.1.processing - if_orphan (is_orphan now out.1 x) (count x rest))
      × (count x (reap_each alone now n rest out).1.pending
          ≡ count x out.1.pending + if_orphan (is_orphan now out.1 x) (count x rest))
unfolding reap_each count
count-reap_each now n x [] out = (ground arith, ground arith)
count-reap_each now n x (raw ∷ rest) out =
    let b = is_orphan now out.1 raw in
    two_turns _ b (is_orphan now out.1 x) _ _ (count x out.1.processing) _ _ (count x out.1.pending)
      (one_if (same_raw raw x)) (count x rest) (is_orphan-reap_one now b raw x out refl)
      (same_orphan now out.1 raw x) (count-reap_each now (n + 2) x rest (reap_one b raw out))
      (count-reap_one x raw b out)

-- Where no other worker runs, `reap_orphans` moves every copy of every payload that has no heartbeat, or one older than the
-- timeout, from the processing list to the pending list, and moves nothing else.
reap_orphans-exact :
    (now : ℕ) (x : Raw) (q : Queue)
    → (count x (reap_orphans alone now q).1.processing
        ≡ (if is_orphan now q x then 0 else count x q.processing))
      × (count x (reap_orphans alone now q).1.pending
          ≡ count x q.pending + (if is_orphan now q x then count x q.processing else 0))
unfolding reap_orphans
reap_orphans-exact now x q =
    let (left, back) = count-reap_each now 0 x q.processing (0, q) in
    (left ∙ all_or_none (is_orphan now q x) (count x q.processing), back)

moved_once :
    (job : IngestJob) (q after : Queue) (o : Option (List Raw × Raw))
    → moved q o ≡ (some (encoded job), after)
    → (after.heartbeat ≡ q.heartbeat) × (1 ≤ count (encoded job) after.processing)
unfolding count
moved_once job q after none h = cc h
moved_once job q after (some (front, raw)) h =
    let same : raw ≡ encoded job =
      some-injective raw (encoded job) (ap (λ (p : Option Raw × Queue). p.0) h) in
    let once : 1 ≤ count (encoded job) (raw ∷ q.processing) =
      subst (λ r. 1 ≤ count (encoded job) (r ∷ q.processing)) (sym same)
        (rw (same_raw_refl (encoded job)) (omega arith)) in
    subst (λ (r : Queue). (r.heartbeat ≡ q.heartbeat) × (1 ≤ count (encoded job) r.processing))
      (ap (λ (p : Option Raw × Queue). p.1) h) (refl, once)

-- Between `brpoplpush` and the heartbeat, a payload in a worker's hands has none, so that a reaper
-- that runs there, with no other worker beside it, takes it back at any time: the payload is pending
-- again, no copy is in the processing list, and the worker goes on with the job that it claimed.
pub reap_orphans_claimed :
    (now later : ℕ) (job : IngestJob) (q after : Queue)
    → brpoplpush q ≡ (some (encoded job), after)
    → hget (encoded job) q.heartbeat ≡ none
    → let reaped = (reap_orphans alone now after).1 in
      (1 ≤ count (encoded job) reaped.pending)
      × (count (encoded job) reaped.processing ≡ 0)
      × ((beat later (some (encoded job), reaped)).0 ≡ some (job, encoded job))
unfolding brpoplpush beat decode
reap_orphans_claimed now later job q after claimed_it fresh =
    let (beats, held_once) = moved_once job q after (rpop q.pending) claimed_it in
    let orphan : is_orphan now after (encoded job) ≡ true =
      is_orphan_by now after (encoded job)
      ∙ ap (is_late now) (ap (hget (encoded job)) beats ∙ fresh) in
    let (left, back) = reap_orphans-exact now (encoded job) after in
    (ground (arith, orphan, back, held_once), ground (arith, orphan, left), refl)

-- ===== src/Limits/Window.antt =====
-- core/rate_limit.py against its reference: the number of calls in the last window, over the whole
-- history of calls.
use knowledgeos.Prelude.{
  ℕ, ◌+◌, ◌*◌, ◌≤◌, ◌≡◌, refl, inl, inr, true, List, [], ◌∷◌, arith, ltb, leb, if◌then◌else◌,
  Bool-cases, length, ap, ◌∙◌,
}
use knowledgeos.Errors.{ok, err}
use knowledgeos.Limits.{prune, too_many, transaction, check_rate_limit}

-- The calls of a history, the latest first, that are in the window that ends now.
unfoldable pub recent : ℕ → ℕ → List ℕ → ℕ
recent window_ms now [] = 0
recent window_ms now (t ∷ history) =
    (if ltb now (t + window_ms) then 1 else 0) + recent window_ms now history

-- No call is later than the ones before it in the list.
abbrev IsHistory : ℕ → List ℕ → Type 0
IsHistory now [] = Unit
IsHistory now (t ∷ history) = (t ≤ now) × IsHistory t history

-- What the set holds after the calls of a history, allowed or not.
unfoldable pub after_calls : ℕ → ℕ → List ℕ → List ℕ
unfolding check_rate_limit
after_calls limit window_seconds [] = []
after_calls limit window_seconds (t ∷ history) =
    (check_rate_limit true limit window_seconds t (after_calls limit window_seconds history)).1

check_rate_limit-times :
    (limit window_seconds now : ℕ) (times : List ℕ)
    → (check_rate_limit true limit window_seconds now times).1
      ≡ now ∷ prune (window_seconds * 1000) now times
unfolding check_rate_limit transaction
check_rate_limit-times limit window_seconds now times =
    elim (Bool-cases (leb limit (length (prune (window_seconds * 1000) now times)))) [
      | inl many ↦ rw many refl
      | inr few ↦ rw few refl
    ]

length-prune-prune :
    (window_ms now later : ℕ) (times : List ℕ)
    → now ≤ later
    → length (prune window_ms later (prune window_ms now times))
      ≡ length (prune window_ms later times)
unfolding prune
length-prune-prune window_ms now later [] h = refl
length-prune-prune window_ms now later (t ∷ times) h =
    ground (arith, h, length-prune-prune window_ms now later times h)

-- A time that is pruned is not in the window.
length-prune_cons :
    (window_ms now t : ℕ) (times : List ℕ)
    → length (prune window_ms now (t ∷ times))
      ≡ (if ltb now (t + window_ms) then 1 else 0) + length (prune window_ms now times)
unfolding prune
length-prune_cons window_ms now t times = ground arith

IsHistory-later :
    (now later : ℕ) (history : List ℕ)
    → now ≤ later
    → IsHistory now history
    → IsHistory later history
IsHistory-later now later [] h sorted = tt
IsHistory-later now later (t ∷ history) h sorted = (omega (arith, h, sorted.0), sorted.1)

module _ (limit window_seconds : ℕ) where
  length-prune-after_calls :
      (now : ℕ) (history : List ℕ)
      → IsHistory now history
      → length (prune (window_seconds * 1000) now (after_calls limit window_seconds history))
        ≡ recent (window_seconds * 1000) now history
  unfolding recent after_calls prune
  length-prune-after_calls now [] h = refl
  length-prune-after_calls now (t ∷ history) h =
      let window_ms = window_seconds * 1000 in
      let before = after_calls limit window_seconds history in
      ap (λ times. length (prune window_ms now times))
        (check_rate_limit-times limit window_seconds t before)
      ∙ length-prune_cons window_ms now t (prune window_ms t before)
      ∙ ap (λ n. (if ltb now (t + window_ms) then 1 else 0) + n)
          (length-prune-prune window_ms t now before h.0
            ∙ length-prune-after_calls now history (IsHistory-later t now history h.0 h.1))

  check_rate_limit-answer :
      (now : ℕ) (times : List ℕ)
      → (check_rate_limit true limit window_seconds now times).0 ≡ (
          if leb limit (length (prune (window_seconds * 1000) now times))
          then err (too_many limit window_seconds)
          else ok tt)
  unfolding check_rate_limit transaction
  check_rate_limit-answer now times =
      elim (Bool-cases (leb limit (length (prune (window_seconds * 1000) now times)))) [
        | inl many ↦ rw many refl
        | inr few ↦ rw few refl
      ]

  -- On any history of calls the limiter decides as the reference does: a call is refused exactly if
  -- the calls of the window that ends with it, refused ones included, have reached the limit.
  pub check_rate_limit-recent :
      (now : ℕ) (history : List ℕ)
      → IsHistory now history
      → (check_rate_limit true limit window_seconds now
          (after_calls limit window_seconds history)).0
        ≡ (if leb limit (recent (window_seconds * 1000) now history)
            then err (too_many limit window_seconds)
            else ok tt)
  check_rate_limit-recent now history h =
      check_rate_limit-answer now (after_calls limit window_seconds history)
      ∙ ap (λ n. if leb limit n then err (too_many limit window_seconds) else ok tt)
          (length-prune-after_calls now history h)

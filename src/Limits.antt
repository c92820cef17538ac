-- ===== src/Limits.antt =====
-- core/rate_limit.py: the sorted set of one identity and action in Redis, as the times in it, the
-- latest first; a member is new in each call. The expiry of the key is left out: it comes when the
-- newest time has left the window. The pipeline is one transaction.
pub mod Window
use knowledgeos.Prelude.{ℕ, ◌+◌, ◌*◌, Bool, some, List, [], ◌∷◌, leb, if◌then◌else◌, length}
use knowledgeos.Errors.{Kind, Detail, AppError, Result, ok, err}

-- `zremrangebyscore(key, 0, now_ms - window_ms)`
unfoldable pub prune : ℕ → ℕ → List ℕ → List ℕ
prune window_ms now [] = []
prune window_ms now (t ∷ times) =
    if leb (t + window_ms) now then prune window_ms now times else t ∷ prune window_ms now times

abbrev pub too_many : ℕ → ℕ → AppError
too_many limit window_seconds = record {
  kind = Kind.rate_limit;
  detail =
      Detail.with_numbers "Too many requests. Limit is " limit " per " window_seconds " seconds.";
  retry_after = some window_seconds;
}

-- The transaction: the times that are left, and how many there were before this call's.
unfoldable pub transaction : ℕ → ℕ → List ℕ → ℕ × List ℕ
unfolding prune
transaction window_ms now times = let left = prune window_ms now times in (length left, now ∷ left)

-- `check_rate_limit`; without Redis the call passes.
unfoldable pub check_rate_limit : Bool → ℕ → ℕ → ℕ → List ℕ → Result (Unit {0}) × List ℕ
unfolding transaction
check_rate_limit up limit window_seconds now times =
    let (count, left) = transaction (window_seconds * 1000) now times in
    if up
    then (if leb limit count then (err (too_many limit window_seconds), left) else (ok tt, left))
    else (ok tt, times)

-- `reset_rate_limit`
unfoldable reset_rate_limit : Bool → List ℕ → List ℕ
reset_rate_limit up times = if up then [] else times

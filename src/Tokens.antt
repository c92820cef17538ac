-- ===== src/Tokens.antt =====
-- services/token_service.py: refresh tokens, and `refresh` and `logout` of api/v1/auth.py. The table
-- `refresh_tokens` is the list of its rows; a time is a number of microseconds. The digest of a
-- token and the test of an address are the standard library's, so they are parameters; what
-- `secrets`, `uuid` and the clock return are arguments.
pub mod Rows
pub mod Rotation
pub mod Family
use knowledgeos.Prelude.{
  ℕ, ◌+◌, ◌*◌, Bool, true, false, ◌&&◌, Option, none, some, List, [], ◌∷◌, ◌++◌, leb, ◌==◌,
  if◌then◌else◌, take, map, ◌≤◌,
}
use knowledgeos.Text.{Text, is_empty}
use knowledgeos.Errors.{Kind, AppError, plain, Result, ok, err}

pub record RefreshToken : Type 0 where
  pub id : ℕ
  pub user_id : ℕ
  pub family_id : ℕ
  pub token_hash : ℕ
  pub expires_at : ℕ
  pub revoked_at : Option ℕ
  pub replaced_by : Option ℕ
  pub ip : Option Text
  pub user_agent : Option Text

abbrev pub Table : Type 0
Table = List RefreshToken

-- What a call draws: the plaintext token, the row's id, and a new family.
pub record Draw : Type 0 where
  pub token : ℕ
  pub id : ℕ
  pub family : ℕ

-- The client's address and user agent, as the request gives them.
pub record Client : Type 0 where
  pub ip : Option Text
  pub user_agent : Option Text

pub record Library : Type 0 where
  -- `hashlib.sha256(token.encode("utf-8")).hexdigest()`
  pub hash_refresh_token : ℕ → ℕ
  -- `ipaddress.ip_address(value)` does not raise
  pub is_ip : Text → Bool

pub record IssuedRefreshToken : Type 0 where
  pub token : ℕ
  pub row : RefreshToken

-- What a response does to the cookie that holds the refresh token. A request that raises is answered
-- by the error handler with a response of its own, which has no cookie.
pub data Cookie : Type 0 where
  untouched cleared : Cookie
  set : ℕ → Cookie

abbrev pub is_none {ℓ} : {A : Type ℓ} → Option A → Bool
is_none none = true
is_none (some _) = false

abbrev pub invalid_token : AppError
invalid_token = plain Kind.authentication "Invalid refresh token."

abbrev pub expired_token : AppError
expired_token = plain Kind.authentication "Refresh token has expired."

abbrev pub missing_token : AppError
missing_token = plain Kind.authentication "No refresh token supplied."

-- `text[:400] or None` of a text that may be missing
unfoldable pub short_agent : Option Text → Option Text
short_agent none = none
short_agent (some s) = if is_empty s then none else some (take 400 s)

-- `update(...).where(family_id == f, revoked_at IS NULL).values(revoked_at=now)` on one row
unfoldable pub revoke_row : (RefreshToken → Bool) → ℕ → RefreshToken → RefreshToken
revoke_row selects now r =
    if selects r && is_none r.revoked_at then record r { revoked_at = some now } else r

unfoldable pub revoke_where : (RefreshToken → Bool) → ℕ → Table → Table
unfolding revoke_row
revoke_where selects now [] = []
revoke_where selects now (r ∷ db) = revoke_row selects now r ∷ revoke_where selects now db

-- `result.rowcount`
unfoldable pub count_where : (RefreshToken → Bool) → Table → ℕ
count_where selects [] = 0
count_where selects (r ∷ db) =
    if selects r && is_none r.revoked_at then count_where selects db + 1 else count_where selects db

unfoldable pub revoke_family : ℕ → ℕ → Table → Table × ℕ
unfolding revoke_where count_where
revoke_family family now db =
    (revoke_where (λ r. r.family_id == family) now db, count_where (λ r. r.family_id == family) db)

unfoldable pub revoke_all_for_user : ℕ → ℕ → Table → Table × ℕ
unfolding revoke_where count_where
revoke_all_for_user user now db =
    (revoke_where (λ r. r.user_id == user) now db, count_where (λ r. r.user_id == user) db)

-- `db.scalar(select(RefreshToken).where(RefreshToken.token_hash == h))`
unfoldable pub find_token : ℕ → Table → Option RefreshToken
find_token h [] = none
find_token h (r ∷ db) = if r.token_hash == h then some r else find_token h db

-- The assignments to the record that was rotated.
unfoldable pub spend : ℕ → ℕ → ℕ → Table → Table
spend h now successor [] = []
spend h now successor (r ∷ db) =
    if r.token_hash == h
    then record r { revoked_at = some now; replaced_by = some successor } ∷ db
    else r ∷ spend h now successor db

module _ (lib : Library) (refresh_token_ttl_days : ℕ) where
  unfoldable pub coerce_ip : Option Text → Option Text
  coerce_ip none = none
  coerce_ip (some s) = if is_empty s then none else if lib.is_ip s then some s else none

  abbrev pub family_or : ℕ → Option ℕ → ℕ
  family_or new none = new
  family_or new (some f) = f

  unfoldable pub new_row : ℕ → ℕ → Option ℕ → Client → Draw → RefreshToken
  unfolding coerce_ip short_agent
  new_row now user family client draw = record {
    id = draw.id;
    user_id = user;
    family_id = family_or draw.family family;
    token_hash = lib.hash_refresh_token draw.token;
    expires_at = now + refresh_token_ttl_days * 86_400_000_000;
    revoked_at = none;
    replaced_by = none;
    ip = coerce_ip client.ip;
    user_agent = short_agent client.user_agent;
  }

  unfoldable pub issue : ℕ → ℕ → Option ℕ → Client → Draw → Table → Table × IssuedRefreshToken
  unfolding new_row
  issue now user family client draw db =
      let row = new_row now user family client draw in
      (db ++ row ∷ [], record { token = draw.token; row = row })

  -- The result of `rotate`, and the table that its caller commits.
  unfoldable pub rotate : ℕ → ℕ → Client → Draw → Table → Result (ℕ × IssuedRefreshToken) × Table
  unfolding find_token revoke_family issue spend
  rotate now presented client draw db =
      let h = lib.hash_refresh_token presented in
      elim (find_token h db) [
        | none ↦ (err invalid_token, db)
        | some r ↦
            (if is_none r.revoked_at
              then (if leb r.expires_at now
                  then (err expired_token, db)
                  else (let (db', issued) = issue now r.user_id (some r.family_id) client draw db in
                      (ok (r.user_id, issued), spend h now issued.row.id db')))
              else (err invalid_token, (revoke_family r.family_id now db).0))
      ]

  unfoldable pub revoke_by_token : ℕ → ℕ → Table → Table
  unfolding find_token revoke_family
  revoke_by_token now presented db = elim (find_token (lib.hash_refresh_token presented) db) [
    | none ↦ db
    | some r ↦ (revoke_family r.family_id now db).0
  ]

  -- `POST /auth/refresh`: the handler commits after an `AuthenticationError` too, so what `rotate`
  -- wrote before it raised is kept. A missing cookie and an empty one are `none`.
  unfoldable pub refresh :
      ℕ → Option ℕ → Client → Draw → Table → Result (ℕ × IssuedRefreshToken) × Cookie × Table
  unfolding rotate
  refresh now none client draw db = (err missing_token, untouched, db)
  refresh now (some presented) client draw db =
      let (result, db') = rotate now presented client draw db in
      elim result [
        | ok (user, issued) ↦ (ok (user, issued), set issued.token, db')
        | err e ↦ (err e, untouched, db')
      ]

  -- `POST /auth/logout`
  unfoldable pub logout : ℕ → Option ℕ → Table → Cookie × Table
  unfolding revoke_by_token
  logout now none db = (cleared, db)
  logout now (some presented) db = (cleared, revoke_by_token now presented db)

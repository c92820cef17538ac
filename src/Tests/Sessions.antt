-- ===== src/Tests/Sessions.antt =====
-- Runs of services/token_service.py: a login, a refresh, and the same token again.
use knowledgeos.Prelude.{◌≤◌, ℕ, ◌+◌, ◌≡◌, refl, true, none, some, [], ◌∷◌, arith}
use knowledgeos.Errors.{ok, err}
use knowledgeos.Tokens.{
  RefreshToken, Table, Draw, Client, Library, IssuedRefreshToken, invalid_token, find_token,
  new_row, issue, refresh,
}
use knowledgeos.Tokens.Rows.{live_count}
use knowledgeos.Tokens.Family.{
  Reach, Step, IsDead, Reach-IsSound, second_use_fails, dead_family_refuses,
}

abbrev lib : Library
lib = record { hash_refresh_token = λ t. t + 1000; is_ip = λ s. true }

abbrev client : Client
client = record { ip = none; user_agent = none }

abbrev draw : ℕ → Draw
draw n = record { token = n; id = n; family = n }

abbrev after_login : Table
after_login = (issue lib 30 5 1 none client (draw 1) []).0

login_step : Reach lib 30 [] after_login
unfolding find_token
login_step = Reach.next Reach.here (Step.login 5 1 client (draw 1) refl refl refl)

Reach-IsSound_example : live_count 1 after_login ≤ 1
Reach-IsSound_example = Reach-IsSound lib 30 (λ f. omega arith) login_step 1

abbrev refreshed : IssuedRefreshToken
refreshed = record { token = 2; row = new_row lib 30 6 1 (some 1) client (draw 2) }

abbrev after_refresh : Table
after_refresh = (refresh lib 30 6 (some 1) client (draw 2) after_login).2

success : (refresh lib 30 6 (some 1) client (draw 2) after_login).0 ≡ ok (1, refreshed)
unfolding refresh
success = refl

second_use_fails_example :
    let (answer, cookie, db) = refresh lib 30 7 (some 1) client (draw 3) after_refresh in
    (answer ≡ err invalid_token) × IsDead lib 30 1 db
unfolding new_row
second_use_fails_example =
    second_use_fails lib 30 6 1 1 client (draw 2) after_login after_refresh refreshed 7 client
      (draw 3) success Reach.here

abbrev dead_row : RefreshToken
dead_row = record {
  id = 1;
  user_id = 1;
  family_id = 1;
  token_hash = 1001;
  expires_at = 9;
  revoked_at = some 6;
  replaced_by = none;
  ip = none;
  user_agent = none;
}

dead_family_refuses_example :
    ((refresh lib 30 7 (some 1) client (draw 3) (dead_row ∷ [])).0 ≡ err invalid_token)
    × (live_count 1 (dead_row ∷ []) ≡ 0)
unfolding find_token
dead_family_refuses_example =
    dead_family_refuses lib 30 1 (dead_row ∷ []) (dead_row ∷ []) dead_row 7 1 client (draw 3)
      (refl, refl) Reach.here refl refl

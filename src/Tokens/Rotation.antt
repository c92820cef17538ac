-- ===== src/Tokens/Rotation.antt =====
-- The four ways in which `rotate` ends.
use knowledgeos.Prelude.{
  ℕ, ◌≡◌, refl, true, false, none, some, [], ◌∷◌, ◌++◌, leb, ◌==◌, Bool-cases, Option-cases, inl,
  inr,
}
use knowledgeos.Errors.{Result, ok, err}
use knowledgeos.Tokens.{
  RefreshToken, Table, Draw, Client, Library, IssuedRefreshToken, invalid_token, expired_token,
  is_none, revoke_where, find_token, spend, new_row, rotate,
}

module _ (lib : Library) (days : ℕ) (now presented : ℕ) (client : Client) (draw : Draw)
    (db : Table) where
  abbrev h : ℕ
  h = lib.hash_refresh_token presented

  abbrev pub successor : RefreshToken → RefreshToken
  successor r = new_row lib days now r.user_id (some r.family_id) client draw

  abbrev pub family_revoked : RefreshToken → Table
  family_revoked r = revoke_where (λ x. x.family_id == r.family_id) now db

  abbrev pub rotated_table : RefreshToken → Table
  rotated_table r = spend h now draw.id (db ++ successor r ∷ [])

  abbrev pub issued_token : RefreshToken → IssuedRefreshToken
  issued_token r = record { token = draw.token; row = successor r }

  pub data Ending (out : Result (ℕ × IssuedRefreshToken) × Table) : Type 0 where
    unknown : find_token h db ≡ none → out ≡ (err invalid_token, db) → Ending out
    reused :
        (r : RefreshToken)
        → find_token h db ≡ some r
        → is_none r.revoked_at ≡ false
        → out ≡ (err invalid_token, family_revoked r)
        → Ending out
    expired :
        (r : RefreshToken)
        → find_token h db ≡ some r
        → is_none r.revoked_at ≡ true
        → leb r.expires_at now ≡ true
        → out ≡ (err expired_token, db)
        → Ending out
    rotated :
        (r : RefreshToken)
        → find_token h db ≡ some r
        → is_none r.revoked_at ≡ true
        → leb r.expires_at now ≡ false
        → out ≡ (ok (r.user_id, issued_token r), rotated_table r)
        → Ending out

  -- `rotate` refuses an unknown token and changes nothing, refuses a spent one and revokes its family,
  -- refuses an expired one and changes nothing, or spends the token for a new one of its family.
  pub rotate-Ending : Ending (rotate lib days now presented client draw db)
  unfolding rotate
  rotate-Ending = elim (Option-cases (find_token h db)) [
    | inl missing ↦ unknown missing (rw (missing, rotate) refl)
    | inr (r, found) ↦ elim (Bool-cases (is_none r.revoked_at)) [
      | inr spent ↦ reused r found spent (rw (found, spent, rotate) refl)
      | inl live ↦ elim (Bool-cases (leb r.expires_at now)) [
        | inl late ↦ expired r found live late (rw (found, live, late, rotate) refl)
        | inr early ↦ rotated r found live early (rw (found, live, early, rotate) refl)
      ]
    ]
  ]

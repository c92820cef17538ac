-- ===== src/Tokens/Family.antt =====
-- Families of refresh tokens over any sequence of requests: one live token at most, and none ever
-- again once a spent token has been presented.
use mathlib.Core.Option.{some-injective}
use knowledgeos.Prelude.{
  ℕ, ◌≤◌, ◌≡◌, refl, sym, ◌∙◌, ap, subst, true, false, Option, none, some, [], ◌∷◌, ◌++◌, ◌==◌,
  arith, Bool-cases, Option-cases, inl, inr, contains,
}
use knowledgeos.Errors.{Result, ok, err}
use knowledgeos.Tokens.{
  RefreshToken, Table, Draw, Client, Library, IssuedRefreshToken, invalid_token, is_none,
  revoke_all_for_user, revoke_by_token, find_token, new_row, issue, rotate, refresh, logout, Cookie,
  set, untouched,
}
use knowledgeos.Tokens.Rows.{
  live_count, spent_row, families, find-append, find-spend, live_count-revoke_family, Effect,
  Effect-refl, Effect-revoke_where, Effect-rotated, Effect-append, IsSpent, families-revoke_where,
  find_token-family, find_token-live,
}
use knowledgeos.Tokens.Rotation.{
  successor, family_revoked, issued_token, Ending, unknown, reused, expired, rotated, rotate-Ending,
}

module _ (lib : Library) (days : ℕ) where
  -- One request: a login or a registration starts a family; a refresh, a logout, and the revocation
  -- of all the tokens of a user. A drawn token is new, and so is the family of a login.
  pub data Step (db : Table) (db' : Table) : Type 0 where
    login :
        (now user : ℕ) (client : Client) (draw : Draw)
        → contains draw.family (families db) ≡ false
        → find_token (lib.hash_refresh_token draw.token) db ≡ none
        → db' ≡ (issue lib days now user none client draw db).0
        → Step db db'
    renew :
        (now : ℕ) (cookie : Option ℕ) (client : Client) (draw : Draw)
        → find_token (lib.hash_refresh_token draw.token) db ≡ none
        → db' ≡ (refresh lib days now cookie client draw db).2
        → Step db db'
    sign_out : (now : ℕ) (cookie : Option ℕ) → db' ≡ (logout lib days now cookie db).1 → Step db db'
    revoke_user : (now user : ℕ) → db' ≡ (revoke_all_for_user user now db).0 → Step db db'

  pub data Reach (db : Table) : Table → Type 0 where
    here : Reach db db
    next : {t u : Table} → Reach db t → Step t u → Reach db u

  -- `refresh` keeps what `rotate` wrote, and answers as it did.
  refresh-rotate :
      (now presented : ℕ) (client : Client) (draw : Draw) (db : Table)
      → ((refresh lib days now (some presented) client draw db).2
          ≡ (rotate lib days now presented client draw db).1)
        × ((refresh lib days now (some presented) client draw db).0
            ≡ (rotate lib days now presented client draw db).0)
  unfolding refresh
  refresh-rotate now presented client draw db =
      by_result (rotate lib days now presented client draw db)
    where
      by_result :
          (out : Result (ℕ × IssuedRefreshToken) × Table)
          → let (result, db') = out in
            let answer : Result (ℕ × IssuedRefreshToken) × Cookie × Table = elim result [
              | ok (user, issued) ↦ (ok (user, issued), set issued.token, db')
              | err e ↦ (err e, untouched, db')
            ] in
            (answer.2 ≡ out.1) × (answer.0 ≡ out.0)
      by_result (ok (user, issued), db') = (refl, refl)
      by_result (err e, db') = (refl, refl)

  rotate-Effect :
      (now presented : ℕ) (client : Client) (draw : Draw) (db : Table)
      → Effect db (rotate lib days now presented client draw db).1
  rotate-Effect now presented client draw db =
      by_ending (rotate lib days now presented client draw db)
        (rotate-Ending lib days now presented client draw db)
    where
      by_ending :
          (out : Result (ℕ × IssuedRefreshToken) × Table)
          → Ending lib days now presented client draw db out
          → Effect db out.1
      by_ending out (unknown _ e) = rw e (Effect-refl db)
      by_ending out (reused r _ _ e) =
          rw e (Effect-revoke_where (λ x. x.family_id == r.family_id) now db)
      by_ending out (expired r _ _ _ e) = rw e (Effect-refl db)
      by_ending out (rotated r found live _ e) = rw e (
          Effect-rotated (lib.hash_refresh_token presented) now draw.id db r
            (successor lib days now presented client draw db r) found live (unfold new_row in refl)
            (unfold new_row in refl))

  logout-Effect :
      (now presented : ℕ) (db : Table) → Effect db (logout lib days now (some presented) db).1
  unfolding logout
  logout-Effect now presented db =
      elim (Option-cases (find_token (lib.hash_refresh_token presented) db)) [
        | inl missing ↦ rw (missing, logout, revoke_by_token) (Effect-refl db)
        | inr (r, found) ↦
            rw (found, logout, revoke_by_token)
              (Effect-revoke_where (λ x. x.family_id == r.family_id) now db)
      ]

  Step-Effect : {db db' : Table} → Step db db' → Effect db db'
  Step-Effect {db} (login now user client draw fresh _ e) = rw e (
      unfold issue in
      Effect-append db (new_row lib days now user none client draw) (unfold new_row in fresh))
  Step-Effect {db} (renew now none client draw _ e) = rw e (unfold refresh in Effect-refl db)
  Step-Effect {db} (renew now (some presented) client draw _ e) =
      rw (e, (refresh-rotate now presented client draw db).0)
        (rotate-Effect now presented client draw db)
  Step-Effect {db} (sign_out now none e) = rw e (unfold logout in Effect-refl db)
  Step-Effect {db} (sign_out now (some presented) e) = rw e (logout-Effect now presented db)
  Step-Effect {db} (revoke_user now user e) =
      rw e (unfold revoke_all_for_user in Effect-revoke_where (λ r. r.user_id == user) now db)

  -- No family has two tokens that are not revoked.
  abbrev pub IsSound : Table → Type 0
  IsSound db = (f : ℕ) → live_count f db ≤ 1

  Step-IsSound : {db db' : Table} → Step db db' → IsSound db → IsSound db'
  Step-IsSound st sound f = elim ((Step-Effect st).live f) [
    | inl fewer ↦ omega (arith, sound f)
    | inr (_, one) ↦ one
  ]

  -- Over any sequence of logins, refreshes, logouts and revocations, a family has at most one token
  -- that is not revoked, if it had at most one at the start.
  pub Reach-IsSound : {db db' : Table} → IsSound db → Reach db db' → IsSound db'
  Reach-IsSound sound here = sound
  Reach-IsSound sound (next r st) = Step-IsSound st (Reach-IsSound sound r)

  -- A family that exists and has no live token.
  abbrev pub IsDead : ℕ → Table → Type 0
  IsDead f db = (contains f (families db) ≡ true) × (live_count f db ≡ 0)

  Step-IsDead : (f : ℕ) {db db' : Table} → Step db db' → IsDead f db → IsDead f db'
  Step-IsDead f st (known, none_live) =
      let effect = Step-Effect st in
      (
        effect.known f known,
        elim (effect.live f) [
          | inl fewer ↦ omega (arith, none_live)
          | inr (new, _) ↦ cc (known, new)
        ],
      )

  Reach-IsDead : (f : ℕ) {db db' : Table} → IsDead f db → Reach db db' → IsDead f db'
  Reach-IsDead f dead here = dead
  Reach-IsDead f dead (next r st) = Step-IsDead f st (Reach-IsDead f dead r)

  Reach-IsSpent : (j f : ℕ) {db db' : Table} → IsSpent j f db → Reach db db' → IsSpent j f db'
  Reach-IsSpent j f spent here = spent
  Reach-IsSpent j f spent (next r st) = (Step-Effect st).spent j f (Reach-IsSpent j f spent r)

  -- Presenting a spent token is refused, and kills its family.
  refresh_spent :
      (now presented f : ℕ) (client : Client) (draw : Draw) (db : Table)
      → IsSpent (lib.hash_refresh_token presented) f db
      → let (answer, cookie, db') = refresh lib days now (some presented) client draw db in
        (answer ≡ err invalid_token) × IsDead f db'
  refresh_spent now presented f client draw db (x, found, family, gone) =
      let (table, answer) = refresh-rotate now presented client draw db in
      let (e, dead) =
        by_ending (rotate lib days now presented client draw db)
          (rotate-Ending lib days now presented client draw db) in
      (answer ∙ e, subst (IsDead f) (sym table) dead)
    where
      by_ending :
          (out : Result (ℕ × IssuedRefreshToken) × Table)
          → Ending lib days now presented client draw db out
          → (out.0 ≡ err invalid_token) × IsDead f out.1
      by_ending out (unknown missing e) = cc (found, missing)
      by_ending out (expired r also live _ e) =
          cc (some-injective x r (sym found ∙ also), gone, live)
      by_ending out (rotated r also live _ e) =
          cc (some-injective x r (sym found ∙ also), gone, live)
      by_ending out (reused r also _ e) =
          let same : r.family_id ≡ f =
            ap (λ (y : RefreshToken). y.family_id) (some-injective r x (sym also ∙ found))
            ∙ family in
          rw e (
            refl,
            (
              rw families-revoke_where (
                  subst (λ (g : ℕ). contains g (families db) ≡ true) same
                    (find_token-family (lib.hash_refresh_token presented) db r also).0),
              subst
                  (λ (g : ℕ).
                    live_count g (family_revoked lib days now presented client draw db r) ≡ 0)
                  same (live_count-revoke_family r.family_id now db),
            ),
          )

  -- A successful rotation leaves the presented token spent, in the family of the issued one.
  refresh-IsSpent :
      (now presented user : ℕ) (client : Client) (draw : Draw) (db : Table)
      (issued : IssuedRefreshToken)
      → (refresh lib days now (some presented) client draw db).0 ≡ ok (user, issued)
      → IsSpent
          (lib.hash_refresh_token presented)
          issued.row.family_id
          (refresh lib days now (some presented) client draw db).2
  refresh-IsSpent now presented user client draw db issued success =
      let (table, answer) = refresh-rotate now presented client draw db in
      subst (IsSpent (lib.hash_refresh_token presented) issued.row.family_id) (sym table) (
        by_ending (rotate lib days now presented client draw db)
          (rotate-Ending lib days now presented client draw db) (sym answer ∙ success))
    where
      row_family :
          (r : RefreshToken)
          → (successor lib days now presented client draw db r).family_id ≡ r.family_id
      row_family r = unfold new_row in refl

      same_family :
          (r : RefreshToken) (other : IssuedRefreshToken)
          → (successor lib days now presented client draw db r).family_id ≡ r.family_id
          → ◌≡◌ {A = Result (ℕ × IssuedRefreshToken)}
              (ok (r.user_id, issued_token lib days now presented client draw db r))
              (ok (user, other))
          → r.family_id ≡ other.row.family_id
      same_family r other f e = cc

      by_ending :
          (out : Result (ℕ × IssuedRefreshToken) × Table)
          → Ending lib days now presented client draw db out
          → out.0 ≡ ok (user, issued)
          → IsSpent (lib.hash_refresh_token presented) issued.row.family_id out.1
      by_ending out (unknown _ e) s = cc (e, s)
      by_ending out (reused r _ _ e) s = cc (e, s)
      by_ending out (expired r _ _ _ e) s = cc (e, s)
      by_ending out (rotated r found _ _ e) s =
          let h = lib.hash_refresh_token presented in
          let row = successor lib days now presented client draw db r in
          (
            spent_row now draw.id r,
            rw e (
                ground (
                  arith,
                  found,
                  find-append h db row,
                  find-spend h h now draw.id (db ++ row ∷ []),
                )),
            same_family r issued (row_family r) (cc (e, s)),
            refl,
          )

  -- Once a rotation has succeeded, the token that was presented is refused ever after, whatever
  -- requests come between, and the request that presents it again leaves its family with no live
  -- token.
  pub second_use_fails :
      (now presented user : ℕ) (client : Client) (draw : Draw) (db db' : Table)
      (issued : IssuedRefreshToken) (now' : ℕ) (client' : Client) (draw' : Draw)
      → (refresh lib days now (some presented) client draw db).0 ≡ ok (user, issued)
      → Reach (refresh lib days now (some presented) client draw db).2 db'
      → let (answer, cookie, db'') = refresh lib days now' (some presented) client' draw' db' in
        (answer ≡ err invalid_token) × IsDead issued.row.family_id db''
  second_use_fails now presented user client draw db db' issued now' client' draw' success reach =
      let f = issued.row.family_id in
      refresh_spent now' presented f client' draw' db' (
        Reach-IsSpent (lib.hash_refresh_token presented) f
          (refresh-IsSpent now presented user client draw db issued success) reach)

  -- After the last live token of a family is gone, no request brings one back, and every token of
  -- the family that is presented is refused.
  pub dead_family_refuses :
      (f : ℕ) (db db' : Table) (row : RefreshToken) (now presented : ℕ) (client : Client)
      (draw : Draw)
      → IsDead f db
      → Reach db db'
      → find_token (lib.hash_refresh_token presented) db' ≡ some row
      → row.family_id ≡ f
      → ((refresh lib days now (some presented) client draw db').0 ≡ err invalid_token)
        × (live_count f db' ≡ 0)
  dead_family_refuses f db db' row now presented client draw dead reach found family =
      let (_, none_live) = Reach-IsDead f dead reach in
      elim (Bool-cases (is_none row.revoked_at)) [
        | inl live ↦ absurd (
            omega (
              arith,
              none_live,
              subst (λ (g : ℕ). 1 ≤ live_count g db') family
                  (find_token-live (lib.hash_refresh_token presented) db' row found live),
            ))
        | inr gone ↦ (
          (refresh_spent now presented f client draw db' (row, found, family, gone)).0,
          none_live,
        )
      ]

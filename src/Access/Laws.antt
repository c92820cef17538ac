-- ===== src/Access/Laws.antt =====
-- api/deps.py: what an answer of `workspace_context` says of the memberships in the tables.
use mathlib.Core.Option.{some-injective}
use knowledgeos.Prelude.{
  ℕ, ◌≡◌, ◌&&◌, Option, none, some, arith, ◌==◌, if◌then◌else◌, Any, search_rows-some, Any-imp,
  refl, Bool, true, false, sym, ap, subst, Any-elim, when_some, ◌∙◌,
}
use knowledgeos.Access.{
  or_not_found, membership_role, Role, Membership, Tables, User, Organization, Workspace,
  WorkspaceContext, workspace_row, workspace_context,
}
use knowledgeos.Errors.{AppError, ok}

-- A membership of the user in the organization with the role.
abbrev pub IsMember : Tables → ℕ → ℕ → Role → Type 0
IsMember db org user role =
    Any (λ (m : Membership). (m.org_id ≡ org) × (m.user_id ≡ user) × (m.role ≡ role)) db.memberships

pub ok_inj :
    {A : Type 0} (e : AppError) (o : Option A) (a : A) → or_not_found e o ≡ ok a → o ≡ some a
ok_inj e none a h = cc h
ok_inj e (some b) a h = cc h

membership_IsRow :
    (org user : ℕ) (role : Role) (m : Membership)
    → (if m.org_id == org && m.user_id == user then some m.role else none) ≡ some role
    → (m.org_id ≡ org) × (m.user_id ≡ user) × (m.role ≡ role)
membership_IsRow org user role m h = ground arith

pub membership_role-IsMember :
    (db : Tables) (org user : ℕ) (role : Role)
    → membership_role db org user ≡ some role
    → IsMember db org user role
unfolding membership_role
membership_role-IsMember db org user role h =
    Any-imp _ _ db.memberships (membership_IsRow org user role) (search_rows-some _ _ role h)

pub row_some :
    {A B : Type 0} (same : Bool) (f : B → A) (o : Option B) (a : A)
    → (if same then (elim o [ none ↦ none | some b ↦ some (f b) ]) else none) ≡ some a
    → (same ≡ true) × ((b : B) × (o ≡ some b) × (f b ≡ a))
row_some true f none a h = cc h
row_some true f (some b) a h = (refl, (b, refl, some-injective _ _ h))
row_some false f o a h = cc h

organization_IsRow :
    (db : Tables) (user : User) (w : Workspace) (ctx : WorkspaceContext) (o : Organization)
    → (if o.id == w.org_id
        then (elim (membership_role db o.id user.id) [
          | none ↦ none
          | some role ↦ some (record { user = user; workspace = w; organization = o; role = role })
        ])
        else none)
      ≡ some ctx
    → (ctx.user ≡ user) × (ctx.workspace ≡ w) × IsMember db w.org_id user.id ctx.role
organization_IsRow db user w ctx o h =
    let (same, (role, found, made)) =
      row_some (o.id == w.org_id)
        (λ role. record { user = user; workspace = w; organization = o; role = role })
        (membership_role db o.id user.id) ctx h in
    let id : o.id ≡ w.org_id = ground (arith, same) in
    (
      ap (λ (c : WorkspaceContext). c.user) (sym made),
      ap (λ (c : WorkspaceContext). c.workspace) (sym made),
      subst (λ r. IsMember db w.org_id user.id r) (ap (λ (c : WorkspaceContext). c.role) made)
          (membership_role-IsMember db w.org_id user.id role
            (subst (λ k. membership_role db k user.id ≡ some role) id found)),
    )

workspace_IsRow :
    (db : Tables) (user : User) (id : ℕ) (ctx : WorkspaceContext) (w : Workspace)
    → workspace_row db user id w ≡ some ctx
    → (ctx.user ≡ user)
      × (ctx.workspace ≡ w)
      × (w.id ≡ id)
      × IsMember db ctx.workspace.org_id user.id ctx.role
unfolding workspace_row
workspace_IsRow db user id ctx w h =
    let (same, found) = when_some (w.id == id) _ ctx h in
    let (who, what, member) =
      Any-elim _ ((ctx.user ≡ user) × (ctx.workspace ≡ w) × IsMember db w.org_id user.id ctx.role)
        db.organizations (organization_IsRow db user w ctx)
        (search_rows-some _ db.organizations ctx found) in
    (
      who,
      what,
      ground (arith, same),
      subst (λ (v : Workspace). IsMember db v.org_id user.id ctx.role) (sym what) member,
    )

-- Of a context that a request gets, the workspace is one of the table with the id asked for, and the
-- user is a member of its organization with the role of the context.
pub workspace_context-IsMember :
    (db : Tables) (user : User) (id : ℕ) (ctx : WorkspaceContext)
    → workspace_context db user id ≡ ok ctx
    → (ctx.user ≡ user)
      × (ctx.workspace.id ≡ id)
      × Any (λ (w : Workspace). w ≡ ctx.workspace) db.workspaces
      × IsMember db ctx.workspace.org_id user.id ctx.role
unfolding workspace_context
workspace_context-IsMember db user id ctx h =
    let rows = search_rows-some (workspace_row db user id) db.workspaces ctx (ok_inj _ _ ctx h) in
    let (who, same, member) =
      Any-elim _
        ((ctx.user ≡ user)
          × (ctx.workspace.id ≡ id)
          × IsMember db ctx.workspace.org_id user.id ctx.role)
        db.workspaces
        (λ w found.
          let (who, what, same, member) = workspace_IsRow db user id ctx w found in
          (who, ap (λ (v : Workspace). v.id) what ∙ same, member))
        rows in
    let place =
      Any-imp _ (λ (w : Workspace). w ≡ ctx.workspace) db.workspaces
        (λ w found. sym (workspace_IsRow db user id ctx w found).1) rows in
    (who, same, place, member)

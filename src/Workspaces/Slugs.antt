-- ===== src/Workspaces/Slugs.antt =====
-- api/v1/workspaces.py: the slugs of an organization's workspaces.
use knowledgeos.Prelude.{
  ◌≡◌, ℕ, Bool, true, false, Option, none, some, List, [], ◌∷◌, if◌then◌else◌, All, All-imp,
  Bool-cases, inl, inr, subst, refl, ap, arith, search_rows, search_rows-none, ◌==◌,
}
use knowledgeos.Text.{Text}
use knowledgeos.Errors.{AppError, Result, ok, err}
use knowledgeos.Access.{
  Tables, User, Workspace, WorkspaceContext, Organization, organization_membership, satisfies, Role,
  workspace_context, require,
}
use knowledgeos.Workspaces.{
  takes_slug, slug_row, add_workspace, create_workspace, set_workspace, renamed, update_workspace,
}

-- No two workspaces of one organization have one slug.
abbrev pub IsUnique : List Workspace → Type 0
IsUnique [] = Unit
IsUnique (w ∷ ws) = All (λ v. takes_slug w.org_id w.slug v ≡ false) ws × IsUnique ws

slug_row-none :
    (org : ℕ) (slug : Text) (w : Workspace)
    → slug_row org slug w ≡ none
    → takes_slug org slug w ≡ false
unfolding slug_row
slug_row-none org slug w h = ground arith

slug_rows-none :
    (org : ℕ) (slug : Text) (ws : List Workspace)
    → search_rows (slug_row org slug) ws ≡ none
    → All (λ v. takes_slug org slug v ≡ false) ws
slug_rows-none org slug ws h =
    All-imp _ _ ws (slug_row-none org slug) (search_rows-none (slug_row org slug) ws h)

tables_inj : (s t : Tables) → ◌≡◌ {A = Result Tables} (ok s) (ok t) → s ≡ t
tables_inj s t h = cc h

with_new :
    (found : Option ℕ) (db : Tables) (w : Workspace) (e : AppError) (after : Tables)
    → ◌≡◌ {A = Result Tables}
        (elim found [ some _ ↦ err e | none ↦ ok (record db { workspaces = w ∷ db.workspaces }) ])
        (ok after)
    → (found ≡ none) × (w ∷ db.workspaces ≡ after.workspaces)
with_new none db w e after h = (refl, ap (λ (t : Tables). t.workspaces) (tables_inj _ _ h))
with_new (some _) db w e after h = cc h

add_workspace-IsUnique :
    (db : Tables) (w : Workspace) (after : Tables)
    → IsUnique db.workspaces
    → add_workspace db w ≡ ok after
    → IsUnique after.workspaces
unfolding add_workspace
add_workspace-IsUnique db w after unique h =
    let (free, rows) = with_new _ db w _ after h in
    subst IsUnique rows (slug_rows-none w.org_id w.slug db.workspaces free, unique)

if_allowed-IsUnique :
    (allowed : Bool) (db : Tables) (w : Workspace) (e : AppError) (after : Tables)
    → IsUnique db.workspaces
    → (if allowed then add_workspace db w else err e) ≡ ok after
    → IsUnique after.workspaces
if_allowed-IsUnique true db w e after unique h = add_workspace-IsUnique db w after unique h
if_allowed-IsUnique false db w e after unique h = cc h

if_member-IsUnique :
    (found : Result (Organization × Role)) (f : Organization → Role → Result Tables)
    (after : Tables)
    → ((o : Organization) (role : Role) → f o role ≡ ok after → IsUnique after.workspaces)
    → ◌≡◌ {A = Result Tables} (elim found [ err e ↦ err e | ok (o, role) ↦ f o role ]) (ok after)
    → IsUnique after.workspaces
if_member-IsUnique (err e) f after each h = cc h
if_member-IsUnique (ok (o, role)) f after each h = each o role h

-- After `create_workspace`, no two workspaces of an organization have one slug, where none had
-- before.
pub create_workspace-IsUnique :
    (normalize : Text → Text) (db : Tables) (user : User) (org new_id : ℕ) (name : Text)
    (description : Option Text) (after : Tables)
    → IsUnique db.workspaces
    → create_workspace normalize db user org new_id name description ≡ ok after
    → IsUnique after.workspaces
unfolding create_workspace
create_workspace-IsUnique normalize db user org new_id name description after unique h =
    if_member-IsUnique (organization_membership db user org) _ after
      (λ o role. if_allowed-IsUnique (satisfies role Role.admin) db _ _ after unique) h

module _ (name : Option Text) (description : Option Text) where
  renamed-All :
      (org : ℕ) (slug : Text) (id : ℕ) (ws : List Workspace)
      → All (λ v. takes_slug org slug v ≡ false) ws
      → All (λ v. takes_slug org slug v ≡ false) (set_workspace id (renamed name description) ws)
  unfolding set_workspace takes_slug
  renamed-All org slug id [] all = tt
  renamed-All org slug id (w ∷ ws) (first, rest) = elim (Bool-cases (w.id == id)) [
    | inl here ↦ rw here (first, rest)
    | inr later ↦ rw later (first, renamed-All org slug id ws rest)
  ]

  set_workspace-IsUnique :
      (id : ℕ) (ws : List Workspace)
      → IsUnique ws
      → IsUnique (set_workspace id (renamed name description) ws)
  unfolding set_workspace
  set_workspace-IsUnique id [] unique = tt
  set_workspace-IsUnique id (w ∷ ws) (first, rest) = elim (Bool-cases (w.id == id)) [
    | inl here ↦ rw here (first, rest)
    | inr later ↦
        rw later (renamed-All w.org_id w.slug id ws first, set_workspace-IsUnique id ws rest)
  ]

required :
    (allowed : Result (Unit {0})) (next after : Tables)
    → IsUnique next.workspaces
    → ◌≡◌ {A = Result Tables} (elim allowed [ err e ↦ err e | ok _ ↦ ok next ]) (ok after)
    → IsUnique after.workspaces
required (err e) next after unique h = cc h
required (ok _) next after unique h =
    subst (λ (t : Tables). IsUnique t.workspaces) (tables_inj _ _ h) unique

if_context-IsUnique :
    (found : Result WorkspaceContext) (allowed : WorkspaceContext → Result (Unit {0}))
    (next : WorkspaceContext → Tables) (after : Tables)
    → ((ctx : WorkspaceContext) → IsUnique (next ctx).workspaces)
    → ◌≡◌ {A = Result Tables}
        (elim found [
          | err e ↦ err e
          | ok ctx ↦ (elim (allowed ctx) [ err e ↦ err e | ok _ ↦ ok (next ctx) ])
        ])
        (ok after)
    → IsUnique after.workspaces
if_context-IsUnique (err e) allowed next after each h = cc h
if_context-IsUnique (ok ctx) allowed next after each h =
    required (allowed ctx) (next ctx) after (each ctx) h

-- `update_workspace` keeps the slugs of each organization's workspaces apart.
update_workspace-IsUnique :
    (db : Tables) (user : User) (id : ℕ) (name description : Option Text) (after : Tables)
    → IsUnique db.workspaces
    → update_workspace db user id name description ≡ ok after
    → IsUnique after.workspaces
unfolding update_workspace
update_workspace-IsUnique db user id name description after unique h =
    if_context-IsUnique (workspace_context db user id) (λ ctx. require ctx Role.admin) _ after
      (λ ctx. set_workspace-IsUnique name description ctx.workspace.id db.workspaces unique) h

-- ===== src/Access/Loads.antt =====
-- api/deps.py: what an answer of `_load_document` or `_load_conversation` says of the memberships in
-- the tables.
use knowledgeos.Prelude.{
  ℕ, ◌≡◌, Option, none, some, arith, ◌==◌, if◌then◌else◌, Any, search_rows-some, Any-imp, refl,
  Bool, true, false, sym, ap, subst, Any-elim, ◌≤◌, ◌⊎◌,
}
use knowledgeos.Access.{
  membership_role, Role, Tables, User, Workspace, rank, satisfies, workspace_role, document_row,
  load_document, conversation_row, may_read, load_conversation, Conversation,
  conversation_not_found,
}
use knowledgeos.Errors.{AppError, Result, ok, err}
use knowledgeos.Content.{Document}
use knowledgeos.Access.Laws.{IsMember, ok_inj, row_some, membership_role-IsMember}

workspace_role_IsRow :
    (db : Tables) (user : User) (id : ℕ) (found : Workspace × Role) (w : Workspace)
    → (if w.id == id
        then (elim (membership_role db w.org_id user.id) [
          | none ↦ none
          | some role ↦ some (w, role)
        ])
        else none)
      ≡ some found
    → (w.id ≡ id) × (found.0 ≡ w) × IsMember db found.0.org_id user.id found.1
workspace_role_IsRow db user id found w h =
    let (same, (role, held, made)) =
      row_some (w.id == id) (λ role. (w, role)) (membership_role db w.org_id user.id) found h in
    (
      ground (arith, same),
      ap (λ (p : Workspace × Role). p.0) (sym made),
      subst (λ (p : Workspace × Role). IsMember db p.0.org_id user.id p.1) made
          (membership_role-IsMember db w.org_id user.id role held),
    )

-- The user has the role in a workspace of the table with the id.
abbrev pub HasRole : Tables → User → ℕ → Role → Type 0
HasRole db user workspace role =
    Any (λ (w : Workspace). (w.id ≡ workspace) × IsMember db w.org_id user.id role) db.workspaces

workspace_role-HasRole :
    (db : Tables) (user : User) (id : ℕ) (w : Workspace) (role : Role)
    → workspace_role db user id ≡ some (w, role)
    → HasRole db user id role
unfolding workspace_role
workspace_role-HasRole db user id w role h =
    Any-imp _ (λ (v : Workspace). (v.id ≡ id) × IsMember db v.org_id user.id role) db.workspaces
      (λ v found.
        let (same, what, member) = workspace_role_IsRow db user id (w, role) v found in
        (same, subst (λ (u : Workspace). IsMember db u.org_id user.id role) what member))
      (search_rows-some _ db.workspaces (w, role) h)

-- A row of an item that stands in a workspace.
placed_row :
    {B : Type 0} (db : Tables) (user : User) (same : Bool) (workspace : ℕ)
    (f : Workspace → Role → B) (b : B)
    → (if same
        then (elim (workspace_role db user workspace) [
          | none ↦ none
          | some (w, role) ↦ some (f w role)
        ])
        else none)
      ≡ some b
    → (same ≡ true)
      × ((w : Workspace) × (role : Role) × (f w role ≡ b) × HasRole db user workspace role)
placed_row db user same workspace f b h =
    let (yes_same, (found, held, made)) =
      row_some same (λ (p : Workspace × Role). f p.0 p.1) (workspace_role db user workspace) b h in
    (
      yes_same,
      (found.0, found.1, made, workspace_role-HasRole db user workspace found.0 found.1 held),
    )

document_IsRow :
    (db : Tables) (user : User) (id : ℕ) (d : Document) (role : Role) (e : Document)
    → document_row db user id e ≡ some (d, role)
    → (e ≡ d) × (e.id ≡ id) × HasRole db user d.workspace_id role
unfolding document_row
document_IsRow db user id d role e h =
    let (same, (w, held, made, has)) =
      placed_row db user (e.id == id) e.workspace_id (λ w r. (e, r)) (d, role) h in
    (
      ap (λ (p : Document × Role). p.0) made,
      ground (arith, same),
      subst (λ (p : Document × Role). HasRole db user p.0.workspace_id p.1) made has,
    )

conversation_IsRow :
    (db : Tables) (user : User) (id : ℕ) (c : Conversation) (w : Workspace) (role : Role)
    (e : Conversation)
    → conversation_row db user id e ≡ some (c, w, role)
    → (e ≡ c) × (e.id ≡ id) × HasRole db user c.workspace_id role
unfolding conversation_row
conversation_IsRow db user id c w role e h =
    let (same, (v, held, made, has)) =
      placed_row db user (e.id == id) e.workspace_id (λ w r. (e, w, r)) (c, w, role) h in
    (
      ap (λ (p : Conversation × Workspace × Role). p.0) made,
      ground (arith, same),
      subst (λ (p : Conversation × Workspace × Role). HasRole db user p.0.workspace_id p.2) made
          has,
    )

-- A document is given only as the row with the id asked for, to a member of the organization of its
-- workspace, with the role of the membership.
pub load_document-HasRole :
    (db : Tables) (user : User) (id : ℕ) (d : Document) (role : Role)
    → load_document db user id ≡ ok (d, role)
    → Any (λ (e : Document). (e ≡ d) × (e.id ≡ id)) db.documents
      × HasRole db user d.workspace_id role
unfolding load_document
load_document-HasRole db user id d role h =
    let rows = search_rows-some (document_row db user id) db.documents (d, role) (ok_inj _ _ _ h) in
    (
      Any-imp _ _ db.documents
          (λ e found.
            let (same, key, has) = document_IsRow db user id d role e found in (same, key))
          rows,
      Any-elim _ _ db.documents (λ e found. (document_IsRow db user id d role e found).2) rows,
    )

test_ok :
    {A : Type 0} (b : Bool) (x y : A) (e : AppError)
    → (if b then ok x else err e) ≡ ok y
    → (b ≡ true) × (x ≡ y)
test_ok true x y e h = (refl, cc h)
test_ok false x y e h = cc h

may_read-IsAllowed :
    (user : User) (c : Conversation) (role : Role)
    → may_read user c role ≡ true
    → (c.user_id ≡ user.id) ⊎ (rank Role.admin ≤ rank role)
unfolding may_read satisfies
may_read-IsAllowed user c role h = ground arith

readable :
    (user : User) (o : Option (Conversation × Workspace × Role)) (c : Conversation) (w : Workspace)
    (role : Role)
    → ◌≡◌ {A = Result (Conversation × Workspace × Role)}
        (elim o [
          | none ↦ err conversation_not_found
          | some (d, v, r) ↦
              (if may_read user d r then ok (d, v, r) else err conversation_not_found)
        ])
        (ok (c, w, role))
    → (o ≡ some (c, w, role)) × ((c.user_id ≡ user.id) ⊎ (rank Role.admin ≤ rank role))
readable user none c w role h = cc h
readable user (some (d, v, r)) c w role h =
    let (allowed, same) = test_ok (may_read user d r) (d, v, r) (c, w, role) _ h in
    (
      ap some same,
      subst
          (λ (p : Conversation × Workspace × Role).
            (p.0.user_id ≡ user.id) ⊎ (rank Role.admin ≤ rank p.2))
          same (may_read-IsAllowed user d r allowed),
    )

-- A conversation is given only as the row with the id asked for, to a member of the organization of
-- its workspace who wrote it or is an admin there.
load_conversation-HasRole :
    (db : Tables) (user : User) (id : ℕ) (c : Conversation) (w : Workspace) (role : Role)
    → load_conversation db user id ≡ ok (c, w, role)
    → Any (λ (e : Conversation). (e ≡ c) × (e.id ≡ id)) db.conversations
      × HasRole db user c.workspace_id role
      × ((c.user_id ≡ user.id) ⊎ (rank Role.admin ≤ rank role))
unfolding load_conversation
load_conversation-HasRole db user id c w role h =
    let (found, allowed) = readable user _ c w role h in
    let rows = search_rows-some (conversation_row db user id) db.conversations _ found in
    (
      Any-imp _ _ db.conversations
          (λ e row.
            let (same, key, has) = conversation_IsRow db user id c w role e row in (same, key))
          rows,
      Any-elim _ _ db.conversations (λ e row. (conversation_IsRow db user id c w role e row).2)
          rows,
      allowed,
    )

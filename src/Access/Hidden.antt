-- ===== src/Access/Hidden.antt =====
-- api/deps.py and the loaders of api/v1: a row of an organization that the user is no member of cannot
-- be told from a row that is not there. Each loader is compared with itself on the user's part of the
-- tables.
use knowledgeos.Prelude.{
  ℕ, ◌≡◌, refl, ap, inl, inr, Bool, true, false, ◌&&◌, Option, none, some, List, [], ◌∷◌, arith,
  ◌==◌, if◌then◌else◌, Bool-cases, search_rows, subst,
}
use knowledgeos.Content.{Document}
use knowledgeos.Errors.{ok, err}
use knowledgeos.Access.{
  membership_role, workspace_role, User, Organization, Membership, Workspace, Conversation, Tables,
  workspace_row, workspace_context, organization_row, organization_membership, load_document,
  load_conversation, Role, WorkspaceContext, or_not_found, workspace_not_found,
  organization_not_found, document_not_found, conversation_not_found, document_row,
  conversation_row, may_read,
}

abbrev is_some : {A : Type 0} → Option A → Bool
is_some none = false
is_some (some a) = true

abbrev keep : {A : Type 0} → (A → Bool) → List A → List A
keep p [] = []
keep p (a ∷ rows) = if p a then a ∷ keep p rows else keep p rows

-- Rows that give nothing may be left out of a search.
search_rows-keep :
    {A B : Type 0} (f g : A → Option B) (p : A → Bool) (rows : List A)
    → ((a : A) → f a ≡ g a)
    → ((a : A) → p a ≡ false → g a ≡ none)
    → search_rows f (keep p rows) ≡ search_rows g rows
search_rows-keep f g p [] same hidden = refl
search_rows-keep f g p (a ∷ rows) same hidden = elim (Bool-cases (p a)) [
  | inl kept ↦ rw kept (rw (same a) (rw (search_rows-keep f g p rows same hidden) refl))
  | inr left_out ↦ rw left_out (rw (hidden a left_out) (search_rows-keep f g p rows same hidden))
]

-- The part of the tables that a user's memberships lead to.
unfoldable pub visible : Tables → User → Tables
visible db user = record db {
  memberships = keep (λ (m : Membership). m.user_id == user.id) db.memberships;
  organizations =
      keep (λ (o : Organization). is_some (membership_role db o.id user.id)) db.organizations;
  workspaces =
      keep (λ (w : Workspace). is_some (membership_role db w.org_id user.id)) db.workspaces;
  documents = keep (λ (d : Document). is_some (workspace_role db user d.workspace_id)) db.documents;
  conversations =
      keep (λ (c : Conversation). is_some (workspace_role db user c.workspace_id)) db.conversations;
}

membership_role-visible :
    (db : Tables) (user : User) (org : ℕ)
    → membership_role (visible db user) org user.id ≡ membership_role db org user.id
unfolding membership_role visible
membership_role-visible db user org =
    search_rows-keep
      (λ (m : Membership). if m.org_id == org && m.user_id == user.id then some m.role else none)
      (λ (m : Membership). if m.org_id == org && m.user_id == user.id then some m.role else none)
      (λ (m : Membership). m.user_id == user.id) db.memberships (λ m. refl)
      (λ m other. ground arith)

-- A row that hangs on a value which is not there.
no_row :
    {A B : Type 0} (same : Bool) (o : Option A) (f : A → B)
    → is_some o ≡ false
    → (if same then (elim o [ none ↦ none | some a ↦ some (f a) ]) else none) ≡ none
no_row same (some a) f h = cc h
no_row true none f h = refl
no_row false none f h = refl

-- Two values that are equal give equal rows.
same_row :
    {A B : Type 0} (same : Bool) (o q : Option A) (f : A → B)
    → o ≡ q
    → (if same then (elim o [ none ↦ none | some a ↦ some (f a) ]) else none)
      ≡ (if same then (elim q [ none ↦ none | some a ↦ some (f a) ]) else none)
same_row {A = A} same o q f h =
    ap (λ (r : Option A). if same then (elim r [ none ↦ none | some a ↦ some (f a) ]) else none) h

workspace_role-visible :
    (db : Tables) (user : User) (id : ℕ)
    → workspace_role (visible db user) user id ≡ workspace_role db user id
unfolding workspace_role visible
workspace_role-visible db user id =
    search_rows-keep
      (λ (w : Workspace).
        if w.id == id
        then (elim (membership_role (visible db user) w.org_id user.id) [
          | none ↦ none
          | some role ↦ some (w, role)
        ])
        else none)
      (λ (w : Workspace).
        if w.id == id
        then (elim (membership_role db w.org_id user.id) [
          | none ↦ none
          | some role ↦ some (w, role)
        ])
        else none)
      _ db.workspaces
      (λ w.
        same_row (w.id == id) _ _ (λ role. (w, role)) (membership_role-visible db user w.org_id))
      (λ w hidden.
        no_row (w.id == id) (membership_role db w.org_id user.id) (λ role. (w, role)) hidden)

search_rows_nothing :
    {A B : Type 0} (f : A → Option B) (rows : List A)
    → ((a : A) → f a ≡ none)
    → search_rows f rows ≡ none
search_rows_nothing f [] h = refl
search_rows_nothing f (a ∷ rows) h = rw (h a) (search_rows_nothing f rows h)

-- A role in another organization is no role in this one.
organization_hidden :
    (db : Tables) (user : User) (org : ℕ) (o : Organization) {B : Type 0} (f : Role → B)
    → is_some (membership_role db org user.id) ≡ false
    → (if o.id == org
        then (elim (membership_role db o.id user.id) [ none ↦ none | some role ↦ some (f role) ])
        else none)
      ≡ none
organization_hidden db user org o f h = elim (Bool-cases (o.id == org)) [
  | inl same ↦
      let key : org ≡ o.id = ground (arith, same) in
      no_row (o.id == org) (membership_role db o.id user.id) f
        (subst (λ k. is_some (membership_role db k user.id) ≡ false) key h)
  | inr other ↦ rw other refl
]

organization_row-visible :
    (db : Tables) (user : User) (org : ℕ) {B : Type 0} (f : Organization → Role → B)
    → search_rows
        (λ (o : Organization).
          if o.id == org
          then (elim (membership_role (visible db user) o.id user.id) [
            | none ↦ none
            | some role ↦ some (f o role)
          ])
          else none)
        (visible db user).organizations
      ≡ search_rows
          (λ (o : Organization).
            if o.id == org
            then (elim (membership_role db o.id user.id) [
              | none ↦ none
              | some role ↦ some (f o role)
            ])
            else none)
          db.organizations
unfolding visible
organization_row-visible db user org f =
    search_rows-keep _ _ (λ (o : Organization). is_some (membership_role db o.id user.id))
      db.organizations
      (λ o. same_row (o.id == org) _ _ (f o) (membership_role-visible db user o.id))
      (λ o hidden. no_row (o.id == org) (membership_role db o.id user.id) (f o) hidden)

workspace_row-visible :
    (db : Tables) (user : User) (id : ℕ) (w : Workspace)
    → workspace_row (visible db user) user id w ≡ workspace_row db user id w
unfolding workspace_row
workspace_row-visible db user id w =
    ap (λ (found : Option WorkspaceContext). if w.id == id then found else none)
      (organization_row-visible db user w.org_id
        (λ o role. record { user = user; workspace = w; organization = o; role = role }))

workspace_row_hidden :
    (db : Tables) (user : User) (id : ℕ) (w : Workspace)
    → is_some (membership_role db w.org_id user.id) ≡ false
    → workspace_row db user id w ≡ none
unfolding workspace_row
workspace_row_hidden db user id w h =
    let nothing = search_rows_nothing _ db.organizations (λ o.
      organization_hidden db user w.org_id o
        (λ role. record { user = user; workspace = w; organization = o; role = role }) h) in
    elim (Bool-cases (w.id == id)) [ inl same ↦ rw same nothing | inr other ↦ rw other refl ]

workspace_context-visible :
    (db : Tables) (user : User) (id : ℕ)
    → workspace_context (visible db user) user id ≡ workspace_context db user id
unfolding workspace_context visible
workspace_context-visible db user id = ap (or_not_found workspace_not_found) (
    search_rows-keep _ _ (λ (w : Workspace). is_some (membership_role db w.org_id user.id))
      db.workspaces (workspace_row-visible db user id) (workspace_row_hidden db user id))

organization_membership-visible :
    (db : Tables) (user : User) (id : ℕ)
    → organization_membership (visible db user) user id ≡ organization_membership db user id
unfolding organization_membership organization_row
organization_membership-visible db user id =
    ap (or_not_found organization_not_found)
      (organization_row-visible db user id (λ o role. (o, role)))

load_document-visible :
    (db : Tables) (user : User) (id : ℕ)
    → load_document (visible db user) user id ≡ load_document db user id
unfolding load_document document_row visible
load_document-visible db user id = ap (or_not_found document_not_found) (
    search_rows-keep _ _ (λ (d : Document). is_some (workspace_role db user d.workspace_id))
      db.documents
      (λ d.
        same_row (d.id == id) _ _ (λ (p : Workspace × Role). (d, p.1))
          (workspace_role-visible db user d.workspace_id))
      (λ d hidden.
        no_row (d.id == id) (workspace_role db user d.workspace_id)
          (λ (p : Workspace × Role). (d, p.1)) hidden))

load_conversation-visible :
    (db : Tables) (user : User) (id : ℕ)
    → load_conversation (visible db user) user id ≡ load_conversation db user id
unfolding load_conversation conversation_row visible
load_conversation-visible db user id =
    ap
      (λ (found : Option (Conversation × Workspace × Role)). elim found [
        | none ↦ err conversation_not_found
        | some (c, w, role) ↦
            (if may_read user c role then ok (c, w, role) else err conversation_not_found)
      ])
      (search_rows-keep _ _ (λ (c : Conversation). is_some (workspace_role db user c.workspace_id))
        db.conversations
        (λ c.
          same_row (c.id == id) _ _ (λ (p : Workspace × Role). (c, p.0, p.1))
            (workspace_role-visible db user c.workspace_id))
        (λ c hidden.
          no_row (c.id == id) (workspace_role db user c.workspace_id)
            (λ (p : Workspace × Role). (c, p.0, p.1)) hidden))

-- The four loaders answer from the user's part of the tables only: two databases that differ in other
-- organizations' rows alone give the same answers, and errors.
pub loaders-visible :
    (db : Tables) (user : User) (id : ℕ)
    → (workspace_context (visible db user) user id ≡ workspace_context db user id)
      × (organization_membership (visible db user) user id ≡ organization_membership db user id)
      × (load_document (visible db user) user id ≡ load_document db user id)
      × (load_conversation (visible db user) user id ≡ load_conversation db user id)
loaders-visible db user id = (
  workspace_context-visible db user id,
  organization_membership-visible db user id,
  load_document-visible db user id,
  load_conversation-visible db user id,
)

-- ===== src/Access.antt =====
-- api/deps.py, `_load_document` of api/v1/documents.py, `_load_conversation` and `submit_feedback` of
-- api/v1/chat.py, with the rows of db/models/identity.py: who may reach what. A query with joins is
-- the search of its nested loops for a first row.
pub mod Laws
pub mod Loads
pub mod Hidden
use knowledgeos.Prelude.{
  ℕ, Bool, true, false, not, ◌&&◌, ◌||◌, Option, none, some, List, [], ◌∷◌, leb, ◌==◌,
  if◌then◌else◌, search_rows,
}
use knowledgeos.Retrieval.Query.{codes}
use knowledgeos.Text.{Text}
use knowledgeos.Errors.{Kind, AppError, Detail, plain, Result, ok, err}
use knowledgeos.Content.{Document, find_document}

pub data Role : Type 0 where
  viewer member admin owner : Role

-- `_ROLE_RANK`
unfoldable pub rank : Role → ℕ
rank Role.viewer = 0
rank Role.member = 1
rank Role.admin = 2
rank Role.owner = 3

-- `Role.satisfies`
unfoldable pub satisfies : Role → Role → Bool
unfolding rank
satisfies role required = leb (rank required) (rank role)

pub record User : Type 0 where
  pub id : ℕ
  pub email : Text
  pub password_hash : Text
  pub full_name : Text
  pub is_active : Bool
  pub is_superuser : Bool
  pub last_login_at : Option ℕ

pub record Organization : Type 0 where
  pub id : ℕ
  pub name : Text
  pub slug : Text
  pub plan : Text
  pub created_by : ℕ

pub record Membership : Type 0 where
  pub user_id : ℕ
  pub org_id : ℕ
  pub role : Role

pub record Workspace : Type 0 where
  pub id : ℕ
  pub org_id : ℕ
  pub name : Text
  pub slug : Text
  pub description : Option Text
  pub created_by : ℕ

pub record Conversation : Type 0 where
  pub id : ℕ
  pub workspace_id : ℕ
  pub user_id : ℕ
  pub title : Text
  pub last_message_at : Option ℕ

-- A message, as far as access to it goes.
pub record MessageRow : Type 0 where
  pub id : ℕ
  pub conversation_id : ℕ

pub record Feedback : Type 0 where
  pub message_id : ℕ
  pub user_id : ℕ
  pub rating : ℕ
  pub comment : Option Text

pub record Tables : Type 0 where
  pub users : List User
  pub organizations : List Organization
  pub memberships : List Membership
  pub workspaces : List Workspace
  pub documents : List Document
  pub conversations : List Conversation
  pub messages : List MessageRow
  pub feedback : List Feedback

-- `raise` where a query has no row
abbrev pub or_not_found {ℓ} : {A : Type ℓ} → AppError → Option A → Result A
or_not_found e none = err e
or_not_found e (some a) = ok a

abbrev pub workspace_not_found : AppError
workspace_not_found = plain Kind.not_found "Workspace not found."

abbrev pub organization_not_found : AppError
organization_not_found = plain Kind.not_found "Organization not found."

abbrev pub document_not_found : AppError
document_not_found = plain Kind.not_found "Document not found."

abbrev pub conversation_not_found : AppError
conversation_not_found = plain Kind.not_found "Conversation not found."

abbrev pub message_not_found : AppError
message_not_found = plain Kind.not_found "Message not found."

pub record WorkspaceContext : Type 0 where
  pub user : User
  pub workspace : Workspace
  pub organization : Organization
  pub role : Role

-- The role of the first membership of a user in an organization.
unfoldable pub membership_role : Tables → ℕ → ℕ → Option Role
membership_role db org user =
    search_rows
      (λ (m : Membership). if m.org_id == org && m.user_id == user then some m.role else none)
      db.memberships

unfoldable pub workspace_row : Tables → User → ℕ → Workspace → Option WorkspaceContext
unfolding membership_role
workspace_row db user id w =
    if w.id == id
    then search_rows
        (λ (o : Organization).
          if o.id == w.org_id
          then (elim (membership_role db o.id user.id) [
            | none ↦ none
            | some role ↦
                some (record { user = user; workspace = w; organization = o; role = role })
          ])
          else none)
        db.organizations
    else none

unfoldable pub workspace_context : Tables → User → ℕ → Result WorkspaceContext
unfolding workspace_row
workspace_context db user id =
    or_not_found workspace_not_found (search_rows (workspace_row db user id) db.workspaces)

-- `role.value`
abbrev role_value : Role → Text
role_value Role.viewer = codes "VIEWER"
role_value Role.member = codes "MEMBER"
role_value Role.admin = codes "ADMIN"
role_value Role.owner = codes "OWNER"

abbrev requires_role : Role → Role → AppError
requires_role minimum role = record {
  kind = Kind.authorization;
  detail =
      Detail.with_texts "Requires " (role_value minimum) " role in this workspace; you have "
        (role_value role) ".";
  retry_after = none;
}

-- `WorkspaceContext.require`
unfoldable pub require : WorkspaceContext → Role → Result (Unit {0})
unfolding satisfies
require ctx minimum =
    if satisfies ctx.role minimum then ok tt else err (requires_role minimum ctx.role)

unfoldable pub organization_row : Tables → User → ℕ → Organization → Option (Organization × Role)
unfolding membership_role
organization_row db user id o =
    if o.id == id
    then (elim (membership_role db o.id user.id) [ none ↦ none | some role ↦ some (o, role) ])
    else none

unfoldable pub organization_membership : Tables → User → ℕ → Result (Organization × Role)
unfolding organization_row
organization_membership db user id =
    or_not_found organization_not_found (search_rows (organization_row db user id) db.organizations)

-- The role of a user in the organization of a workspace with the id.
unfoldable pub workspace_role : Tables → User → ℕ → Option (Workspace × Role)
unfolding membership_role
workspace_role db user workspace =
    search_rows
      (λ (w : Workspace).
        if w.id == workspace
        then (elim (membership_role db w.org_id user.id) [
          | none ↦ none
          | some role ↦ some (w, role)
        ])
        else none)
      db.workspaces

unfoldable pub document_row : Tables → User → ℕ → Document → Option (Document × Role)
unfolding workspace_role
document_row db user id d =
    if d.id == id
    then (elim (workspace_role db user d.workspace_id) [
      | none ↦ none
      | some (w, role) ↦ some (d, role)
    ])
    else none

-- `_load_document`
unfoldable pub load_document : Tables → User → ℕ → Result (Document × Role)
unfolding document_row
load_document db user id =
    or_not_found document_not_found (search_rows (document_row db user id) db.documents)

unfoldable pub conversation_row :
    Tables → User → ℕ → Conversation → Option (Conversation × Workspace × Role)
unfolding workspace_role
conversation_row db user id c =
    if c.id == id
    then (elim (workspace_role db user c.workspace_id) [
      | none ↦ none
      | some (w, role) ↦ some (c, w, role)
    ])
    else none

-- A conversation is its author's, or an admin's to read.
unfoldable pub may_read : User → Conversation → Role → Bool
unfolding satisfies
may_read user c role = c.user_id == user.id || satisfies role Role.admin

-- `_load_conversation`
unfoldable pub load_conversation : Tables → User → ℕ → Result (Conversation × Workspace × Role)
unfolding conversation_row may_read
load_conversation db user id = elim (search_rows (conversation_row db user id) db.conversations) [
  | none ↦ err conversation_not_found
  | some (c, w, role) ↦
      (if may_read user c role then ok (c, w, role) else err conversation_not_found)
]

unfoldable pub find_message : ℕ → List MessageRow → Option MessageRow
find_message id [] = none
find_message id (m ∷ ms) = if m.id == id then some m else find_message id ms

-- The rating of a user for a message, changed where it is there.
unfoldable pub rate : Feedback → List Feedback → List Feedback
rate f [] = f ∷ []
rate f (g ∷ gs) =
    if g.message_id == f.message_id && g.user_id == f.user_id
    then record g { rating = f.rating; comment = f.comment } ∷ gs
    else g ∷ rate f gs

-- `submit_feedback` once the conversation is loaded, and once the message is looked up.
abbrev pub rate_message :
    Tables
    → User
    → ℕ
    → ℕ
    → Option Text
    → Result (Conversation × Workspace × Role)
    → Result (List Feedback)
rate_message db user message rating comment (err e) = err e
rate_message db user message rating comment (ok loaded) = ok (
    rate (record { message_id = message; user_id = user.id; rating = rating; comment = comment })
      db.feedback)

abbrev pub rate_found :
    Tables → User → ℕ → ℕ → Option Text → Option MessageRow → Result (List Feedback)
rate_found db user message rating comment none = err message_not_found
rate_found db user message rating comment (some m) =
    rate_message db user message rating comment (load_conversation db user m.conversation_id)

unfoldable pub submit_feedback : Tables → User → ℕ → ℕ → Option Text → Result (List Feedback)
unfolding find_message load_conversation rate
submit_feedback db user message rating comment =
    rate_found db user message rating comment (find_message message db.messages)

-- What a bearer token says: it is refused by `decode_access_token`, or it holds `jti` and `sub`,
-- which may not be the text of a UUID.
pub data Decoded : Type 0 where
  expired_token invalid_token : Decoded
  claims : ℕ → Option ℕ → Decoded

unfoldable find_user : ℕ → List User → Option User
find_user id [] = none
find_user id (u ∷ us) = if u.id == id then some u else find_user id us

-- `get_current_user`, from the decoded credentials and the answer of the denylist, `none` if Redis
-- raised.
unfoldable is_access_token_denied : (ℕ → Option Bool) → ℕ → Bool
is_access_token_denied exists jti = elim (exists jti) [ none ↦ true | some denied ↦ denied ]

unfoldable get_current_user : Tables → (ℕ → Option Bool) → Option Decoded → Result User
unfolding is_access_token_denied find_user
get_current_user db exists none = err (plain Kind.authentication "Authentication required.")
get_current_user db exists (some expired_token) =
    err (plain Kind.authentication "Token has expired.")
get_current_user db exists (some invalid_token) = err (plain Kind.authentication "Invalid token.")
get_current_user db exists (some (claims jti sub)) =
    if is_access_token_denied exists jti
    then err (plain Kind.authentication "Token has been revoked.")
    else (elim sub [
      | none ↦ err (plain Kind.authentication "Invalid token.")
      | some id ↦ (elim (find_user id db.users) [
        | none ↦ err (plain Kind.authentication "Account is not available.")
        | some user ↦
            (if user.is_active
              then ok user
              else err (plain Kind.authentication "Account is not available."))
      ])
    ])

-- `require_superuser`
unfoldable require_superuser : User → Result User
require_superuser user =
    if user.is_superuser
    then ok user
    else err (plain Kind.authorization "Requires platform administrator privileges.")

-- ===== src/Workspaces.antt =====
-- `create_workspace` and `update_workspace` of api/v1/workspaces.py, with `slugify` of
-- services/auth_service.py. The normal form of Unicode in lower case and the id of the new row are
-- arguments; the counts of the answers are left out.
pub mod Slugs
use knowledgeos.Prelude.{
  ℕ, Bool, true, false, not, ◌&&◌, ◌||◌, Option, none, some, List, [], ◌∷◌, leb, ◌==◌,
  if◌then◌else◌, search_rows, take,
}
use knowledgeos.Retrieval.Query.{codes}
use knowledgeos.Text.{Text, text_eq, is_empty}
use knowledgeos.Errors.{plain, Kind, Detail, AppError, Result, ok, err}
use knowledgeos.Access.{
  Tables, User, Workspace, WorkspaceContext, Organization, Role, satisfies, require,
  workspace_context, organization_membership,
}

-- `[a-z0-9]`
unfoldable is_slug_char : ℕ → Bool
is_slug_char c = (leb b'a' c && leb c b'z') || (leb b'0' c && leb c b'9')

-- `_SLUG_STRIP.sub("-", value)`, after a character of a run that is replaced or not.
unfoldable dashed : Bool → Text → Text
unfolding is_slug_char
dashed in_run [] = []
dashed in_run (c ∷ s) =
    let inside = dashed true s in
    let outside = dashed false s in
    if is_slug_char c then c ∷ outside else if in_run then inside else b'-' ∷ inside

unfoldable lstrip_dash : Text → Text
lstrip_dash [] = []
lstrip_dash (c ∷ s) = let rest = lstrip_dash s in if c == b'-' then rest else c ∷ s

unfoldable rstrip_dash : Text → Text
rstrip_dash [] = []
rstrip_dash (c ∷ s) =
    let rest = rstrip_dash s in if is_empty rest && c == b'-' then [] else c ∷ rest

abbrev slug_or : Text → Text → Text
slug_or [] fallback = fallback
slug_or (c ∷ slug) fallback = c ∷ slug

unfoldable pub slugify : (Text → Text) → Text → Text → Text
unfolding dashed lstrip_dash rstrip_dash
slugify normalize value fallback =
    take 60 (slug_or (rstrip_dash (lstrip_dash (dashed false (normalize value)))) fallback)

-- A workspace of the organization has the slug.
unfoldable pub takes_slug : ℕ → Text → Workspace → Bool
takes_slug org slug w = w.org_id == org && text_eq w.slug slug

-- `select(Workspace.id)` with the organization and the slug
unfoldable pub slug_row : ℕ → Text → Workspace → Option ℕ
unfolding takes_slug
slug_row org slug w = if takes_slug org slug w then some w.id else none

abbrev slug_taken : Text → AppError
slug_taken slug = record {
  kind = Kind.conflict;
  detail = Detail.with_text "A workspace with the slug '" slug "' already exists.";
  retry_after = none;
}

unfoldable pub add_workspace : Tables → Workspace → Result Tables
unfolding slug_row
add_workspace db w = elim (search_rows (slug_row w.org_id w.slug) db.workspaces) [
  | some _ ↦ err (slug_taken w.slug)
  | none ↦ ok (record db { workspaces = w ∷ db.workspaces })
]

-- `create_workspace`
unfoldable pub create_workspace :
    (Text → Text) → Tables → User → ℕ → ℕ → Text → Option Text → Result Tables
unfolding organization_membership satisfies slugify add_workspace
create_workspace normalize db user org new_id name description =
    elim (organization_membership db user org) [
      | err e ↦ err e
      | ok (organization, role) ↦
          (if satisfies role Role.admin
            then add_workspace db (record {
              id = new_id;
              org_id = organization.id;
              name = name;
              slug = slugify normalize name (codes "workspace");
              description = description;
              created_by = user.id;
            })
            else err (plain Kind.authorization "Requires ADMIN role to create a workspace."))
    ]

abbrev pub renamed : Option Text → Option Text → Workspace → Workspace
renamed name description w = record w {
  name = elim name [ none ↦ w.name | some n ↦ n ];
  description = elim description [ none ↦ w.description | some d ↦ some d ];
}

unfoldable pub set_workspace : ℕ → (Workspace → Workspace) → List Workspace → List Workspace
set_workspace id f [] = []
set_workspace id f (w ∷ ws) =
    let rest = set_workspace id f ws in if w.id == id then f w ∷ ws else w ∷ rest

-- `update_workspace`
unfoldable pub update_workspace : Tables → User → ℕ → Option Text → Option Text → Result Tables
unfolding workspace_context require set_workspace
update_workspace db user id name description = elim (workspace_context db user id) [
  | err e ↦ err e
  | ok ctx ↦ (elim (require ctx Role.admin) [
    | err e ↦ err e
    | ok _ ↦ ok (record db {
      workspaces = set_workspace ctx.workspace.id (renamed name description) db.workspaces;
    })
  ])
]

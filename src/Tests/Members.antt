-- ===== src/Tests/Members.antt =====
-- Runs of api/deps.py, of the loaders of api/v1 and of `slugify`.
use knowledgeos.Prelude.{ℕ, ◌≡◌, refl, true, false, none, some, [], ◌∷◌, Any}
use knowledgeos.Errors.{ok, err}
use knowledgeos.Access.{
  conversation_not_found, workspace_context, organization_membership, load_document,
  load_conversation, find_message, Role, User, Organization, Workspace, Tables, WorkspaceContext,
}
use knowledgeos.Workspaces.{slugify, takes_slug, create_workspace}
use knowledgeos.Workspaces.Slugs.{IsUnique, create_workspace-IsUnique}
use knowledgeos.Access.Laws.{IsMember, workspace_context-IsMember}
use knowledgeos.Access.Hidden.{visible, loaders-visible}
use knowledgeos.Retrieval.Query.{codes}

abbrev pub user : User
user = record {
  id = 1;
  email = codes "a@b.c";
  password_hash = [];
  full_name = codes "A";
  is_active = true;
  is_superuser = false;
  last_login_at = none;
}

abbrev organization : ℕ → Organization
organization id = record {
  id = id;
  name = codes "Org";
  slug = codes "org";
  plan = codes "free";
  created_by = 9;
}

abbrev workspace : ℕ → ℕ → Workspace
workspace id org = record {
  id = id;
  org_id = org;
  name = codes "W";
  slug = codes "w";
  description = none;
  created_by = 9;
}

-- The user is an admin of organization 1, and no member of organization 2.
abbrev pub tables : Tables
tables = record {
  users = user ∷ [];
  organizations = organization 1 ∷ organization 2 ∷ [];
  memberships = record { user_id = 1; org_id = 1; role = Role.admin } ∷ [];
  workspaces = workspace 10 1 ∷ workspace 20 2 ∷ [];
  documents = [];
  conversations =
      record { id = 5; workspace_id = 20; user_id = 9; title = codes "T"; last_message_at = none }
      ∷ [];
  messages = record { id = 7; conversation_id = 5 } ∷ [];
  feedback = [];
}

abbrev context : WorkspaceContext
context = record {
  user = user;
  workspace = workspace 10 1;
  organization = organization 1;
  role = Role.admin;
}

reached : workspace_context tables user 10 ≡ ok context
unfolding workspace_context
reached = refl

found : find_message 7 tables.messages ≡ some (record { id = 7; conversation_id = 5 })
unfolding find_message
found = refl

absent : find_message 8 tables.messages ≡ none
unfolding find_message
absent = refl

refused : load_conversation tables user 5 ≡ err conversation_not_found
unfolding load_conversation
refused = refl

workspace_context-IsMember_example :
    (context.user ≡ user)
    × (context.workspace.id ≡ 10)
    × Any (λ (w : Workspace). w ≡ context.workspace) tables.workspaces
    × IsMember tables context.workspace.org_id user.id context.role
workspace_context-IsMember_example = workspace_context-IsMember tables user 10 context reached

loaders-visible_example :
    (workspace_context (visible tables user) user 20 ≡ workspace_context tables user 20)
    × (organization_membership (visible tables user) user 20
        ≡ organization_membership tables user 20)
    × (load_document (visible tables user) user 20 ≡ load_document tables user 20)
    × (load_conversation (visible tables user) user 20 ≡ load_conversation tables user 20)
loaders-visible_example = loaders-visible tables user 20

-- A workspace that the admin adds to organization 1.
abbrev with_added : Tables
with_added = record tables {
  workspaces =
      record {
        id = 30;
        org_id = 1;
        name = codes "new team";
        slug = codes "new-team";
        description = none;
        created_by = 1;
      }
      ∷ tables.workspaces;
}

added : create_workspace (λ s. s) tables user 1 30 (codes "new team") none ≡ ok with_added
unfolding create_workspace
added = refl

distinct_slugs : IsUnique tables.workspaces
unfolding takes_slug
distinct_slugs = ((refl, tt), (tt, tt))

create_workspace-IsUnique_example : IsUnique with_added.workspaces
create_workspace-IsUnique_example =
    create_workspace-IsUnique (λ s. s) tables user 1 30 (codes "new team") none with_added
      distinct_slugs added

slug_of_name : slugify (λ s. s) (codes " my  team, 2 ") (codes "workspace") ≡ codes "my-team-2"
unfolding slugify
slug_of_name = refl

slug_of_signs : slugify (λ s. s) (codes "--- !") (codes "workspace") ≡ codes "workspace"
unfolding slugify
slug_of_signs = refl

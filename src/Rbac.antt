-- ===== src/Rbac.antt =====
-- gateway/middleware/rbac.py: who gets past the door, to the console and to the tools.
pub mod Door
use m_gate.Prelude.{
  Bool, Dict, List, Option, String, [], any, concat, elem, false, if◌then◌else◌, lookup, lower,
  none, not, or_default, some, sorted_set, starts_with, true, ◌&&◌, ◌++◌, ◌==◌, ◌||◌, ◌∷◌,
  string_eq, nat_eq, pair_eq,
}
use m_gate.Settings.{Settings}

-- What the middlewares before it know of a request. `method` is compared without regard to case.
pub record Visit : Type 0 where
  pub path : String
  pub method : String
  pub is_admin_principal : Bool
  pub is_read_only_principal : Bool
  pub admin_auth_via_cookie : Bool
  pub csrf_header : Option String
  pub csrf_cookie : Option String
  pub tenant_id : String
  pub user_id : String
  pub roles : List String

-- A document of `session_context`; `none` is a field that is not set, or is no list.
pub record Session : Type 0 where
  pub status : Option String
  pub roles : Option (List String)

-- The responses of the middleware itself: 401, 303, and 403 with four texts.
pub data Refusal : Type 0 where
  admin_authentication_required redirect_to_login read_only_access csrf_failed : Refusal
  account_suspended insufficient_permissions : Refusal

pub data Answer : Type 0 where
  refused : Refusal → Answer
  -- The request goes on, with these roles.
  forward : List String → Answer

abbrev pub slashed : String → String → String
slashed ui page = concat (ui ∷ "/" ∷ page ∷ [])

abbrev pub public_ui_paths : Settings → List String
public_ui_paths settings =
    slashed settings.admin_ui_path "login"
    ∷ slashed settings.admin_ui_path "logout"
    ∷ slashed settings.admin_ui_path "register"
    ∷ slashed settings.admin_ui_path "terms"
    ∷ slashed settings.admin_ui_path "privacy"
    ∷ []

unfoldable pub is_ui_path : Settings → String → Bool
is_ui_path settings path =
    (path == settings.admin_ui_path) || starts_with path (slashed settings.admin_ui_path "")

unfoldable pub requires_admin_principal : Settings → String → Bool
unfolding is_ui_path
requires_admin_principal settings path =
    if not settings.admin_ui_enabled
    then starts_with path "/admin"
    else if starts_with path "/admin"
    then true
    else if not (is_ui_path settings path)
    then false
    else not (elem path (public_ui_paths settings))

unfoldable pub is_data_plane : String → Bool
is_data_plane path = starts_with path "/rpc" || ((path == "/mcp") || starts_with path "/mcp/")

unfoldable pub unsafe_method : Visit → Bool
unfolding lower
unsafe_method v = elem (lower v.method) ("post" ∷ "put" ∷ "patch" ∷ "delete" ∷ [])

-- A missing token and an empty one are the same.
unfoldable pub requires_csrf : Visit → Bool
requires_csrf v =
    let header = or_default v.csrf_header "" in
    let cookie = or_default v.csrf_cookie "" in
    if not (starts_with v.path "/admin")
    then false
    else if not (unsafe_method v)
    then false
    else if not v.admin_auth_via_cookie
    then false
    else if (header == "") || (cookie == "")
    then true
    else not (header == cookie)

-- The refusal at the door of the console, none for a request that may go on.
unfoldable pub refused_at_console : Settings → Visit → Option Refusal
unfolding requires_admin_principal
refused_at_console settings v =
    if not (requires_admin_principal settings v.path)
    then none
    else if not v.is_admin_principal
    then some
        (if starts_with v.path "/admin" then admin_authentication_required else redirect_to_login)
    else if starts_with v.path "/admin" && (unsafe_method v && v.is_read_only_principal)
    then some read_only_access
    else if requires_csrf v
    then some csrf_failed
    else none

abbrev pub sessions_status : Session → String
sessions_status session = elim session.status [ none ↦ "active" | some s ↦ s ]

-- The roles of the token with those of the session, where the account is active.
abbrev pub session_roles : Option Session → List String
session_roles none = []
session_roles (some session) = elim session.roles [ none ↦ [] | some roles ↦ roles ]

abbrev pub is_suspended : Option Session → Bool
is_suspended none = false
is_suspended (some session) = not (sessions_status session == "active")

abbrev pub is_tool_role : String → Bool
is_tool_role role = elem role ("admin" ∷ "tool:invoke" ∷ "tool:read" ∷ [])

unfoldable pub data_plane_answer : Option Session → Visit → Answer
unfolding sorted_set
data_plane_answer session v =
    let roles = sorted_set (v.roles ++ session_roles session) in
    if is_suspended session
    then refused account_suspended
    else if any is_tool_role roles
    then forward roles
    else refused insufficient_permissions

abbrev go_on : Option Refusal → Answer → Answer
go_on none answer = answer
go_on (some refusal) answer = refused refusal

unfoldable pub door : Settings → Dict (String × String) Session → Visit → Answer
unfolding refused_at_console data_plane_answer is_data_plane
door settings sessions v = go_on (refused_at_console settings v) (
    if is_data_plane v.path
    then data_plane_answer (lookup (v.tenant_id, v.user_id) sessions) v
    else forward v.roles)

-- ===== src/Rbac/Door.antt =====
-- Who gets past the door.
use m_gate.Prelude.{
  Bool, Dict, List, Option, String, [], any, ap, arith, concat, eq_iff, false, if◌then◌else◌,
  lookup, lower, none, not, or_default, refl, some, sorted_set, starts_with, true, ◌&&◌, ◌++◌, ◌==◌,
  ◌||◌, ◌∷◌, ◌∙◌, ◌≡◌, string_eq, nat_eq, pair_eq,
}
use m_gate.Rbac.{
  Answer, Refusal, Session, Visit, account_suspended, admin_authentication_required, csrf_failed,
  data_plane_answer, door, forward, go_on, insufficient_permissions, is_data_plane, is_suspended,
  is_tool_role, is_ui_path, read_only_access, redirect_to_login, refused, refused_at_console,
  requires_admin_principal, requires_csrf, session_roles, unsafe_method,
}
use m_gate.Settings.{Settings}

abbrev pub is_forward : Answer → Bool
is_forward (forward roles) = true
is_forward _ = false

-- The paths of the console: those of its interface, and, if it is on, those of its pages but for the
-- five that anybody may open.
abbrev pub is_console : Settings → String → Bool
is_console settings path =
    let page = λ (name : String). concat (settings.admin_ui_path ∷ "/" ∷ name ∷ []) in
    starts_with path "/admin"
    || (settings.admin_ui_enabled
        && (((path == settings.admin_ui_path) || starts_with path (page ""))
            && not (
                (path == page "login")
                || ((path == page "logout")
                    || ((path == page "register")
                        || ((path == page "terms") || (path == page "privacy")))))))

-- A request to the console's interface that changes something.
abbrev pub is_change : Visit → Bool
is_change v =
    starts_with v.path "/admin"
    && ((lower v.method == "post")
        || ((lower v.method == "put")
            || ((lower v.method == "patch") || (lower v.method == "delete"))))

-- The token of the header is that of the cookie, and not empty.
abbrev pub shows_token : Visit → Bool
shows_token v =
    let header = or_default v.csrf_header "" in
    not (header == "") && (header == or_default v.csrf_cookie "")

-- What a request to the console must show.
abbrev pub may_enter : Settings → Visit → Bool
may_enter settings v =
    not (is_console settings v.path)
    || (v.is_admin_principal
        && (not (is_change v && v.is_read_only_principal)
            && (not (is_change v && v.admin_auth_via_cookie) || shows_token v)))

-- The paths of the tools.
abbrev pub is_tools : String → Bool
is_tools path = starts_with path "/rpc" || ((path == "/mcp") || starts_with path "/mcp/")

-- What a request to the tools must show.
abbrev pub may_use_tools : Dict (String × String) Session → Visit → Bool
may_use_tools sessions v =
    let session = lookup (v.tenant_id, v.user_id) sessions in
    not (is_tools v.path)
    || (not (is_suspended session)
        && any is_tool_role (sorted_set (v.roles ++ session_roles session)))

abbrev lets_in : Option Refusal → Bool
lets_in none = true
lets_in (some refusal) = false

ladder :
    (required admin under_admin unsafe read_only csrf : Bool)
    → lets_in (
        if not required
        then none
        else if not admin
        then some (if under_admin then admin_authentication_required else redirect_to_login)
        else if under_admin && (unsafe && read_only)
        then some read_only_access
        else if csrf
        then some csrf_failed
        else none)
      ≡ (not required || (admin && (not (under_admin && (unsafe && read_only)) && not csrf)))
ladder required admin under_admin unsafe read_only csrf = ground arith

pub is_data_plane_lem : (path : String) → is_data_plane path ≡ is_tools path
unfolding is_data_plane
is_data_plane_lem path = refl

is_console_lem :
    (settings : Settings) (path : String)
    → requires_admin_principal settings path ≡ is_console settings path
unfolding requires_admin_principal is_ui_path
is_console_lem settings path = ground arith

unsafe_lem : (v : Visit) → (starts_with v.path "/admin" && unsafe_method v) ≡ is_change v
unfolding unsafe_method
unsafe_lem v = ground arith

token_ladder :
    (under_admin unsafe cookie_auth no_header no_cookie same : Bool)
    → (no_cookie ≡ true → same ≡ true → no_header ≡ true)
    → (if not under_admin
        then false
        else if not unsafe
        then false
        else if not cookie_auth
        then false
        else if no_header || no_cookie
        then true
        else not same)
      ≡ ((under_admin && unsafe) && (cookie_auth && not (not no_header && same)))
token_ladder under_admin unsafe cookie_auth no_header no_cookie same e = ground arith

same_empty :
    (header cookie : String)
    → (cookie == "") ≡ true
    → (header == cookie) ≡ true
    → (header == "") ≡ true
same_empty header cookie none_there same =
    (eq_iff header "").1 ((eq_iff header cookie).0 same ∙ (eq_iff cookie "").0 none_there)

csrf_lem :
    (v : Visit)
    → requires_csrf v ≡ (
        (starts_with v.path "/admin" && unsafe_method v)
        && (v.admin_auth_via_cookie && not (shows_token v)))
unfolding requires_csrf
csrf_lem v =
    let header = or_default v.csrf_header "" in
    let cookie = or_default v.csrf_cookie "" in
    token_ladder (starts_with v.path "/admin") (unsafe_method v) v.admin_auth_via_cookie
      (header == "") (cookie == "") (header == cookie) (same_empty header cookie)

regroup :
    (required admin under_admin unsafe read_only cookie_auth token console change csrf : Bool)
    → required ≡ console
    → (under_admin && unsafe) ≡ change
    → csrf ≡ ((under_admin && unsafe) && (cookie_auth && not token))
    → (not required || (admin && (not (under_admin && (unsafe && read_only)) && not csrf))) ≡ (
        not console
        || (admin && (not (change && read_only) && (not (change && cookie_auth) || token))))
regroup required admin under_admin unsafe read_only cookie_auth token console change csrf e f g =
    ground arith

refused_at_console-may_enter :
    (settings : Settings) (v : Visit)
    → lets_in (refused_at_console settings v) ≡ may_enter settings v
unfolding refused_at_console
refused_at_console-may_enter settings v =
    ladder (requires_admin_principal settings v.path) v.is_admin_principal
      (starts_with v.path "/admin") (unsafe_method v) v.is_read_only_principal (requires_csrf v)
    ∙ regroup (requires_admin_principal settings v.path) v.is_admin_principal
        (starts_with v.path "/admin") (unsafe_method v) v.is_read_only_principal
        v.admin_auth_via_cookie (shows_token v) (is_console settings v.path) (is_change v)
        (requires_csrf v) (is_console_lem settings v.path) (unsafe_lem v) (csrf_lem v)

tool_ladder :
    (suspended allowed : Bool) (roles : List String)
    → is_forward (
        if suspended
        then refused account_suspended
        else if allowed
        then forward roles
        else refused insufficient_permissions)
      ≡ (not suspended && allowed)
tool_ladder suspended allowed roles = ground arith

data_plane_answer-forward :
    (session : Option Session) (v : Visit)
    → is_forward (data_plane_answer session v) ≡ (
        not (is_suspended session)
        && any is_tool_role (sorted_set (v.roles ++ session_roles session)))
unfolding data_plane_answer
data_plane_answer-forward session v =
    tool_ladder (is_suspended session)
      (any is_tool_role (sorted_set (v.roles ++ session_roles session)))
      (sorted_set (v.roles ++ session_roles session))

together :
    (o : Option Refusal) (tools : Bool) (answer : Answer) (roles : List String) {p : Bool}
    → is_forward answer ≡ p
    → is_forward (go_on o (if tools then answer else forward roles))
      ≡ (lets_in o && (not tools || p))
together none true answer roles e = e
together none false answer roles e = refl
together (some refusal) tools answer roles e = refl

-- The middleware lets a request on exactly if it may enter the console and may use the tools. On a
-- path of the console, which is one under /admin or, where the pages are on, one of theirs but for
-- the five public ones, it must come from an admin principal, and if it changes something under
-- /admin, from none that may only read, and with a cookie's login, with a header that repeats the
-- cookie's token. On /rpc and /mcp, its account must not be suspended and its token or its session
-- must have one of the three roles.
pub door-may_enter :
    (settings : Settings) (sessions : Dict (String × String) Session) (v : Visit)
    → is_forward (door settings sessions v) ≡ (may_enter settings v && may_use_tools sessions v)
unfolding door is_data_plane
door-may_enter settings sessions v =
    together (refused_at_console settings v) (is_data_plane v.path) _ v.roles
      (data_plane_answer-forward (lookup (v.tenant_id, v.user_id) sessions) v)
    ∙ ap (λ b. b && may_use_tools sessions v) (refused_at_console-may_enter settings v)

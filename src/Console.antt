-- ===== src/Console.antt =====
-- gateway/routers/admin/_common.py and gateway/routers/admin/users.py: the guards of the console's
-- interface, and what it does to managed users.
pub mod Accounts
pub mod Confinement
pub mod Steps
pub mod Operations
pub mod History
pub mod KillSwitch
pub mod Tenants
pub mod Curating
pub mod Curated
pub mod Creating
pub mod TenantCalls
pub mod Guards
pub mod Privileges
use m_gate.Prelude.{
  Bool, List, Option, Result, String, elem, err, false, if◌then◌else◌, lookup, none, not, ok,
  or_default, some, ℕ, ◌&&◌, ◌==◌, ◌>>=◌, string_eq, nat_eq, pair_eq,
}
use m_gate.Passwords.{Crypto, verify_password}
use m_gate.Settings.{Settings}
use m_gate.Tenant.Status.{get_tenant_read_only}
use m_gate.Tenant.Store.{ControlPlane}
use m_gate.Users.{
  Draft, Patch, PublicUser, Sessions, User, UserError, Users, create_user, delete_user,
  duplicate_key, email_required, empty_password, find_user_by_email, sync_session_context,
  update_user, user_already_exists, user_not_found,
}

-- What the endpoints read of a request: its state and its header.
pub record Caller : Type 0 where
  pub tenant_id : String
  pub user_id : String
  pub roles : List String
  pub header_tenant : Option String

-- The responses: 403 with five texts, 404, 409, 422, 400, and an exception that is not handled.
pub data AdminError : Type 0 where
  cross_tenant read_only_tenant role_not_grantable cross_tenant_user platform_user : AdminError
  no_such_user conflict unprocessable own_account wrong_password bootstrap_admin : AdminError
  raised : UserError → AdminError

-- The part of the control database that the endpoints read and write.
pub record Directory : Type 0 where
  pub plane : ControlPlane
  pub users : Users
  pub sessions : Sessions

unfoldable pub is_platform_admin : Settings → Caller → Bool
is_platform_admin settings caller = elem settings.platform_admin_role caller.roles

unfoldable pub resolve_target_tenant : Settings → Caller → Option String → Result AdminError String
unfolding is_platform_admin
resolve_target_tenant settings caller requested =
    let target = or_default requested (or_default caller.header_tenant caller.tenant_id) in
    if not (target == caller.tenant_id) && not (is_platform_admin settings caller)
    then err cross_tenant
    else ok target

unfoldable pub require_tenant_writable :
    Settings → Caller → String → ControlPlane → ℕ → Result AdminError (Unit {0}) × ControlPlane
unfolding is_platform_admin
require_tenant_writable settings caller tenant plane now =
    if is_platform_admin settings caller
    then (ok tt, plane)
    else let (frozen, plane') = get_tenant_read_only settings plane tenant now in
      (if frozen then err read_only_tenant else ok tt, plane')

unfoldable pub assert_can_assign_roles :
    Settings → Caller → List String → Result AdminError (Unit {0})
unfolding is_platform_admin
assert_can_assign_roles settings caller roles =
    if elem settings.platform_admin_role roles && not (is_platform_admin settings caller)
    then err role_not_grantable
    else ok tt

-- What `_load_managed_user` does with the document that it found.
unfoldable pub may_manage : Settings → Caller → User → Result AdminError User
unfolding is_platform_admin
may_manage settings caller doc =
    if is_platform_admin settings caller
    then ok doc
    else if not (doc.tenant_id == caller.tenant_id)
    then err cross_tenant_user
    else if elem settings.platform_admin_role doc.roles
    then err platform_user
    else ok doc

unfoldable pub load_managed_user : Settings → Caller → String → Users → Result AdminError User
unfolding may_manage
load_managed_user settings caller id users = elim (lookup id users) [
  | none ↦ err no_such_user
  | some doc ↦ may_manage settings caller doc
]

-- The responses to the exceptions of `create_user`.
abbrev pub create_error : UserError → AdminError
create_error user_already_exists = conflict
create_error email_required = unprocessable
create_error user_not_found = unprocessable
create_error empty_password = raised empty_password
create_error duplicate_key = raised duplicate_key

-- The answer to a write of a user, and the mirror of the user that follows it.
unfoldable pub mirror :
    (UserError → AdminError)
    → Result UserError (PublicUser × Users)
    → Directory
    → Result AdminError PublicUser × Directory
unfolding sync_session_context
mirror status (err e) dir = (err (status e), dir)
mirror status (ok (user, users)) dir =
    (ok user, record dir { users = users; sessions = sync_session_context user dir.sessions })

-- `str(...) or None`
abbrev pub or_none : String → Option String
or_none s = if s == "" then none else some s

-- The account that a caller asks for. The payload of the request has no `created_by` and no
-- `self_registered`, and names the tenant that it wants apart: what a draft says of the three is not
-- read.
abbrev pub managed_draft : Caller → String → Draft → Draft
managed_draft caller target payload = record payload {
  tenant_id = target;
  created_by = or_none caller.user_id;
  self_registered = false;
}

unfoldable pub create_managed_user :
    Settings
    → Crypto
    → Caller
    → Option String
    → Draft
    → String
    → ℕ
    → ℕ
    → Directory
    → Result AdminError PublicUser × Directory
unfolding mirror
create_managed_user settings crypto caller requested payload id wall now dir =
    elim (resolve_target_tenant settings caller requested) [
      | err e ↦ (err e, dir)
      | ok target ↦
          let (writable, plane) = require_tenant_writable settings caller target dir.plane now in
          let dir' = record dir { plane = plane } in
          elim (writable >>= λ _. assert_can_assign_roles settings caller payload.roles) [
            | err e ↦ (err e, dir')
            | ok _ ↦
                mirror create_error
                  (create_user crypto id (managed_draft caller target payload) wall dir.users) dir'
          ]
    ]

abbrev pub update_error : UserError → AdminError
update_error user_not_found = no_such_user
update_error e = raised e

-- `if payload.roles is not None: ...`
abbrev pub roles_assignable :
    Settings → Caller → Option (List String) → Result AdminError (Unit {0})
roles_assignable settings caller none = ok tt
roles_assignable settings caller (some roles) = assert_can_assign_roles settings caller roles

unfoldable pub update_managed_user :
    Settings
    → Crypto
    → Caller
    → String
    → Patch
    → ℕ
    → ℕ
    → Directory
    → Result AdminError PublicUser × Directory
unfolding mirror
update_managed_user settings crypto caller id payload wall now dir =
    elim (load_managed_user settings caller id dir.users) [
      | err e ↦ (err e, dir)
      | ok doc ↦
          let (writable, plane) =
            require_tenant_writable settings caller doc.tenant_id dir.plane now in
          let dir' = record dir { plane = plane } in
          elim (writable >>= λ _. roles_assignable settings caller payload.roles) [
            | err e ↦ (err e, dir')
            | ok _ ↦ mirror update_error (update_user crypto id payload wall dir.users) dir'
          ]
    ]

unfoldable pub delete_managed_user :
    Settings → Caller → String → ℕ → Directory → Result AdminError (Unit {0}) × Directory
delete_managed_user settings caller id now dir =
    elim (load_managed_user settings caller id dir.users) [
      | err e ↦ (err e, dir)
      | ok doc ↦
          let (writable, plane) =
            require_tenant_writable settings caller doc.tenant_id dir.plane now in
          let dir' = record dir { plane = plane } in
          elim writable [
            | err e ↦ (err e, dir')
            | ok _ ↦
                if doc.email == caller.user_id
                then (err own_account, dir')
                else let (gone, users, sessions) = delete_user id dir.users dir.sessions in
                  (ok tt, record dir' { users = users; sessions = sessions })
          ]
    ]

unfoldable pub change_my_password :
    Crypto → Caller → String → String → ℕ → Directory → Result AdminError PublicUser × Directory
unfolding mirror
change_my_password crypto caller current new wall dir =
    elim (find_user_by_email caller.user_id dir.users) [
      | none ↦ (err bootstrap_admin, dir)
      | some (id, doc) ↦
          if not (verify_password crypto current doc.password_hash)
          then (err wrong_password, dir)
          else mirror raised
              (update_user crypto id
                (record { password = some new; roles = none; scopes = none; status = none }) wall
                dir.users)
              dir
    ]

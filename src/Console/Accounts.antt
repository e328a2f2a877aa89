-- ===== src/Console/Accounts.antt =====
-- gateway/routers/admin/users.py: the one-click demo, viewer and team accounts.
use m_gate.Prelude.{
  List, Option, Result, String, [], concat, err, false, if◌then◌else◌, lookup, map, ok, or_default,
  strip, take, ℕ, ◌==◌, ◌∷◌, string_eq, nat_eq, pair_eq,
}
use m_gate.Authorization.{Catalogs, catalog_of}
use m_gate.Catalog.{CatalogTool}
use m_gate.Console.{
  AdminError, Caller, Directory, create_error, mirror, require_tenant_writable,
  resolve_target_tenant, or_none,
}
use m_gate.Passwords.{Crypto}
use m_gate.Settings.{Settings}
use m_gate.Users.{Draft, PublicUser, UserError, Users, create_user, user_already_exists}
use m_gate.Users.Scopes.{
  demo_user_roles, derive_demo_scopes, derive_safe_scopes, team_user_roles, viewer_user_roles,
}

pub data Preset : Type 0 where
  demo viewer team : Preset

abbrev pub roles_of_preset : Preset → List String
roles_of_preset demo = demo_user_roles
roles_of_preset viewer = viewer_user_roles
roles_of_preset team = team_user_roles

abbrev pub email_prefix : Preset → String
email_prefix demo = "demo"
email_prefix viewer = "viewer"
email_prefix team = "team"

abbrev scopes_of_preset : Preset → List CatalogTool → List String
unfolding derive_safe_scopes derive_demo_scopes
scopes_of_preset demo catalog = derive_demo_scopes catalog
scopes_of_preset viewer catalog = derive_demo_scopes catalog
scopes_of_preset team catalog = derive_safe_scopes catalog

-- DemoUserCreateRequest
pub record PresetRequest : Type 0 where
  pub email : Option String
  pub tenant_id : Option String
  pub label : Option String
  pub client : Option String

-- `str(...) or None`
-- What is drawn at random: the password, the ids, and the texts of `secrets.token_hex(3)`.
pub record Draws : Type 0 where
  pub password : String
  pub id : String
  pub rolls : List (String × String)

abbrev generated : Preset → String → String
generated preset suffix = concat (email_prefix preset ∷ "-" ∷ suffix ∷ "@demo.local" ∷ [])

-- The addresses that are tried, each with the id that its document would have.
abbrev candidates : Preset → PresetRequest → Draws → List (String × String)
unfolding strip
candidates preset payload draws =
    let supplied = or_default payload.email "" in
    if strip supplied == ""
    then map (λ roll. (generated preset roll.0, roll.1)) (take 5 draws.rolls)
    else (supplied, draws.id) ∷ []

-- The loop of `_create_preset_user_record`: an address that is taken gives way to the next.
unfoldable pub try_candidates :
    Crypto → Draft → List (String × String) → ℕ → Users → Result UserError (PublicUser × Users)
try_candidates crypto draft [] wall users = err user_already_exists
try_candidates crypto draft ((email, id) ∷ rest) wall users =
    elim (create_user crypto id (record draft { email = email }) wall users) [
      | ok made ↦ ok made
      | err e ↦ elim e [
        | user_already_exists ↦ try_candidates crypto draft rest wall users
        | other ↦ err other
      ]
    ]

unfoldable pub create_preset_user :
    Settings
    → Crypto
    → Caller
    → Catalogs
    → Preset
    → PresetRequest
    → Draws
    → ℕ
    → ℕ
    → Directory
    → Result AdminError PublicUser × Directory
unfolding candidates scopes_of_preset
create_preset_user settings crypto caller catalogs preset payload draws wall now dir =
    elim (resolve_target_tenant settings caller payload.tenant_id) [
      | err e ↦ (err e, dir)
      | ok target ↦
          let (writable, plane) = require_tenant_writable settings caller target dir.plane now in
          let dir' = record dir { plane = plane } in
          let draft : Draft = record {
            email = "";
            password = draws.password;
            tenant_id = target;
            roles = roles_of_preset preset;
            scopes = scopes_of_preset preset (catalog_of (lookup target catalogs));
            status = "active";
            created_by = or_none caller.user_id;
            self_registered = false;
            label = payload.label;
            client = payload.client;
          } in
          elim writable [
            | err e ↦ (err e, dir')
            | ok _ ↦
                mirror create_error
                  (try_candidates crypto draft (candidates preset payload draws) wall dir.users)
                  dir'
          ]
    ]

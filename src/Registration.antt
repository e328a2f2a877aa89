-- ===== src/Registration.antt =====
-- services/registration.py: public sign-up, and the part of provision_tenant and deprovision_tenant
-- of services/tenant_provisioner.py that writes the control database.
pub mod Throttle
pub mod Account
pub mod Failure
use Prim.Native.String
use Prim.Native.String.{count}
use Prim.Native.Char.{code}
use m_gate.Prelude.{
  Bool, Dict, List, Option, Result, String, [], add_to_set, clamp, concat, delete, err, false,
  if◌then◌else◌, insert, is_space, keep, leb, length, lookup, ltb, max, nat_beq, none, not, ok, pos,
  some, true, ℕ, ◌&&◌, ◌*◌, ◌+◌, ◌-◌, ◌/◌, ◌==◌, ◌>>=◌, ◌||◌, ◌∷◌, string_eq, nat_eq, pair_eq,
}
use m_gate.Console.{Directory}
use m_gate.Passwords.{Crypto}
use m_gate.Settings.{Settings}
use m_gate.Tenant.Lifecycle.{evict}
use m_gate.Tenant.Status.{status_active}
use m_gate.Tenant.Store.{TenantDoc, blank_doc}
use m_gate.Tenant.Tier.{confirmation_unconfirmed, set_tenant_confirmation, tier_caps}
use m_gate.Tenant.Tier.Caps.{normalized}
use m_gate.Usage.{Metering, set_quota}
use m_gate.Users.{
  Draft, PublicUser, User, UserError, Users, create_user, find_user_by_email, normalize_email,
  sync_session_context, user_already_exists,
}

abbrev pub self_service_roles : List String
self_service_roles = "user" ∷ "admin" ∷ []

abbrev pub self_registration_actor : Option String
self_registration_actor = some "self-registration"

-- RegistrationError and its subclasses, and what passes through from the other services.
pub data RegistrationError : Type 0 where
  registration_disabled invalid_email password_too_short beta_full : RegistrationError
  throttled : ℕ → RegistrationError
  provisioning_failed invalid_tier email_taken : RegistrationError
  from_users : UserError → RegistrationError

-- `registration_attempts`: the counts, by address and start of the window in seconds.
abbrev pub Attempts : Type 0
Attempts = Dict (String × ℕ) ℕ

-- What a sign-up reads and writes.
pub record Gateway : Type 0 where
  pub directory : Directory
  pub metering : Metering
  pub attempts : Attempts
  pub ready : List String

-- `[^@\s]+\.[^@\s]+$` after the `@`: a dot with a character on either side. `seen` tells whether a
-- character came before.
has_inner_dot : Bool → String → Bool
has_inner_dot seen String.[] = false
has_inner_dot seen (String.◌∷◌ c s) =
    let rest = has_inner_dot true s in (nat_beq (code c) b'.' && (seen && not (s == ""))) || rest

no_at_or_space : String → Bool
unfolding is_space
no_at_or_space String.[] = true
no_at_or_space (String.◌∷◌ c s) =
    let rest = no_at_or_space s in not (nat_beq (code c) b'@') && (not (is_space c) && rest)

-- `^[^@\s]+@...`, where `seen` tells whether a character came before the `@`.
matches_from : Bool → String → Bool
unfolding has_inner_dot no_at_or_space is_space
matches_from seen String.[] = false
matches_from seen (String.◌∷◌ c s) =
    let rest = matches_from true s in
    if nat_beq (code c) b'@'
    then seen && (no_at_or_space s && has_inner_dot false s)
    else if is_space c
    then false
    else rest

unfoldable pub validate_credentials : String → String → Settings → Result RegistrationError String
unfolding normalize_email matches_from
validate_credentials email password settings =
    let normalized = normalize_email email in
    if (normalized == "") || not (matches_from false normalized)
    then err invalid_email
    else if ltb (count password) (max 1 (clamp settings.self_registration_min_password_length))
    then err password_too_short
    else ok normalized

abbrev pub throttle_window : Settings → ℕ
throttle_window settings = max 1 (clamp settings.self_registration_window_seconds)

-- Where a window that holds the time starts, in seconds.
unfoldable pub window_epoch : Settings → ℕ → ℕ
window_epoch settings wall = wall / 1000 / throttle_window settings * throttle_window settings

abbrev pub count_of : Option ℕ → ℕ
count_of none = 0
count_of (some n) = n

unfoldable pub enforce_ip_throttle :
    String → Settings → ℕ → Attempts → Result RegistrationError (Unit {0}) × Attempts
unfolding window_epoch
enforce_ip_throttle client_ip settings wall attempts =
    let limit = clamp settings.self_registration_max_per_ip in
    let epoch = window_epoch settings wall in
    let count = count_of (lookup (client_ip, epoch) attempts) + 1 in
    if limit == 0 then (ok tt, attempts) else (
      if ltb limit count
          then err (throttled (max 1 (((epoch + throttle_window settings) * 1000 - wall) / 1000)))
          else ok tt,
      insert (client_ip, epoch) count attempts,
    )

-- `count_documents({"self_registered": True})`
abbrev pub self_registered_count : Users → ℕ
self_registered_count users =
    length (keep (λ (entry : String × User). entry.1.self_registered) users)

unfoldable pub enforce_beta_cap : Settings → Users → Result RegistrationError (Unit {0})
enforce_beta_cap settings users =
    let cap = clamp settings.self_registration_max_tenants in
    if cap == 0
    then ok tt
    else if leb cap (self_registered_count users)
    then err beta_full
    else ok tt

-- The upsert of `provision_tenant`.
unfoldable pub upsert_tenant : String → ℕ → Dict String TenantDoc → Dict String TenantDoc
upsert_tenant tenant wall tenants = elim (lookup tenant tenants) [
  | none ↦
      insert tenant (record blank_doc { status = some status_active; updated_at = wall }) tenants
  | some doc ↦ insert tenant (record doc { updated_at = wall }) tenants
]

-- What comes from outside: the random parts, the clocks, and whether the work on the tenant's
-- database, its creation and its drop, succeeds.
pub record SignUp : Type 0 where
  pub email : String
  pub password : String
  pub client_ip : String
  pub suffix : String
  pub user_id : String
  pub wall : ℕ
  pub now : ℕ
  pub provisions : Bool
  pub drops : Bool

abbrev pub tenant_of_sign_up : Settings → SignUp → String
tenant_of_sign_up settings s = concat (settings.self_registration_tenant_prefix ∷ s.suffix ∷ [])

abbrev pub with_tenants : Dict String TenantDoc → Gateway → Gateway
with_tenants tenants g = record g {
  directory = record g.directory { plane = record g.directory.plane { tenants = tenants } };
}

-- `_rollback_tenant`: an exception of the drop is logged, after the document is gone.
unfoldable pub rollback_tenant : String → Bool → Gateway → Gateway
rollback_tenant tenant drops g =
    let gone = with_tenants (delete tenant g.directory.plane.tenants) g in
    if drops then record gone { ready = evict tenant g.ready } else gone

-- RegistrationResult, but for the token and its lifetime.
pub record Registered : Type 0 where
  pub user : PublicUser
  pub tenant_id : String
  pub confirmation : String

abbrev pub sign_up_draft : Settings → SignUp → String → Draft
sign_up_draft settings s normalized = record {
  email = normalized;
  password = s.password;
  tenant_id = tenant_of_sign_up settings s;
  roles = self_service_roles;
  scopes = "server:*" ∷ [];
  status = "active";
  created_by = self_registration_actor;
  self_registered = true;
  label = none;
  client = none;
}

abbrev pub registration_error : UserError → RegistrationError
registration_error user_already_exists = email_taken
registration_error e = from_users e

-- What follows a user that was created.
unfoldable pub finish : Settings → SignUp → PublicUser → Users → Gateway → Gateway
unfolding sync_session_context
finish settings s user users g =
    let tenant = tenant_of_sign_up settings s in
    let caps = tier_caps settings confirmation_unconfirmed in
    record g {
      directory = record g.directory {
        users = users;
        sessions = sync_session_context user g.directory.sessions;
      };
      metering =
          (set_quota g.metering tenant (pos caps.quota_calls_per_period)
            (pos caps.quota_sandbox_seconds_per_period) self_registration_actor s.wall).1;
    }

-- From the tenant's document on: the tier before the user, and a rollback if either fails.
unfoldable pub open_account :
    Settings → Crypto → SignUp → String → Gateway → Result RegistrationError Registered × Gateway
unfolding finish rollback_tenant create_user
open_account settings crypto s normalized g =
    let tenant = tenant_of_sign_up settings s in
    let (tier, plane) =
      set_tenant_confirmation settings g.directory.plane tenant confirmation_unconfirmed
        self_registration_actor s.wall s.now in
    let g' = record g { directory = record g.directory { plane = plane } } in
    elim tier [
      | err e ↦ (err invalid_tier, rollback_tenant tenant s.drops g')
      | ok _ ↦
          elim (create_user crypto s.user_id (sign_up_draft settings s normalized) s.wall
            g.directory.users) [
              | err e ↦ (err (registration_error e), rollback_tenant tenant s.drops g')
              | ok (user, users) ↦ (
                ok (record {
                  user = user;
                  tenant_id = tenant;
                  confirmation = confirmation_unconfirmed;
                }),
                finish settings s user users g',
              )
            ]
    ]

-- From the check that the address is free.
unfoldable pub provision_account :
    Settings → Crypto → SignUp → String → Gateway → Result RegistrationError Registered × Gateway
unfolding open_account find_user_by_email upsert_tenant
provision_account settings crypto s normalized g =
    elim (find_user_by_email normalized g.directory.users) [
      | some taken ↦ (err email_taken, g)
      | none ↦
          let tenant = tenant_of_sign_up settings s in
          let g' = with_tenants (upsert_tenant tenant s.wall g.directory.plane.tenants) g in
          if s.provisions
          then open_account settings crypto s normalized
              (record g' { ready = add_to_set tenant g.ready })
          else (err provisioning_failed, g')
    ]

unfoldable pub register_self_service_user :
    Settings → Crypto → SignUp → Gateway → Result RegistrationError Registered × Gateway
unfolding provision_account validate_credentials enforce_ip_throttle enforce_beta_cap
register_self_service_user settings crypto s g =
    if not settings.self_registration_enabled
    then (err registration_disabled, g)
    else elim (validate_credentials s.email s.password settings) [
      | err e ↦ (err e, g)
      | ok normalized ↦
          let (gate, attempts) = enforce_ip_throttle s.client_ip settings s.wall g.attempts in
          let g' = record g { attempts = attempts } in
          elim (gate >>= λ _. enforce_beta_cap settings g.directory.users) [
            | err e ↦ (err e, g')
            | ok _ ↦ provision_account settings crypto s normalized g'
          ]
    ]

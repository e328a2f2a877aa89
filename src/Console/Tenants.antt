-- ===== src/Console/Tenants.antt =====
-- gateway/routers/admin/tenants.py: the endpoints by which the console changes a tenant's status,
-- tier, freeze, policies and quota. A response is the document or the value that it shows.
use m_gate.Prelude.{
  Bool, List, Option, Result, String, delete, elem, err, if◌then◌else◌, lookup, none, not, ok, pos,
  some, ℕ, ℤ, ◌>>=◌, ◌||◌, string_eq, nat_eq, pair_eq,
}
use m_gate.Console.{AdminError, Caller, is_platform_admin, resolve_target_tenant}
use m_gate.Settings.{Settings}
use m_gate.Tenant.Lifecycle.{evict, restore_tenant, soft_delete_tenant}
use m_gate.Tenant.PipPolicy.{PipPolicyError}
use m_gate.Tenant.Status.{InvalidStatus, set_tenant_read_only, set_tenant_status}
use m_gate.Tenant.Store.{ControlPlane, TenantDoc}
use m_gate.Tenant.Tier.{InvalidConfirmation, set_tenant_confirmation, tier_caps}
use m_gate.Usage.{Metering, Quota, set_quota}

-- 403 for each of the two guards, the responses of the guards that the console shares, 404, 422,
-- and an exception that is not handled.
pub data TenantError : Type 0 where
  platform_admin_required tenant_admin_required tenant_not_found unhandled : TenantError
  guarded : AdminError → TenantError
  invalid_allowlist : PipPolicyError → TenantError

-- What the endpoints read and write: the control database, and what the process knows of tenants.
pub record Control : Type 0 where
  pub plane : ControlPlane
  pub metering : Metering
  pub ready : List String

unfoldable pub require_platform_admin : Settings → Caller → Result TenantError (Unit {0})
unfolding is_platform_admin
require_platform_admin settings caller =
    if is_platform_admin settings caller then ok tt else err platform_admin_required

unfoldable pub require_tenant_admin : Settings → Caller → Result TenantError (Unit {0})
unfolding is_platform_admin
require_tenant_admin settings caller =
    if is_platform_admin settings caller
      || (elem "admin" caller.roles || elem "tenant-admin" caller.roles)
    then ok tt
    else err tenant_admin_required

abbrev pub or_not_found : Option TenantDoc → Result TenantError TenantDoc
or_not_found none = err tenant_not_found
or_not_found (some doc) = ok doc

abbrev pub set_plane : ControlPlane → Control → Control
set_plane plane c = record c { plane = plane }

-- An endpoint of the platform's admins alone.
unfoldable pub by_platform :
    {A : Type 0}
    → Settings
    → Caller
    → Control
    → Result TenantError A × Control
    → Result TenantError A × Control
unfolding require_platform_admin
by_platform settings caller c done = elim (require_platform_admin settings caller) [
  | err e ↦ (err e, c)
  | ok _ ↦ done
]

-- `deprovision_tenant`, where the drop of the database raises or does not.
unfoldable pub deprovision_tenant :
    String → Bool → Control → Result TenantError (Unit {0}) × Control
deprovision_tenant tenant drops c =
    let gone = set_plane (record c.plane { tenants = delete tenant c.plane.tenants }) c in
    if not drops then (err unhandled, gone) else (
      elim (lookup tenant c.plane.tenants) [ none ↦ err tenant_not_found | some doc ↦ ok tt ],
      record gone { ready = evict tenant c.ready },
    )

unfoldable pub delete_tenant :
    Settings
    → Caller
    → String
    → Bool
    → Bool
    → ℕ
    → ℕ
    → Control
    → Result TenantError (Unit {0}) × Control
unfolding by_platform deprovision_tenant soft_delete_tenant
delete_tenant settings caller tenant hard drops wall now c =
    let soft =
      soft_delete_tenant settings c.plane c.ready tenant none (some caller.user_id) wall now in
    by_platform settings caller c (
      if hard
      then deprovision_tenant tenant drops c
      else (or_not_found soft.0 >>= λ doc. ok tt, record c { plane = soft.1; ready = soft.2 }))

unfoldable pub restore_tenant_endpoint :
    Settings → Caller → String → ℕ → ℕ → Control → Result TenantError TenantDoc × Control
unfolding by_platform
restore_tenant_endpoint settings caller tenant wall now c =
    let (doc, plane, ready) =
      restore_tenant settings c.plane c.ready tenant (some caller.user_id) wall now in
    by_platform settings caller c (or_not_found doc, record c { plane = plane; ready = ready })

abbrev pub status_answer : Result InvalidStatus (Option TenantDoc) → Result TenantError TenantDoc
status_answer (err e) = err unhandled
status_answer (ok doc) = or_not_found doc

unfoldable pub set_tenant_status_endpoint :
    Settings
    → Caller
    → String
    → String
    → Option String
    → ℕ
    → ℕ
    → Control
    → Result TenantError TenantDoc × Control
unfolding by_platform
set_tenant_status_endpoint settings caller tenant target reason wall now c =
    let (r, plane) =
      set_tenant_status settings c.plane tenant target (some caller.user_id) reason (λ doc. doc)
        wall now in
    by_platform settings caller c (status_answer r, set_plane plane c)

abbrev pub tier_answer :
    Result InvalidConfirmation (Option TenantDoc) → Result TenantError TenantDoc
tier_answer (err e) = err unhandled
tier_answer (ok doc) = or_not_found doc

-- The quota of the new tier is set only if the tenant was found.
abbrev pub stamp_quota :
    Settings
    → Caller
    → String
    → String
    → ℕ
    → Result TenantError TenantDoc
    → Control
    → Result TenantError TenantDoc × Control
stamp_quota settings caller tenant confirmation wall (err e) c = (err e, c)
stamp_quota settings caller tenant confirmation wall (ok doc) c =
    let caps = tier_caps settings confirmation in
    (
      ok doc,
      record c {
        metering =
            (set_quota c.metering tenant (pos caps.quota_calls_per_period)
              (pos caps.quota_sandbox_seconds_per_period) (some caller.user_id) wall).1;
      },
    )

unfoldable pub set_tenant_confirmation_endpoint :
    Settings → Caller → String → String → ℕ → ℕ → Control → Result TenantError TenantDoc × Control
unfolding by_platform
set_tenant_confirmation_endpoint settings caller tenant confirmation wall now c =
    let (r, plane) =
      set_tenant_confirmation settings c.plane tenant confirmation (some caller.user_id) wall now in
    by_platform settings caller c
      (stamp_quota settings caller tenant confirmation wall (tier_answer r) (set_plane plane c))

unfoldable pub set_tenant_read_only_endpoint :
    Settings
    → Caller
    → String
    → Bool
    → Option String
    → ℕ
    → ℕ
    → Control
    → Result TenantError TenantDoc × Control
unfolding by_platform
set_tenant_read_only_endpoint settings caller tenant enabled reason wall now c =
    let (doc, plane) =
      set_tenant_read_only settings c.plane tenant enabled (some caller.user_id) reason wall now in
    by_platform settings caller c (or_not_found doc, set_plane plane c)

unfoldable pub update_tenant_quota :
    Settings → Caller → String → ℤ → ℤ → ℕ → Control → Result TenantError Quota × Control
unfolding by_platform
update_tenant_quota settings caller tenant calls_limit sandbox_seconds_limit wall c =
    by_platform settings caller c (elim (resolve_target_tenant settings caller (some tenant)) [
      | err e ↦ (err (guarded e), c)
      | ok target ↦
          let (quota, metering) =
            set_quota c.metering target calls_limit sandbox_seconds_limit (some caller.user_id)
              wall in
          (ok quota, record c { metering = metering })
    ])

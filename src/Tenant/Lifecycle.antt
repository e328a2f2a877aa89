-- ===== src/Tenant/Lifecycle.antt =====
-- services/tenant_provisioner.py: soft deletion, restoration and the purge of tenants whose
-- retention is over. Whether the drop of a tenant's database raises is the parameter `drops`; the
-- set of tenants that the process takes for ready is a list.
pub mod Retention
use m_gate.Prelude.{
  Bool, Dict, List, Option, Result, String, [], clamp, delete, elem, err, false, if◌then◌else◌, leb,
  lookup, modify, none, not, ok, or_default, pull, some, suc, true, zero, ℕ, ℤ, ◌&&◌, ◌*◌, ◌+◌,
  ◌==◌, ◌∷◌, string_eq, nat_eq, pair_eq,
}
use m_gate.Settings.{Settings}
use m_gate.Tenant.Status.{InvalidStatus, set_tenant_status, status_active, status_deleted}
use m_gate.Tenant.Store.{ControlPlane, TenantDoc, field}

abbrev pub day : ℕ
day = 86400000

-- `extra` of a deletion and of a restoration.
abbrev pub deletion : ℕ → ℕ → TenantDoc → TenantDoc
deletion now purge_at doc = record doc {
  deleted_at = some now;
  purge_at = some purge_at;
  purge_started_at = none;
}

abbrev pub restoration : TenantDoc → TenantDoc
restoration doc = record doc { deleted_at = none; purge_at = none; purge_started_at = none }

abbrev pub days_of : Settings → Option ℤ → ℕ
days_of settings none = clamp settings.tenant_retention_days
days_of settings (some days) = clamp days

-- `_evict_tenant_cache`
abbrev pub evict : String → List String → List String
evict tenant ready = pull tenant ready

abbrev found_doc : Result InvalidStatus (Option TenantDoc) → Option TenantDoc
found_doc (ok doc) = doc
found_doc (err e) = none

abbrev evict_if : Option TenantDoc → String → List String → List String
evict_if none tenant ready = ready
evict_if (some doc) tenant ready = evict tenant ready

unfoldable pub soft_delete_tenant :
    Settings
    → ControlPlane
    → List String
    → String
    → Option ℤ
    → Option String
    → ℕ
    → ℕ
    → Option TenantDoc × ControlPlane × List String
soft_delete_tenant settings plane ready tenant retention_days actor wall now =
    let purge_at = wall + days_of settings retention_days * day in
    let (r, plane') =
      set_tenant_status settings plane tenant status_deleted actor none (deletion wall purge_at)
        wall now in
    (found_doc r, plane', evict_if (found_doc r) tenant ready)

abbrev pub is_deleted : Option TenantDoc → Bool
is_deleted doc = or_default (field doc (λ d. d.status)) "" == status_deleted

unfoldable pub restore_tenant :
    Settings
    → ControlPlane
    → List String
    → String
    → Option String
    → ℕ
    → ℕ
    → Option TenantDoc × ControlPlane × List String
restore_tenant settings plane ready tenant actor wall now =
    let (r, plane') =
      set_tenant_status settings plane tenant status_active actor none restoration wall now in
    if is_deleted (lookup tenant plane.tenants)
    then (found_doc r, plane', evict_if (found_doc r) tenant ready)
    else (none, plane, ready)

abbrev pub reached : ℕ → Option ℕ → Bool
reached cutoff none = false
reached cutoff (some t) = leb t cutoff

abbrev is_unset : Option ℕ → Bool
is_unset none = true
is_unset (some t) = false

-- The filter of a claim, but for the tenants that failed in this pass.
abbrev pub is_due : ℕ → Option TenantDoc → Bool
is_due cutoff doc =
    is_deleted doc
    && (reached cutoff (field doc (λ d. d.purge_at))
        && is_unset (field doc (λ d. d.purge_started_at)))

-- The first entry that the filter of a claim matches.
unfoldable pub first_due :
    ℕ → List String → Dict String TenantDoc → Dict String TenantDoc → Option String
first_due cutoff failed tenants [] = none
first_due cutoff failed tenants ((tenant, doc) ∷ entries) =
    if is_due cutoff (lookup tenant tenants) && not (elem tenant failed)
    then some tenant
    else first_due cutoff failed tenants entries

abbrev pub claim : ℕ → TenantDoc → TenantDoc
claim cutoff doc = record doc { purge_started_at = some cutoff }

-- `update_one({"tenant_id": ..., "status": "deleted"}, ...)`
abbrev pub release : TenantDoc → TenantDoc
release doc = if is_deleted (some doc) then record doc { purge_started_at = none } else doc

-- `deprovision_tenant` deletes the document first; where the drop then raises, the claim is
-- released.
unfoldable pub purge_one :
    (String → Bool) → ℕ → String → Dict String TenantDoc → Dict String TenantDoc
purge_one drops cutoff tenant tenants =
    let gone = delete tenant (modify tenant (claim cutoff) tenants) in
    if drops tenant then gone else modify tenant release gone

-- The passes of the loop that are left, the tenants that failed, and how many were purged.
unfoldable pub purge_expired_tenants :
    (String → Bool) → ℕ → ℕ → List String → ℕ → Dict String TenantDoc → ℕ × Dict String TenantDoc
unfolding first_due purge_one
purge_expired_tenants drops cutoff zero failed purged tenants = (purged, tenants)
purge_expired_tenants drops cutoff (suc limit) failed purged tenants =
    elim (first_due cutoff failed tenants tenants) [
      | none ↦ (purged, tenants)
      | some tenant ↦
          let failed' = if drops tenant then failed else tenant ∷ failed in
          let purged' = if drops tenant then suc purged else purged in
          if tenant == ""
          then purge_expired_tenants drops cutoff limit failed purged
              (modify tenant (claim cutoff) tenants)
          else purge_expired_tenants drops cutoff limit failed' purged'
              (purge_one drops cutoff tenant tenants)
    ]

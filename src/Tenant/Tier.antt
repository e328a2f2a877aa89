-- ===== src/Tenant/Tier.antt =====
-- services/account_tier.py: whether a tenant is confirmed, and the caps that follow.
pub mod Caps
use m_gate.Prelude.{
  List, Option, Result, String, [], clamp, elem, err, find_and_modify, if◌then◌else◌, keep, lookup,
  lower, map, none, not, ok, or_default, some, sorted_set, split_list, strip, ℕ, ◌==◌, ◌∷◌,
  string_eq,
}
use m_gate.Settings.{Settings}
use m_gate.Tenant.Cache.{Cache, read, write_through}
use m_gate.Tenant.Store.{ControlPlane, TenantDoc, cache_ttl, field, stamp}

abbrev pub confirmation_unconfirmed : String
confirmation_unconfirmed = "unconfirmed"

abbrev pub confirmation_confirmed : String
confirmation_confirmed = "confirmed"

abbrev pub valid_confirmations : List String
valid_confirmations = confirmation_unconfirmed ∷ confirmation_confirmed ∷ []

-- 0 is no limit, in the first two fields.
pub record TierCaps : Type 0 where
  pub max_servers : ℕ
  pub max_tools : ℕ
  pub allowed_transports : List String
  pub quota_calls_per_period : ℕ
  pub quota_sandbox_seconds_per_period : ℕ

-- `ValueError`
pub data InvalidConfirmation : Type 0 where
  invalid_confirmation : String → InvalidConfirmation

unfoldable pub normalize_confirmation : Option String → String
unfolding strip lower
normalize_confirmation value =
    let normalized = lower (strip (or_default value "")) in
    if elem normalized valid_confirmations then normalized else confirmation_confirmed

unfoldable pub parse_transports : String → List String
unfolding split_list strip sorted_set
parse_transports raw = sorted_set (keep (λ p. not (p == "")) (map strip (split_list raw)))

unfoldable pub tier_caps : Settings → String → TierCaps
tier_caps settings confirmation =
    if normalize_confirmation (some confirmation) == confirmation_unconfirmed
    then record {
      max_servers = clamp settings.unconfirmed_max_servers;
      max_tools = clamp settings.unconfirmed_max_tools;
      allowed_transports = parse_transports settings.unconfirmed_allowed_transports;
      quota_calls_per_period = clamp settings.unconfirmed_quota_calls_per_period;
      quota_sandbox_seconds_per_period =
          clamp settings.unconfirmed_quota_sandbox_seconds_per_period;
    }
    else record {
      max_servers = clamp settings.confirmed_max_servers;
      max_tools = clamp settings.confirmed_max_tools;
      allowed_transports = parse_transports settings.confirmed_allowed_transports;
      quota_calls_per_period = clamp settings.confirmed_quota_calls_per_period;
      quota_sandbox_seconds_per_period = clamp settings.confirmed_quota_sandbox_seconds_per_period;
    }

unfoldable pub get_tenant_confirmation :
    Settings → ControlPlane → String → ℕ → String × ControlPlane
get_tenant_confirmation settings plane tenant now =
    let (confirmation, cache) =
      read (cache_ttl settings) now tenant
        (normalize_confirmation (field (lookup tenant plane.tenants) (λ d. d.confirmation)))
        plane.confirmation_cache in
    (confirmation, record plane { confirmation_cache = cache })

unfoldable pub get_tenant_tier_caps : Settings → ControlPlane → String → ℕ → TierCaps × ControlPlane
get_tenant_tier_caps settings plane tenant now =
    let (confirmation, plane') = get_tenant_confirmation settings plane tenant now in
    (tier_caps settings confirmation, plane')

pub confirmation_update : String → Option String → ℕ → TenantDoc → TenantDoc
confirmation_update confirmation updated_by wall doc = record doc {
  confirmation = some confirmation;
  confirmation_stamp = stamp wall updated_by;
  updated_at = wall;
}

-- `none` where the tenant is missing; the cache is left alone there.
abbrev refresh : Settings → String → String → ℕ → Option TenantDoc → Cache String → Cache String
refresh settings tenant confirmation now none cache = cache
refresh settings tenant confirmation now (some doc) cache =
    write_through (cache_ttl settings) now tenant confirmation cache

unfoldable pub set_tenant_confirmation :
    Settings
    → ControlPlane
    → String
    → String
    → Option String
    → ℕ
    → ℕ
    → Result InvalidConfirmation (Option TenantDoc) × ControlPlane
unfolding strip lower confirmation_update
set_tenant_confirmation settings plane tenant confirmation updated_by wall now =
    let normalized = normalize_confirmation (some confirmation) in
    let (doc, tenants) =
      find_and_modify tenant (confirmation_update normalized updated_by wall) plane.tenants in
    if elem (lower (strip confirmation)) valid_confirmations
    then (
      ok doc,
      record plane {
        tenants = tenants;
        confirmation_cache = refresh settings tenant normalized now doc plane.confirmation_cache;
      },
    )
    else (err (invalid_confirmation confirmation), plane)

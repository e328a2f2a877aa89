-- ===== src/Tenant/Tier/Caps.antt =====
-- Which caps a tenant gets.
use m_gate.Prelude.{
  ==_refl, Option, String, ap, arith, elem, eq_iff, inl, inr, lookup, lookup-modify, lower, modify,
  none, ok, or_default, refl, some, strip, true, ℕ, ◌∙◌, ◌≡◌, ◌⊎◌, string_eq, nat_eq, pair_eq,
}
use m_gate.Settings.{Settings}
use m_gate.Tenant.Cache.{alive, cached, read, write_through}
use m_gate.Tenant.Cache.Fresh.{read-write_through}
use m_gate.Tenant.Store.{ControlPlane, TenantDoc, cache_ttl}
use m_gate.Tenant.Tier.{
  confirmation_confirmed, confirmation_unconfirmed, confirmation_update, get_tenant_confirmation,
  get_tenant_tier_caps, normalize_confirmation, set_tenant_confirmation, tier_caps,
  valid_confirmations,
}

normalized_cases :
    (value : Option String)
    → (normalize_confirmation value ≡ confirmation_unconfirmed)
      ⊎ (normalize_confirmation value ≡ confirmation_confirmed)
unfolding normalize_confirmation
normalized_cases value =
    let s = lower (strip (or_default value "")) in
    ground (arith, eq_iff s confirmation_unconfirmed, eq_iff s confirmation_confirmed)

-- Normalizing twice is normalizing once.
pub normalize_confirmation_idem :
    (value : Option String)
    → normalize_confirmation (some (normalize_confirmation value)) ≡ normalize_confirmation value
normalize_confirmation_idem value = elim (normalized_cases value) [
  | inl e ↦ rw e (unfold normalize_confirmation in refl)
  | inr e ↦ rw e (unfold normalize_confirmation in refl)
]

-- A tenant of which nothing is known has the caps of a confirmed one.
pub get_tenant_tier_caps_default :
    (settings : Settings) (plane : ControlPlane) (tenant : String) (now : ℕ)
    → lookup tenant plane.tenants ≡ none
    → lookup tenant plane.confirmation_cache ≡ none
    → (get_tenant_tier_caps settings plane tenant now).0 ≡ tier_caps settings confirmation_confirmed
unfolding get_tenant_tier_caps get_tenant_confirmation read cached normalize_confirmation
get_tenant_tier_caps_default settings plane tenant now missing cold = rw (missing, cold, alive)

tier_caps-normalize :
    (settings : Settings) (confirmation : String)
    → tier_caps settings (normalize_confirmation (some confirmation))
      ≡ tier_caps settings confirmation
unfolding tier_caps
tier_caps-normalize settings confirmation = rw (normalize_confirmation_idem (some confirmation))

-- A write to a tenant that exists.
module _ (settings : Settings) (plane : ControlPlane) (tenant confirmation : String)
    (updated_by : Option String) (wall now : ℕ) (doc : TenantDoc)
    (found : lookup tenant plane.tenants ≡ some doc)
    (valid : elem (lower (strip confirmation)) valid_confirmations ≡ true) where
  abbrev pub normalized : String
  normalized = normalize_confirmation (some confirmation)

  pub set_tenant_confirmation_lem :
      set_tenant_confirmation settings plane tenant confirmation updated_by wall now ≡ (
        ok (some (confirmation_update normalized updated_by wall doc)),
        record plane {
          tenants = modify tenant (confirmation_update normalized updated_by wall) plane.tenants;
          confirmation_cache =
              write_through (cache_ttl settings) now tenant normalized plane.confirmation_cache;
        },
      )
  unfolding set_tenant_confirmation
  set_tenant_confirmation_lem = rw (valid, found)

  pub get_tenant_confirmation-set :
      (later : ℕ)
      → (get_tenant_confirmation settings
          (set_tenant_confirmation settings plane tenant confirmation updated_by wall now).1
          tenant
          later).0
        ≡ normalized
  unfolding get_tenant_confirmation confirmation_update
  get_tenant_confirmation-set later =
      rw
        (
          set_tenant_confirmation_lem,
          lookup-modify,
          ==_refl tenant,
          found,
          normalize_confirmation_idem (some confirmation),
        )
        (read-write_through (cache_ttl settings) now tenant normalized plane.confirmation_cache
          later)

  -- Once a valid tier is set for a tenant that has a document, its caps hold on the process that
  -- wrote, at any time after.
  pub get_tenant_tier_caps-set :
      (later : ℕ)
      → (get_tenant_tier_caps settings
          (set_tenant_confirmation settings plane tenant confirmation updated_by wall now).1
          tenant
          later).0
        ≡ tier_caps settings confirmation
  unfolding get_tenant_tier_caps
  get_tenant_tier_caps-set later =
      ap (tier_caps settings) (get_tenant_confirmation-set later)
      ∙ tier_caps-normalize settings confirmation

-- ===== src/Tests/Retention.antt =====
-- Deleted, restored and purged tenants at concrete inputs.
use m_gate.Prelude.{
  Bool, Dict, String, [], false, lookup, none, refl, some, ◌∷◌, ◌≡◌, string_eq, nat_eq, pair_eq,
}
use m_gate.Tenant.Lifecycle.{is_due, purge_one}
use m_gate.Tenant.Lifecycle.Retention.{lookup-purge_one}
use m_gate.Tenant.Store.{TenantDoc}
use m_gate.Tests.Fixtures.{acme}

-- Every drop fails.
abbrev stuck : String → Bool
stuck tenant = false

abbrev gone_acme : TenantDoc
gone_acme = record acme { status = some "deleted"; purge_at = some 5000 }

abbrev gone_tenants : Dict String TenantDoc
gone_tenants = ("gone", gone_acme) ∷ ("acme", acme) ∷ []

acme_spared : is_due 9000 (lookup "acme" gone_tenants) ≡ false
unfolding lookup
acme_spared = refl

lookup-purge_one_example : lookup "gone" (purge_one stuck 9000 "gone" gone_tenants) ≡ none
lookup-purge_one_example = lookup-purge_one stuck 9000 "gone" "gone" gone_tenants

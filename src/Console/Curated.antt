-- ===== src/Console/Curated.antt =====
-- What leaves the privileged part of a tenant and all other tenants as they were.
use m_gate.Prelude.{
  ==_refl, Bool, Option, String, ap, elem, false, lookup, lookup-modify, map_option, modify, none,
  refl, some, ℕ, ◌==◌, ◌∙◌, ◌≡◌, string_eq, nat_eq, pair_eq,
}
use m_gate.Console.Tenants.{Control}
use m_gate.Tenant.Store.{TenantDoc}

-- The part of a tenant's document that is for the platform's admins alone.
abbrev pub privileged :
    TenantDoc → Option String × Option Bool × Option String × Option ℕ × Option ℕ × Option ℕ
privileged doc = (
  doc.status, doc.read_only, doc.confirmation, doc.deleted_at, doc.purge_at, doc.purge_started_at,
)

module _ (tenant : String) where
  -- Other tenants are as they were, what the process knows of them included, and so is what is
  -- privileged of this one, and all quotas.
  pub record IsCurated (before after : Control) : Type 0 where
    pub others :
        (t : String)
        → (tenant == t) ≡ false
        → lookup t after.plane.tenants ≡ lookup t before.plane.tenants
    pub kept :
        map_option privileged (lookup tenant after.plane.tenants)
        ≡ map_option privileged (lookup tenant before.plane.tenants)
    pub metering : after.metering ≡ before.metering
    pub ready : (t : String) → (tenant == t) ≡ false → elem t after.ready ≡ elem t before.ready

  pub unchanged :
      (before after : Control)
      → after.plane.tenants ≡ before.plane.tenants
      → after.metering ≡ before.metering
      → after.ready ≡ before.ready
      → IsCurated before after
  unchanged before after same metering ready = record {
    others = λ t e. ap (lookup t) same;
    kept = ap (λ ts. map_option privileged (lookup tenant ts)) same;
    metering = metering;
    ready = λ t e. ap (elem t) ready;
  }

  pub IsCurated-trans : (a b c : Control) → IsCurated a b → IsCurated b c → IsCurated a c
  IsCurated-trans a b c h k = record {
    others = λ t e. k.others t e ∙ h.others t e;
    kept = k.kept ∙ h.kept;
    metering = k.metering ∙ h.metering;
    ready = λ t e. k.ready t e ∙ h.ready t e;
  }

  pub modified :
      (f : TenantDoc → TenantDoc) (before after : Control)
      → ((doc : TenantDoc) → privileged (f doc) ≡ privileged doc)
      → after.plane.tenants ≡ modify tenant f before.plane.tenants
      → after.metering ≡ before.metering
      → after.ready ≡ before.ready
      → IsCurated before after
  modified f before after plain moved metering ready = record {
    others =
        λ t e. ap (lookup t) moved ∙ rw (lookup-modify tenant t f before.plane.tenants, e) refl;
    kept =
        ap (λ ts. map_option privileged (lookup tenant ts)) moved
        ∙ rw (lookup-modify tenant tenant f before.plane.tenants, ==_refl tenant)
            (twice (lookup tenant before.plane.tenants));
    metering = metering;
    ready = λ t e. ap (elem t) ready;
  }
    where
      twice :
          (doc : Option TenantDoc)
          → map_option privileged (map_option f doc) ≡ map_option privileged doc
      twice none = refl
      twice (some doc) = ap some (plain doc)

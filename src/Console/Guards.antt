-- ===== src/Console/Guards.antt =====
-- The guards of the endpoints for which a tenant's own admin suffices.
use m_gate.Prelude.{
  Bool-cases, Result, String, err, inl, inr, ok, refl, some, subst, sym, true, ℕ, ◌≡◌,
}
use m_gate.Console.{
  AdminError, Caller, is_platform_admin, require_tenant_writable, resolve_target_tenant,
}
use m_gate.Console.Curated.{IsCurated, IsCurated-trans, unchanged}
use m_gate.Console.Curating.{curating_target, with_target}
use m_gate.Console.Steps.{is_local, target-local}
use m_gate.Console.Tenants.{Control, TenantError, guarded, require_tenant_admin, set_plane}
use m_gate.Settings.{Settings}
use m_gate.Tenant.Status.{get_tenant_read_only}
use m_gate.Tenant.Store.{ControlPlane}

module _ (settings : Settings) (tenant : String) where
  writable-tenants :
      (caller : Caller) (target : String) (plane : ControlPlane) (now : ℕ)
      → (require_tenant_writable settings caller target plane now).1.tenants ≡ plane.tenants
  unfolding require_tenant_writable get_tenant_read_only
  writable-tenants caller target plane now = elim (Bool-cases (is_platform_admin settings caller)) [
    | inl e ↦ rw e refl
    | inr e ↦ rw e refl
  ]

  -- The guards change nothing but a cache, and let a local caller through for its own tenant alone.
  pub record Guarded (c : Control) (r : Result TenantError String × Control) : Type 0 where
    tenants : r.1.plane.tenants ≡ c.plane.tenants
    metering : r.1.metering ≡ c.metering
    ready : r.1.ready ≡ c.ready
    own : (target : String) → r.0 ≡ ok target → target ≡ tenant

  by_freeze :
      (caller : Caller) (target : String) (c : Control) (w : Result AdminError (Unit {0}))
      (plane : ControlPlane)
      → target ≡ tenant
      → plane.tenants ≡ c.plane.tenants
      → Guarded c (elim w [ err e ↦ err (guarded e) | ok _ ↦ ok target ], set_plane plane c)
  by_freeze caller target c (err e) plane same kept = record {
    tenants = kept;
    metering = refl;
    ready = refl;
    own = λ t h. cc;
  }
  by_freeze caller target c (ok u) plane same kept = record {
    tenants = kept;
    metering = refl;
    ready = refl;
    own = λ t h. cc;
  }

  by_target :
      (caller : Caller) (now : ℕ) (c : Control) (r : Result AdminError String)
      → ((target : String) → r ≡ ok target → target ≡ tenant)
      → Guarded c (elim r [
        | err e ↦ (err (guarded e), c)
        | ok target ↦
            let (writable, plane) = require_tenant_writable settings caller target c.plane now in
            (elim writable [ err e ↦ err (guarded e) | ok _ ↦ ok target ], set_plane plane c)
      ])
  by_target caller now c (err e) own = record {
    tenants = refl;
    metering = refl;
    ready = refl;
    own = λ t h. cc;
  }
  by_target caller now c (ok target) own =
      by_freeze caller target c _ _ (own target refl) (writable-tenants caller target c.plane now)

  by_admin :
      (caller : Caller) (requested : String) (now : ℕ) (c : Control)
      (r : Result TenantError (Unit {0}))
      → is_local settings tenant caller ≡ true
      → Guarded c (elim r [
        | err e ↦ (err e, c)
        | ok _ ↦ elim (resolve_target_tenant settings caller (some requested)) [
          | err e ↦ (err (guarded e), c)
          | ok target ↦
              let (writable, plane) = require_tenant_writable settings caller target c.plane now in
              (elim writable [ err e ↦ err (guarded e) | ok _ ↦ ok target ], set_plane plane c)
        ]
      ])
  by_admin caller requested now c (err e) local = record {
    tenants = refl;
    metering = refl;
    ready = refl;
    own = λ t h. cc;
  }
  by_admin caller requested now c (ok u) local =
      by_target caller now c (resolve_target_tenant settings caller (some requested))
        (λ t h. target-local settings tenant caller (some requested) t local h)

  pub curating_target-Guarded :
      (caller : Caller) (requested : String) (now : ℕ) (c : Control)
      → is_local settings tenant caller ≡ true
      → Guarded c (curating_target settings caller requested now c)
  unfolding curating_target
  curating_target-Guarded caller requested now c local =
      by_admin caller requested now c (require_tenant_admin settings caller) local

  -- What follows the guards, as long as it writes only what is not privileged of the target.
  pub after_guards :
      {A : Type 0} (c : Control) (r : Result TenantError String × Control)
      (act : String → Control → Result TenantError A × Control)
      → Guarded c r
      → ((c' : Control) → IsCurated tenant c' (act tenant c').1)
      → IsCurated tenant c (with_target r act).1
  after_guards c (err e, c') act g keeps = unchanged tenant c c' g.tenants g.metering g.ready
  after_guards c (ok target, c') act g keeps =
      IsCurated-trans tenant c c' _ (unchanged tenant c c' g.tenants g.metering g.ready)
        (subst (λ t. IsCurated tenant c' (act t c').1) (sym (g.own target refl)) (keeps c'))

-- ===== src/Console/Creating.antt =====
-- gateway/routers/admin/tenants.py: the creation of a tenant, which is open to every caller of the
-- console for its own tenant.
use m_gate.Prelude.{
  ==_refl, Bool, Dict, List, Option, Result, Result-cases, String, [], add_to_set, ap, arith, elem,
  elem-append, eq_iff, err, false, if◌then◌else◌, inl, inr, insert, lookup, lookup-insert,
  map_option, ok, refl, some, subst, sym, true, ℕ, ◌==◌, ◌∙◌, ◌∷◌, ◌≡◌, string_eq, nat_eq, pair_eq,
}
use m_gate.Console.{Caller, resolve_target_tenant}
use m_gate.Console.Curated.{IsCurated, privileged, unchanged}
use m_gate.Console.Steps.{is_local, target-local}
use m_gate.Console.Tenants.{Control, TenantError, guarded, set_plane, unhandled}
use m_gate.Registration.{upsert_tenant}
use m_gate.Settings.{Settings}
use m_gate.Tenant.Store.{TenantDoc}

-- `provision_tenant`, as far as it writes the control database, and what the process remembers of it;
-- the work on the tenant's own database succeeds or raises.
unfoldable pub provision : String → Bool → ℕ → Control → Result TenantError (Unit {0}) × Control
unfolding upsert_tenant
provision tenant provisions wall c =
    let c' = set_plane (record c.plane { tenants = upsert_tenant tenant wall c.plane.tenants }) c in
    if provisions
    then (ok tt, record c' { ready = add_to_set tenant c.ready })
    else (err unhandled, c')

unfoldable pub create_tenant :
    Settings → Caller → Option String → Bool → ℕ → Control → Result TenantError (Unit {0}) × Control
unfolding provision
create_tenant settings caller requested provisions wall c =
    elim (resolve_target_tenant settings caller requested) [
      | err e ↦ (err (guarded e), c)
      | ok target ↦ provision target provisions wall c
    ]

module _ (settings : Settings) (tenant : String) where
  remembered :
      (t : String) (ready : List String)
      → (tenant == t) ≡ false
      → elem t (add_to_set tenant ready) ≡ elem t ready
  unfolding add_to_set
  remembered t ready other =
      ground (arith, elem-append t ready (tenant ∷ []), eq_iff t tenant, eq_iff tenant t, other)

  upserted :
      (wall : ℕ) (tenants : Dict String TenantDoc) (doc : TenantDoc)
      → lookup tenant tenants ≡ some doc
      → upsert_tenant tenant wall tenants ≡ insert tenant (record doc { updated_at = wall }) tenants
  unfolding upsert_tenant
  upserted wall tenants doc found = rw (found, upsert_tenant) refl

  provision-IsCurated :
      (provisions : Bool) (wall : ℕ) (c : Control) (doc : TenantDoc)
      → lookup tenant c.plane.tenants ≡ some doc
      → IsCurated tenant c (provision tenant provisions wall c).1
  unfolding provision
  provision-IsCurated true wall c doc found = record {
    others =
        λ t e. ap (lookup t) (upserted wall c.plane.tenants doc found) ∙ rw (lookup-insert, e) refl;
    kept =
        ap (λ ts. map_option privileged (lookup tenant ts))
          (upserted wall c.plane.tenants doc found)
        ∙ rw (lookup-insert, ==_refl tenant, found) refl;
    metering = refl;
    ready = λ t e. remembered t c.ready e;
  }
  provision-IsCurated false wall c doc found = record {
    others =
        λ t e. ap (lookup t) (upserted wall c.plane.tenants doc found) ∙ rw (lookup-insert, e) refl;
    kept =
        ap (λ ts. map_option privileged (lookup tenant ts))
          (upserted wall c.plane.tenants doc found)
        ∙ rw (lookup-insert, ==_refl tenant, found) refl;
    metering = refl;
    ready = λ t e. refl;
  }

  -- The creation of a tenant that has a document writes the time alone.
  pub create_tenant-IsCurated :
      (caller : Caller) (requested : Option String) (provisions : Bool) (wall : ℕ) (c : Control)
      (doc : TenantDoc)
      → is_local settings tenant caller ≡ true
      → lookup tenant c.plane.tenants ≡ some doc
      → IsCurated tenant c (create_tenant settings caller requested provisions wall c).1
  unfolding create_tenant
  create_tenant-IsCurated caller requested provisions wall c doc local found =
      elim (Result-cases (resolve_target_tenant settings caller requested)) [
        | inl (e, stopped) ↦ rw (stopped, create_tenant) (unchanged tenant c c refl refl refl)
        | inr (target, chosen) ↦
            rw (chosen, create_tenant)
              (subst (λ t. IsCurated tenant c (provision t provisions wall c).1)
                (sym (target-local settings tenant caller requested target local chosen))
                (provision-IsCurated provisions wall c doc found))
      ]

-- ===== src/Rpc/Suspended.antt =====
-- The kill switch, from the operator's write to the response of the endpoint.
use m_gate.Prelude.{
  ==_refl, Option, Result, String, ap, arith, elem, eq_iff, err, false, if◌then◌else◌, lookup,
  lookup-modify, ok, refl, some, subst, sym, true, ℕ, ◌==◌, ◌∙◌, ◌≡◌, ◌≢◌, string_eq, nat_eq,
  pair_eq,
}
use m_gate.Rpc.{
  Exit, Request, Response, Surroundings, World, error, forbidden, inactive, raise, tenant_inactive,
}
use m_gate.Rpc.Dispatch.{
  dispatch, ensure_tenant_ready, preconditions, raising, reply, run_handler, tenant_active,
  tenant_scoped_methods, tools_call,
}
use m_gate.Rpc.Gate.{>>>-go, >>>-stop, Gate}
use m_gate.Rpc.Preconditions.{ready_lem}
use m_gate.Settings.{Settings}
use m_gate.Tenant.Status.{
  InvalidStatus, TenantInactive, assert_tenant_active, get_tenant_status, normalize_status,
  set_tenant_status, status_active, status_update,
}
use m_gate.Tenant.Status.Reads.{get-set_tenant_status, set_tenant_status_lem}
use m_gate.Tenant.Store.{ControlPlane, TenantDoc}

module _ {E : Type 0} (settings : Settings) (x : Surroundings E) (request : Request) where
  -- The response tells that the tenant is not in service.
  pub record IsInactive (r : Response) : Type 0 where
    pub reason : TenantInactive
    pub told : r ≡ error forbidden (inactive reason)

  active_stops :
      (u : World E)
      → ((get_tenant_status settings u.plane request.tenant_id request.now).0 == status_active)
        ≡ false
      → (reason : TenantInactive) × ((tenant_active settings x request u).0
          ≡ err (raise (tenant_inactive reason)))
  unfolding tenant_active assert_tenant_active
  active_stops u h =
      split (assert_tenant_active settings u.plane request.tenant_id request.now).0 refl
    where
      split :
          (r : Result TenantInactive (Unit {0}))
          → (assert_tenant_active settings u.plane request.tenant_id request.now).0 ≡ r
          → (reason : TenantInactive) × ((tenant_active settings x request u).0
              ≡ err (raise (tenant_inactive reason)))
      split (ok _) e = ground arith
      split (err reason) e = (reason, ap (raising settings x request) e)

  preconditions_stop :
      (w : World E) (doc : TenantDoc)
      → elem request.method tenant_scoped_methods ≡ true
      → lookup request.tenant_id w.plane.tenants ≡ some doc
      → ((get_tenant_status settings w.plane request.tenant_id request.now).0 == status_active)
        ≡ false
      → (reason : TenantInactive) × (v : World E) × (preconditions settings x request w
          ≡ (err (raise (tenant_inactive reason)), v))
  unfolding preconditions
  preconditions_stop w doc scoped found h =
      let (go, same_plane, _) = ready_lem settings x request w doc found in
      let u = (ensure_tenant_ready settings x request w).1 in
      let (reason, stop) = active_stops u (
        subst
          (λ p.
            ((get_tenant_status settings p request.tenant_id request.now).0 == status_active)
            ≡ false)
          (sym same_plane) h) in
      (
        reason,
        (tenant_active settings x request u).1,
        rw scoped (
            >>>-go (ensure_tenant_ready settings x request) _ w {v = u} (ap (λ r. (r, u)) go)
            ∙ >>>-stop (tenant_active settings x request) _ u
                (ap (λ r. (r, (tenant_active settings x request u).1)) stop)),
      )

  dispatch-IsInactive :
      (handlers : String → Option (Gate (World E) Exit Response))
      (handler : Gate (World E) Exit Response) (w : World E) (doc : TenantDoc)
      → (if request.method == "tools/call"
          then some (tools_call settings x request)
          else handlers request.method)
        ≡ some handler
      → elem request.method tenant_scoped_methods ≡ true
      → lookup request.tenant_id w.plane.tenants ≡ some doc
      → ((get_tenant_status settings w.plane request.tenant_id request.now).0 == status_active)
        ≡ false
      → IsInactive (dispatch settings x request handlers w).0
  unfolding dispatch run_handler
  dispatch-IsInactive handlers handler w doc known scoped found h =
      let (reason, v, stop) = preconditions_stop w doc scoped found h in
      record {
        reason = reason;
        told =
            ap (λ o. (run_handler settings x request o w).0) known
            ∙ ap (λ r. reply r.0)
                (>>>-stop (preconditions settings x request) (λ _. handler) w stop);
      }

-- An operator writes a valid status other than active for a tenant that has a document, with
-- further fields that leave the status alone. From then on the process that wrote answers every
-- tenant-scoped request of the tenant for which it has a handler, at any time, with the refusal of
-- an inactive tenant.
pub set_tenant_status_refuses :
    {E : Type 0} (settings : Settings) (x : Surroundings E) (request : Request)
    (handlers : String → Option (Gate (World E) Exit Response))
    (handler : Gate (World E) Exit Response) (w : World E) (doc : TenantDoc) (status n : String)
    (updated_by reason : Option String) (extra : TenantDoc → TenantDoc) (wall now : ℕ)
    → (if request.method == "tools/call"
        then some (tools_call settings x request)
        else handlers request.method)
      ≡ some handler
    → elem request.method tenant_scoped_methods ≡ true
    → lookup request.tenant_id w.plane.tenants ≡ some doc
    → normalize_status status ≡ ok n
    → n ≢ status_active
    → ((d : TenantDoc) → (extra d).status ≡ d.status)
    → IsInactive settings x request
        (dispatch settings x request handlers (record w {
          plane =
              (set_tenant_status settings w.plane request.tenant_id status updated_by reason extra
                wall now).1;
        })).0
set_tenant_status_refuses settings x request handlers handler w doc status n updated_by reason extra
      wall now known scoped found parsed other keeps =
    dispatch-IsInactive settings x request handlers handler (record w { plane = after.1 })
      (status_update n updated_by reason extra wall doc) known scoped
      (ap (λ r. lookup request.tenant_id r.1.tenants)
          (set_tenant_status_lem settings w.plane request.tenant_id status n updated_by reason extra
            wall now doc found parsed)
        ∙ rw (lookup-modify, ==_refl request.tenant_id, found))
      (not_eq _ (
        get-set_tenant_status settings w.plane request.tenant_id status n updated_by reason extra
          wall now doc found parsed keeps request.now))
  where
    after : Result InvalidStatus (Option TenantDoc) × ControlPlane
    after =
        set_tenant_status settings w.plane request.tenant_id status updated_by reason extra wall now

    not_eq : (s : String) → s ≡ n → (s == status_active) ≡ false
    not_eq s e = ground (arith, eq_iff s status_active)

-- ===== src/Rpc/Preconditions.antt =====
-- What a tenant-scoped request passes before its handler runs, and what that leaves alone.
use m_gate.Prelude.{
  Bool-cases, Dict, String, ap, arith, elem, eq_iff, false, inl, inr, lookup, ok, refl, some, subst,
  sym, true, ◌==◌, ◌∙◌, ◌≡◌, string_eq, nat_eq, pair_eq,
}
use m_gate.Authorization.{Catalogs}
use m_gate.PendingActions.{Actions}
use m_gate.Rpc.{Request, Surroundings, World}
use m_gate.Rpc.Dispatch.{
  ensure_tenant_ready, preconditions, tenant_active, tenant_scoped_methods, tenant_writable,
  writable_for_call,
}
use m_gate.Rpc.Gate.{>>>-Keeps, >>>-ok, Keeps, ◌>>>◌}
use m_gate.Settings.{Settings}
use m_gate.Tenant.Cache.{Cache}
use m_gate.Tenant.Status.{
  assert_tenant_active, assert_tenant_writable, get_tenant_read_only, get_tenant_status,
  status_active,
}
use m_gate.Tenant.Store.{TenantDoc, ToolPolicy}
use m_gate.Usage.{Metering}

-- All that the preconditions leave alone for a tenant that has a document.
abbrev pub rest :
    {E : Type 0}
    → World E
    → Dict String TenantDoc × Cache ToolPolicy × Catalogs × Actions × Metering × E
rest w = (w.plane.tenants, w.plane.policy_cache, w.catalogs, w.actions, w.metering, w.ext)

module _ {E : Type 0} (settings : Settings) (x : Surroundings E) (request : Request) where
  pub ready_lem :
      (w : World E) (doc : TenantDoc)
      → lookup request.tenant_id w.plane.tenants ≡ some doc
      → ((ensure_tenant_ready settings x request w).0 ≡ ok tt)
        × ((ensure_tenant_ready settings x request w).1.plane ≡ w.plane)
        × (rest (ensure_tenant_ready settings x request w).1 ≡ rest w)
  unfolding ensure_tenant_ready
  ready_lem w doc found = elim (Bool-cases (elem request.tenant_id w.ready_tenants)) [
    | inl e ↦ rw e (refl, refl, refl)
    | inr e ↦ rw (e, found) (refl, refl, refl)
  ]

  active_lem :
      (w v : World E)
      → tenant_active settings x request w ≡ (ok tt, v)
      → (get_tenant_status settings w.plane request.tenant_id request.now).0 ≡ status_active
  unfolding tenant_active assert_tenant_active
  active_lem w v h =
      let done : (tenant_active settings x request w).0 ≡ ok tt = ap (λ p. p.0) h in
      let status = (get_tenant_status settings w.plane request.tenant_id request.now).0 in
      ground (arith, eq_iff status status_active)

  writable_lem :
      (w v : World E)
      → tenant_writable settings x request w ≡ (ok tt, v)
      → (get_tenant_read_only settings w.plane request.tenant_id request.now).0 ≡ false
  unfolding tenant_writable assert_tenant_writable
  writable_lem w v h =
      let done : (tenant_writable settings x request w).0 ≡ ok tt = ap (λ p. p.0) h in ground arith

  active-rest : (w : World E) → rest (tenant_active settings x request w).1 ≡ rest w
  unfolding tenant_active assert_tenant_active get_tenant_status
  active-rest w = refl

  writable-rest : (w : World E) → rest (tenant_writable settings x request w).1 ≡ rest w
  unfolding tenant_writable assert_tenant_writable get_tenant_read_only
  writable-rest w = refl

  active-read_only :
      (w : World E)
      → (get_tenant_read_only settings
          (tenant_active settings x request w).1.plane
          request.tenant_id
          request.now).0
        ≡ (get_tenant_read_only settings w.plane request.tenant_id request.now).0
  unfolding tenant_active assert_tenant_active get_tenant_status get_tenant_read_only
  active-read_only w = refl

  steps_lem :
      (w w1 w2 u : World E)
      → ensure_tenant_ready settings x request w ≡ (ok tt, w1)
      → tenant_active settings x request w1 ≡ (ok tt, w2)
      → tenant_writable settings x request w2 ≡ (ok tt, u)
      → (ensure_tenant_ready settings x request w).1.plane ≡ w.plane
      → rest (ensure_tenant_ready settings x request w).1 ≡ rest w
      → ((get_tenant_status settings w.plane request.tenant_id request.now).0 ≡ status_active)
        × ((get_tenant_read_only settings w.plane request.tenant_id request.now).0 ≡ false)
        × (rest u ≡ rest w)
  steps_lem w w1 w2 u e1 e2 h3 same_plane same =
      let p1 : w1.plane ≡ w.plane = sym (ap (λ p. p.1.plane) e1) ∙ same_plane in
      let read_only = writable_lem w2 u h3 in
      let v1 : (tenant_active settings x request w1).1 ≡ w2 = ap (λ p. p.1) e2 in
      (
        subst (λ p. (get_tenant_status settings p request.tenant_id request.now).0 ≡ status_active)
            p1 (active_lem w1 w2 e2),
        sym (ap (λ p. (get_tenant_read_only settings p request.tenant_id request.now).0) p1)
            ∙ sym (active-read_only w1)
            ∙ ap (λ v. (get_tenant_read_only settings v.plane request.tenant_id request.now).0) v1
            ∙ read_only,
        ap (λ p. rest p.1) (sym h3)
            ∙ writable-rest w2
            ∙ ap rest (sym v1)
            ∙ active-rest w1
            ∙ ap (λ p. rest p.1) (sym e1)
            ∙ same,
      )

  pub preconditions_lem :
      (w u : World E) (doc : TenantDoc)
      → request.method ≡ "tools/call"
      → lookup request.tenant_id w.plane.tenants ≡ some doc
      → preconditions settings x request w ≡ (ok tt, u)
      → ((get_tenant_status settings w.plane request.tenant_id request.now).0 ≡ status_active)
        × ((get_tenant_read_only settings w.plane request.tenant_id request.now).0 ≡ false)
        × (rest u ≡ rest w)
  unfolding preconditions writable_for_call
  preconditions_lem w u doc call found h =
      let is_call : (request.method == "tools/call") ≡ true =
        (eq_iff request.method "tools/call").1 call in
      let scoped : elem request.method tenant_scoped_methods ≡ true = rw call in
      let (_, same_plane, same) = ready_lem w doc found in
      let chain : (ensure_tenant_ready settings x request >>> λ _.
      tenant_active settings x request >>> λ _. writable_for_call settings x request)
            w
          ≡ (ok tt, u) =
        rw scoped at h in
      let (_, w1, e1, h1) = >>>-ok (ensure_tenant_ready settings x request) _ w chain in
      let (_, w2, e2, h2) = >>>-ok (tenant_active settings x request) _ w1 h1 in
      let h3 : tenant_writable settings x request w2 ≡ (ok tt, u) = rw is_call at h2 in
      steps_lem w w1 w2 u e1 e2 h3 same_plane same

  ready-metering :
      (w : World E) → (ensure_tenant_ready settings x request w).1.metering ≡ w.metering
  unfolding ensure_tenant_ready
  ready-metering w = elim (Bool-cases (elem request.tenant_id w.ready_tenants)) [
    | inl e ↦ rw e
    | inr e ↦ ground arith
  ]

  active-metering : (w : World E) → (tenant_active settings x request w).1.metering ≡ w.metering
  unfolding tenant_active
  active-metering w = refl

  writable-metering :
      (w : World E) → (writable_for_call settings x request w).1.metering ≡ w.metering
  unfolding writable_for_call tenant_writable
  writable-metering w = ground arith

  -- No precondition touches the metering.
  pub preconditions-metering :
      (w : World E) → (preconditions settings x request w).1.metering ≡ w.metering
  unfolding preconditions
  preconditions-metering w = elim (Bool-cases (elem request.method tenant_scoped_methods)) [
    | inl e ↦ rw e (
        >>>-Keeps (λ u. u.metering ≡ w.metering) (ensure_tenant_ready settings x request) _
          (λ u same. ready-metering u ∙ same)
          (λ _.
            >>>-Keeps (λ u. u.metering ≡ w.metering) (tenant_active settings x request) _
              (λ u same. active-metering u ∙ same) (λ _ u same. writable-metering u ∙ same))
          w refl)
    | inr e ↦ rw e
  ]

  -- For a tenant that has a document the preconditions leave the document and all else outside.
  module _ (w : World E) (doc : TenantDoc) where
    abbrev Outside : World E → Type 0
    Outside u = (lookup request.tenant_id u.plane.tenants ≡ some doc) × (u.ext ≡ w.ext)

    ready-Outside : Keeps Outside (ensure_tenant_ready settings x request)
    ready-Outside u (found, same) =
        let e = (ready_lem u doc found).2 in
        (ap (λ r. lookup request.tenant_id r.0) e ∙ found, ap (λ r. r.5) e ∙ same)

    active-Outside : Keeps Outside (tenant_active settings x request)
    unfolding tenant_active assert_tenant_active get_tenant_status
    active-Outside u h = h

    writable-Outside : Keeps Outside (writable_for_call settings x request)
    unfolding writable_for_call tenant_writable assert_tenant_writable get_tenant_read_only
    writable-Outside u (found, same) = elim (Bool-cases (request.method == "tools/call")) [
      | inl e ↦ rw e (found, same)
      | inr e ↦ rw e (found, same)
    ]

    pub preconditions-ext :
        lookup request.tenant_id w.plane.tenants ≡ some doc
        → (preconditions settings x request w).1.ext ≡ w.ext
    unfolding preconditions
    preconditions-ext found = elim (Bool-cases (elem request.method tenant_scoped_methods)) [
      | inl e ↦
          rw e
            (>>>-Keeps Outside (ensure_tenant_ready settings x request) _ ready-Outside
              (λ _.
                >>>-Keeps Outside (tenant_active settings x request) _ active-Outside
                  (λ _. writable-Outside))
              w (found, refl)).1
      | inr e ↦ rw e
    ]

-- ===== src/Tenant/Lifecycle/Retention.antt =====
-- What a purge takes and what it leaves.
use m_gate.Prelude.{
  ==_refl, Bool, Bool-cases, Dict, List, Option, Option-cases, String, [], and_left, ap, arith,
  elem, eq_iff, false, if◌then◌else◌, inl, inr, leb, lookup, lookup-delete, lookup-modify, lower,
  modify, none, not, ok, refl, some, strip, subst, suc, sym, true, zero, ℕ, ℤ, ◌&&◌, ◌*◌, ◌+◌, ◌<◌,
  ◌==◌, ◌∙◌, ◌∷◌, ◌≡◌, string_eq, nat_eq, pair_eq,
}
use m_gate.Settings.{Settings}
use m_gate.Tenant.Lifecycle.{
  claim, day, days_of, deletion, first_due, is_deleted, is_due, purge_expired_tenants, purge_one,
  restoration, restore_tenant, soft_delete_tenant,
}
use m_gate.Tenant.Status.{normalize_status, status_active, status_deleted, status_update}
use m_gate.Tenant.Status.Reads.{set_tenant_status_lem}
use m_gate.Tenant.Store.{ControlPlane, TenantDoc}

-- The tenant that a claim finds is due.
abbrev IsDueIn : ℕ → Dict String TenantDoc → Option String → Type 0
IsDueIn cutoff tenants none = Unit
IsDueIn cutoff tenants (some t) = is_due cutoff (lookup t tenants) ≡ true

first_due-IsDueIn :
    (cutoff : ℕ) (failed : List String) (tenants entries : Dict String TenantDoc)
    → IsDueIn cutoff tenants (first_due cutoff failed tenants entries)
unfolding first_due
first_due-IsDueIn cutoff failed tenants [] = tt
first_due-IsDueIn cutoff failed tenants ((u, doc) ∷ entries) =
    elim (Bool-cases (is_due cutoff (lookup u tenants) && not (elem u failed))) [
      | inl e ↦ rw e (and_left (is_due cutoff (lookup u tenants)) (not (elem u failed)) e)
      | inr e ↦ rw e (first_due-IsDueIn cutoff failed tenants entries)
    ]

-- The purge of a claimed tenant leaves no document of it, whether or not the drop of its database
-- succeeds, and leaves the documents of the others as they are.
pub lookup-purge_one :
    (drops : String → Bool) (cutoff : ℕ) (tenant other : String) (tenants : Dict String TenantDoc)
    → lookup other (purge_one drops cutoff tenant tenants)
      ≡ (if tenant == other then none else lookup other tenants)
unfolding purge_one
lookup-purge_one drops cutoff tenant other tenants = elim (Bool-cases (tenant == other)) [
  | inl e ↦ elim (Bool-cases (drops tenant)) [
    | inl d ↦ rw (d, lookup-delete, e)
    | inr d ↦ rw (d, lookup-modify, lookup-delete, e)
  ]
  | inr e ↦ elim (Bool-cases (drops tenant)) [
    | inl d ↦ rw (d, lookup-delete, lookup-modify, e)
    | inr d ↦ rw (d, lookup-modify, lookup-delete, lookup-modify, e)
  ]
]

module _ (drops : String → Bool) (cutoff : ℕ) (u : String) where
  -- A tenant that is not due is another one than the tenant that is claimed.
  other_tenant :
      (t : String) (tenants : Dict String TenantDoc)
      → is_due cutoff (lookup t tenants) ≡ true
      → is_due cutoff (lookup u tenants) ≡ false
      → (t == u) ≡ false
  other_tenant t tenants due spared = elim (Bool-cases (t == u)) [
    | inl e ↦
        let q : t ≡ u = (eq_iff t u).0 e in
        let bad : true ≡ false = sym due ∙ ap (λ k. is_due cutoff (lookup k tenants)) q ∙ spared in
        cc
    | inr e ↦ e
  ]

  -- A purge, however many tenants it may take and whichever drops fail, leaves the document of
  -- every tenant that is not due as it is: one that is not deleted, whose retention is not over, or
  -- that is claimed already.
  pub lookup-purge_expired_tenants :
      (limit : ℕ) (failed : List String) (purged : ℕ) (tenants : Dict String TenantDoc)
      → is_due cutoff (lookup u tenants) ≡ false
      → lookup u (purge_expired_tenants drops cutoff limit failed purged tenants).1
        ≡ lookup u tenants
  unfolding purge_expired_tenants
  lookup-purge_expired_tenants zero failed purged tenants spared = refl
  lookup-purge_expired_tenants (suc limit) failed purged tenants spared =
      elim (Option-cases (first_due cutoff failed tenants tenants)) [
        | inl e ↦ rw (e, purge_expired_tenants)
        | inr (t, e) ↦
            let due : is_due cutoff (lookup t tenants) ≡ true =
              subst (IsDueIn cutoff tenants) e (first_due-IsDueIn cutoff failed tenants tenants) in
            let other = other_tenant t tenants due spared in
            let claimed : lookup u (modify t (claim cutoff) tenants) ≡ lookup u tenants =
              rw (lookup-modify, other) in
            let gone : lookup u (purge_one drops cutoff t tenants) ≡ lookup u tenants =
              rw (lookup-purge_one drops cutoff t u tenants, other) in
            elim (Bool-cases (t == "")) [
              | inl empty ↦
                  rw (e, purge_expired_tenants, empty)
                    (lookup-purge_expired_tenants limit failed purged
                        (modify t (claim cutoff) tenants) (ap (is_due cutoff) claimed ∙ spared)
                      ∙ claimed)
              | inr named ↦
                  rw (e, purge_expired_tenants, named)
                    (lookup-purge_expired_tenants limit (if drops t then failed else t ∷ failed)
                        (if drops t then suc purged else purged) (purge_one drops cutoff t tenants)
                        (ap (is_due cutoff) gone ∙ spared)
                      ∙ gone)
            ]
      ]

deleted_parses : normalize_status status_deleted ≡ ok status_deleted
unfolding normalize_status strip lower
deleted_parses = refl

active_parses : normalize_status status_active ≡ ok status_active
unfolding normalize_status strip lower
active_parses = refl

not_reached : (cutoff purge_at : ℕ) → cutoff < purge_at → leb purge_at cutoff ≡ false
not_reached cutoff purge_at h = ground arith

module _ (settings : Settings) (plane : ControlPlane) (ready : List String) (tenant : String)
    (actor : Option String) (wall now : ℕ) (doc : TenantDoc)
    (found : lookup tenant plane.tenants ≡ some doc) (drops : String → Bool)
    (cutoff limit : ℕ) where
  abbrev purge : Dict String TenantDoc → Dict String TenantDoc
  purge tenants = (purge_expired_tenants drops cutoff limit [] 0 tenants).1

  module _ (retention_days : Option ℤ) where
    abbrev deleted_doc : TenantDoc
    deleted_doc =
        status_update status_deleted actor none
          (deletion wall (wall + days_of settings retention_days * day)) wall doc

    lookup-soft_delete :
        lookup tenant
          (soft_delete_tenant settings plane ready tenant retention_days actor wall now).1.tenants
        ≡ some deleted_doc
    unfolding soft_delete_tenant
    lookup-soft_delete = rw (
      set_tenant_status_lem settings plane tenant status_deleted status_deleted actor none
          (deletion wall (wall + days_of settings retention_days * day)) wall now doc found
          deleted_parses,
      lookup-modify,
      ==_refl tenant,
      found,
    )

    -- A tenant that has a document and is softly deleted still has one, with the deletion written
    -- into it, after any purge with a cutoff before its retention is over.
    pub deleted_retained :
        cutoff < wall + days_of settings retention_days * day
        → lookup tenant (
            purge
              (soft_delete_tenant settings plane ready tenant retention_days actor wall
                now).1.tenants)
          ≡ some deleted_doc
    unfolding status_update
    deleted_retained early =
        lookup-purge_expired_tenants drops cutoff tenant limit [] 0 _ (
          rw lookup-soft_delete
            (rw (not_reached cutoff (wall + days_of settings retention_days * day) early) refl))
        ∙ lookup-soft_delete

  abbrev restored_doc : TenantDoc
  restored_doc = status_update status_active actor none restoration wall doc

  lookup-restore :
      is_deleted (some doc) ≡ true
      → lookup tenant (restore_tenant settings plane ready tenant actor wall now).1.tenants
        ≡ some restored_doc
  unfolding restore_tenant
  lookup-restore deleted = rw (
    found,
    deleted,
    set_tenant_status_lem settings plane tenant status_active status_active actor none restoration
        wall now doc found active_parses,
    lookup-modify,
    ==_refl tenant,
    found,
  )

  -- A softly deleted tenant that is restored is active, with the deletion taken back, after any
  -- purge at any time.
  pub restored_survives :
      is_deleted (some doc) ≡ true
      → lookup tenant (purge (restore_tenant settings plane ready tenant actor wall now).1.tenants)
        ≡ some restored_doc
  unfolding status_update
  restored_survives deleted =
      lookup-purge_expired_tenants drops cutoff tenant limit [] 0 _
        (rw (lookup-restore deleted) refl)
      ∙ lookup-restore deleted

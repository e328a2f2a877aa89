-- ===== src/Console/Privileges.antt =====
-- What a tenant's own admins cannot change of tenants.
use m_gate.Prelude.{
  List, Option, Result, Result-cases, String, [], all, and_left, and_right, ap, arith, false, inl,
  inr, lookup, map_option, none, refl, some, true, ℕ, ℤ, ◌∙◌, ◌∷◌, ◌≡◌, string_eq, nat_eq, pair_eq,
}
use m_gate.Console.{Caller, is_platform_admin}
use m_gate.Console.Creating.{create_tenant-IsCurated}
use m_gate.Console.Curated.{IsCurated, IsCurated-trans, modified, privileged, unchanged}
use m_gate.Console.Curating.{
  curating_target, put_code_requirements_policy, put_tenant_tool_policy, show_policy,
}
use m_gate.Console.Guards.{after_guards, curating_target-Guarded}
use m_gate.Console.Steps.{is_local}
use m_gate.Console.TenantCalls.{
  TenantCall, TenantRequest, answer, answers, confirmation_request, create_request, delete_request,
  quota_request, read_only_request, requirements_request, restore_request, status_request,
  tool_policy_request,
}
use m_gate.Console.Tenants.{
  Control, TenantError, by_platform, delete_tenant, require_platform_admin, restore_tenant_endpoint,
  set_plane, set_tenant_confirmation_endpoint, set_tenant_read_only_endpoint,
  set_tenant_status_endpoint, update_tenant_quota,
}
use m_gate.Settings.{Settings}
use m_gate.Tenant.PipPolicy.{
  requirements_update, set_tenant_pip_allowlist, validate_allowlist_entries,
}
use m_gate.Tenant.Store.{ControlPlane, TenantDoc}
use m_gate.Tenant.ToolPolicy.{get_tool_policy, policy_update, set_tool_policy, store_policy}

module _ (settings : Settings) (tenant : String) where
  refused-by_platform :
      {A : Type 0} (caller : Caller) (c : Control) (done : Result TenantError A × Control)
      → is_platform_admin settings caller ≡ false
      → (by_platform settings caller c done).1 ≡ c
  unfolding by_platform require_platform_admin
  refused-by_platform caller c done h = rw (h, by_platform) refl

  showing :
      (now : ℕ) (doc : Option TenantDoc) (before c : Control)
      → IsCurated tenant before c
      → IsCurated tenant before (show_policy settings tenant now doc c).1
  unfolding show_policy get_tool_policy
  showing now none before c h = h
  showing now (some doc) before c h = record {
    others = h.others;
    kept = h.kept;
    metering = h.metering;
    ready = h.ready;
  }

  stored-tenants :
      (plane : ControlPlane) (doc : Option TenantDoc) (now : ℕ)
      → (store_policy settings plane tenant doc now).tenants ≡ plane.tenants
  unfolding store_policy
  stored-tenants plane none now = refl
  stored-tenants plane (some doc) now = refl

  tool_policy-IsCurated :
      (caller : Caller) (requested : String) (allowlist : List String) (max_tools : Option ℤ)
      (wall now : ℕ) (c : Control)
      → is_local settings tenant caller ≡ true
      → IsCurated tenant c
          (put_tenant_tool_policy settings caller requested allowlist max_tools wall now c).1
  unfolding put_tenant_tool_policy set_tool_policy policy_update
  tool_policy-IsCurated caller requested allowlist max_tools wall now c local =
      after_guards settings tenant c (curating_target settings caller requested now c) _
        (curating_target-Guarded settings tenant caller requested now c local)
        (λ c'. showing now _ c' _ (
          modified tenant (policy_update (some allowlist) max_tools (some caller.user_id) wall) c' _
            (λ doc. refl) (stored-tenants _ _ now) refl refl))

  packages-IsCurated :
      (entries : List String) (actor : Option String) (wall now : ℕ) (c : Control)
      → IsCurated tenant c
          (set_plane (set_tenant_pip_allowlist settings c.plane tenant entries actor wall now).1 c)
  unfolding set_tenant_pip_allowlist requirements_update
  packages-IsCurated entries actor wall now c =
      elim (Result-cases (validate_allowlist_entries entries)) [
        | inl (e, bad) ↦
            rw (set_tenant_pip_allowlist, bad)
              (unchanged tenant c (set_plane c.plane c) refl refl refl)
        | inr (names, good) ↦
            rw (set_tenant_pip_allowlist, good)
              (modified tenant (requirements_update names actor wall) c _ (λ doc. refl) refl refl
                refl)
      ]

  requirements-IsCurated :
      (caller : Caller) (requested : String) (allowlist : List String) (wall now : ℕ) (c : Control)
      → is_local settings tenant caller ≡ true
      → IsCurated tenant c
          (put_code_requirements_policy settings caller requested allowlist wall now c).1
  unfolding put_code_requirements_policy
  requirements-IsCurated caller requested allowlist wall now c local =
      after_guards settings tenant c (curating_target settings caller requested now c) _
        (curating_target-Guarded settings tenant caller requested now c local)
        (λ c'. packages-IsCurated allowlist (some caller.user_id) wall now c')

  platform_only :
      {A : Type 0} (caller : Caller) (c : Control) (done : Result TenantError A × Control)
      → is_local settings tenant caller ≡ true
      → IsCurated tenant c (by_platform settings caller c done).1
  platform_only caller c done local =
      let same = refused-by_platform caller c done (ground (arith, local)) in
      unchanged tenant c _ (ap (λ k. k.plane.tenants) same) (ap (λ k. k.metering) same)
        (ap (λ k. k.ready) same)

  answer-IsCurated :
      (request : TenantRequest) (caller : Caller) (wall now : ℕ) (c : Control) (doc : TenantDoc)
      → lookup tenant c.plane.tenants ≡ some doc
      → is_local settings tenant caller ≡ true
      → IsCurated tenant c (answer settings request caller wall now c)
  unfolding answer delete_tenant restore_tenant_endpoint set_tenant_status_endpoint
      set_tenant_confirmation_endpoint set_tenant_read_only_endpoint update_tenant_quota
  answer-IsCurated (delete_request t hard drops) caller wall now c doc found local =
      platform_only caller c _ local
  answer-IsCurated (restore_request t) caller wall now c doc found local =
      platform_only caller c _ local
  answer-IsCurated (status_request t target reason) caller wall now c doc found local =
      platform_only caller c _ local
  answer-IsCurated (confirmation_request t confirmation) caller wall now c doc found local =
      platform_only caller c _ local
  answer-IsCurated (read_only_request t enabled reason) caller wall now c doc found local =
      platform_only caller c _ local
  answer-IsCurated (quota_request t calls seconds) caller wall now c doc found local =
      platform_only caller c _ local
  answer-IsCurated (tool_policy_request t allowlist max_tools) caller wall now c doc found local =
      tool_policy-IsCurated caller t allowlist max_tools wall now c local
  answer-IsCurated (requirements_request t allowlist) caller wall now c doc found local =
      requirements-IsCurated caller t allowlist wall now c local
  answer-IsCurated (create_request requested provisions) caller wall now c doc found local =
      create_tenant-IsCurated settings tenant caller requested provisions wall c doc local found

  -- A tenant with a document still has one.
  still_there :
      (before after : Control) (doc : TenantDoc)
      → IsCurated tenant before after
      → lookup tenant before.plane.tenants ≡ some doc
      → (doc' : TenantDoc) × (lookup tenant after.plane.tenants ≡ some doc')
  still_there before after doc h found =
      there (lookup tenant after.plane.tenants) (lookup tenant before.plane.tenants) h.kept found
    where
      there :
          (o p : Option TenantDoc)
          → map_option privileged o ≡ map_option privileged p
          → p ≡ some doc
          → (doc' : TenantDoc) × (o ≡ some doc')
      there (some doc') p same e = (doc', refl)
      there none p same e =
          let bad : none ≡ some (privileged doc) = same ∙ ap (map_option privileged) e in cc

  -- The tenant has a document. Whatever callers of the tenant, none of whom is an admin of the
  -- platform, ask of these endpoints, the creation of a tenant included: the documents of other
  -- tenants stay as they were, and of their own tenant the status, the freeze, the tier and the dates
  -- of a deletion; so do all quotas and counters.
  pub answers-IsCurated :
      (calls : List TenantCall) (c : Control) (doc : TenantDoc)
      → lookup tenant c.plane.tenants ≡ some doc
      → all (λ call. is_local settings tenant call.caller) calls ≡ true
      → IsCurated tenant c (answers settings calls c)
  unfolding answers
  answers-IsCurated [] c doc found local = unchanged tenant c c refl refl refl
  answers-IsCurated (call ∷ calls) c doc found local =
      let next = answer settings call.request call.caller call.wall call.now c in
      let kept =
        answer-IsCurated call.request call.caller call.wall call.now c doc found
          (and_left _ _ local) in
      let (doc', there) = still_there c next doc kept found in
      IsCurated-trans tenant c next _ kept (
        answers-IsCurated calls next doc' there
          (and_right (is_local settings tenant call.caller) _ local))

-- ===== src/ServerGuard/Policy.antt =====
-- What a server that passed the guard is.
use m_gate.Prelude.{
  Bool, Bool-cases, Option, Result, String, ap, arith, eq_iff, err, false, if◌then◌else◌, inl, inr,
  none, not, ok, or_default, refl, some, subst, sym, true, ◌&&◌, ◌==◌, ◌>>=◌, ◌||◌, ◌∙◌, ◌≡◌, ◌⊎◌,
  string_eq, nat_eq, pair_eq,
}
use m_gate.ServerGuard.{
  GuardError, Network, ServerDoc, assert_mountable, enforce_server_policy, is_origin, is_set,
  needs_screening, normalized_origin, resolved_origin, stdio_not_allowed, uses_host,
  validate_tenant_endpoint,
}
use m_gate.Settings.{Settings}

policy_ladder :
    (a b c : Bool) (screening : Result GuardError (Unit {0})) (stamped doc : ServerDoc)
    → (if a
        then err stdio_not_allowed
        else if b
        then err stdio_not_allowed
        else if c
        then (screening >>= λ _. ok stamped)
        else ok stamped)
      ≡ ok doc
    → (a ≡ false) × (b ≡ false) × (c ≡ true → screening ≡ ok tt) × (stamped ≡ doc)
policy_ladder true b c screening stamped doc h = cc
policy_ladder false true c screening stamped doc h = cc
policy_ladder false false true (ok tt) stamped doc h = (refl, refl, λ _. refl, cc)
policy_ladder false false true (err e) stamped doc h = cc
policy_ladder false false false screening stamped doc h = (refl, refl, λ e. cc, cc)

option_text : Option String → String
option_text none = ""
option_text (some s) = s

is_tenant : (s : String) → some s ≡ some "tenant" → (s == "tenant") ≡ true
unfolding option_text
is_tenant s h = (eq_iff s "tenant").1 (ap option_text h)

normalized_tenant : (o : String) → (normalized_origin (some o) == "tenant") ≡ (o == "tenant")
normalized_tenant o = elim (Bool-cases (is_origin o)) [
  | inl e ↦ rw e
  | inr e ↦ rw e (sym (last_false (o == "platform") (o == "tenant") e))
]
  where
    last_false : (p q : Bool) → (p || (q || false)) ≡ false → q ≡ false
    last_false p q h = ground arith

first_false : (p q r : Bool) → (p && (q || r)) ≡ false → (p && q) ≡ false
first_false p q r h = ground arith

module _ {Ip Net : Type 0} (net : Network Ip Net) where
  -- A registered document: the gateway may mount it, a tenant admin's is the tenant's, a tenant's
  -- starts nothing on the host, and its endpoint was screened if it has to be.
  pub record IsEnforced (settings : Settings) (is_platform_admin : Bool) (before doc : ServerDoc)
      : Type 0 where
    pub origin : doc.origin ≡ some (resolved_origin net is_platform_admin before.origin)
    pub tenant_admin : is_platform_admin ≡ false → doc.origin ≡ some "tenant"
    pub no_stdio : doc.origin ≡ some "tenant" → ¬ (doc.transport ≡ some "stdio")
    pub no_command : doc.origin ≡ some "tenant" → or_default doc.command "" ≡ ""
    pub no_cwd : doc.origin ≡ some "tenant" → or_default doc.cwd "" ≡ ""
    pub screened :
        doc.origin ≡ some "tenant"
        → settings.tenant_endpoint_ssrf_guard ≡ true
        → (doc.transport ≡ some "streamable_http") ⊎ (doc.transport ≡ some "sse")
        → (endpoint : String) → doc.endpoint ≡ some endpoint
        → (endpoint == "") ≡ false
        → validate_tenant_endpoint net endpoint ≡ ok tt
    pub mountable : assert_mountable doc ≡ ok tt

  tenant_origin :
      (o : Option String)
      → ((or_default o "" == "platform") && true) ≡ false
      → resolved_origin net false o ≡ "tenant"
  tenant_origin none h = refl
  tenant_origin (some raw) h =
      ground (arith, eq_iff raw "platform", eq_iff raw "tenant", eq_iff raw "")

  stays_mountable :
      (o : String) (doc : ServerDoc)
      → ((o == "tenant") && uses_host net doc) ≡ false
      → assert_mountable (record doc { origin = some o }) ≡ ok tt
  unfolding assert_mountable
  stays_mountable o doc h = rw (
    normalized_tenant o,
    first_false (o == "tenant") (or_default doc.transport "" == "stdio") _ h,
  )

  stdio_uses : (doc : ServerDoc) → doc.transport ≡ some "stdio" → ¬ (uses_host net doc ≡ false)
  stdio_uses doc stdio h = let bad : ◌≡◌ {A = Bool} true false = rw stdio at h in cc

  no_text : (t : String) (p q : Bool) → (p || (not (t == "") || q)) ≡ false → t ≡ ""
  no_text t p q h = (eq_iff t "").0 (ground arith)

  no_text' : (t : String) (p q : Bool) → (p || (q || not (t == ""))) ≡ false → t ≡ ""
  no_text' t p q h = (eq_iff t "").0 (ground arith)

  text_of : (t : String) → (t == "") ≡ false → or_default (some t) "" ≡ t
  text_of t filled = rw filled refl

  set_text : (t : String) → (t == "") ≡ false → is_set (some t) ≡ true
  set_text t filled = ground (arith, filled, text_of t filled)

  due :
      (settings : Settings) (doc : ServerDoc) (endpoint : String)
      → settings.tenant_endpoint_ssrf_guard ≡ true
      → (doc.transport ≡ some "streamable_http") ⊎ (doc.transport ≡ some "sse")
      → doc.endpoint ≡ some endpoint
      → (endpoint == "") ≡ false
      → needs_screening net settings doc ≡ true
  due settings doc endpoint on (inl http) at filled = rw (on, http, at) (set_text endpoint filled)
  due settings doc endpoint on (inr sse) at filled = rw (on, sse, at) (set_text endpoint filled)

  stamped-IsEnforced :
      (settings : Settings) (admin : Bool) (before : ServerDoc)
      → ((or_default before.origin "" == "platform") && not admin) ≡ false
      → ((resolved_origin net admin before.origin == "tenant") && uses_host net before) ≡ false
      → (((resolved_origin net admin before.origin == "tenant")
              && needs_screening net settings before)
            ≡ true
          → validate_tenant_endpoint net (or_default before.endpoint "") ≡ ok tt)
      → IsEnforced settings admin before
          (record before { origin = some (resolved_origin net admin before.origin) })
  stamped-IsEnforced settings admin before a b c = record {
    origin = refl;
    tenant_admin = λ e. rw e (ap some (tenant_origin before.origin (rw e at a)));
    no_stdio = λ e stdio. stdio_uses before stdio (both_false (is_tenant _ e) b);
    no_command = λ e.
        no_text (or_default before.command "") (or_default before.transport "" == "stdio")
          (is_set before.cwd) (both_false (is_tenant _ e) b);
    no_cwd = λ e.
        no_text' (or_default before.cwd "") (or_default before.transport "" == "stdio")
          (is_set before.command) (both_false (is_tenant _ e) b);
    screened = λ e on kind endpoint at filled.
        subst (λ t. validate_tenant_endpoint net t ≡ ok tt)
          (ap (λ o. or_default o "") at ∙ text_of endpoint filled)
          (c (both_true (is_tenant _ e) (due settings before endpoint on kind at filled)));
    mountable = stays_mountable (resolved_origin net admin before.origin) before b;
  }
    where
      both_false : {p q : Bool} → p ≡ true → (p && q) ≡ false → q ≡ false
      both_false {p} {q} e h = ground arith

      both_true : {p q : Bool} → p ≡ true → q ≡ true → (p && q) ≡ true
      both_true {p} {q} e h = ground arith

  -- A server document that the guard accepts has the origin that was asked for or that follows from
  -- the caller, is the tenant's if the caller is no platform admin, and can be mounted. If it is
  -- the tenant's, its transport is not stdio and it has neither a command nor a working directory;
  -- and if the guard of endpoints is on, its transport is HTTP or SSE and it has an endpoint, then
  -- that endpoint has passed the screening.
  pub enforce_server_policy-IsEnforced :
      (settings : Settings) (is_platform_admin : Bool) (before doc : ServerDoc)
      → enforce_server_policy net settings is_platform_admin before ≡ ok doc
      → IsEnforced settings is_platform_admin before doc
  unfolding enforce_server_policy
  enforce_server_policy-IsEnforced settings is_platform_admin before doc h =
      let (a, b, c, same) =
        policy_ladder ((or_default before.origin "" == "platform") && not is_platform_admin)
          ((resolved_origin net is_platform_admin before.origin == "tenant")
            && uses_host net before)
          ((resolved_origin net is_platform_admin before.origin == "tenant")
            && needs_screening net settings before)
          (validate_tenant_endpoint net (or_default before.endpoint ""))
          (record before { origin = some (resolved_origin net is_platform_admin before.origin) })
          doc h in
      subst (IsEnforced settings is_platform_admin before) same
        (stamped-IsEnforced settings is_platform_admin before a b c)

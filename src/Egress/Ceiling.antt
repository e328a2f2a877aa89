-- ===== src/Egress/Ceiling.antt =====
-- What passes the rules.
use m_gate.Prelude.{
  Bool, List, Option, Result, String, [], any, arith, err, false, if◌then◌else◌, none, not, ok,
  some, true, ◌&&◌, ◌||◌, ◌∙◌, ◌∷◌, ◌≡◌,
}
use m_gate.Egress.{
  Addresses, EgressNotAllowed, deny_by_default, disallowed_address, ip_is_disallowed,
  no_tenant_grant, not_on_global_allowlist, not_on_tenant_allowlist, parse_allowlist,
}
use m_gate.Egress.Rules.{
  EgressRules, ParsedList, build_code_egress_rules, build_rules, evaluate, has_any_allowlist,
  is_active, is_empty_list, matches, parse_list,
}
use m_gate.Settings.{Settings}

module _ {Ip Net : Type 0} (a : Addresses Ip Net) where
  abbrev pub is_allowed : Result EgressNotAllowed (Unit {0}) → Bool
  is_allowed (ok _) = true
  is_allowed (err e) = false

  -- A list that is configured must match.
  abbrev pub within : ParsedList Net → String → List Ip → Bool
  within parsed host ips = is_empty_list a parsed || matches a parsed host ips

  -- The ladder of `evaluate`, by what it asks.
  evaluate_lem :
      (rules : EgressRules Net) (host : String) (ips : List Ip)
      → is_allowed (evaluate a rules host ips) ≡ (
          not (is_active a rules)
          || (not (any (ip_is_disallowed a) ips)
              && (not (rules.require_tenant_allowlist && is_empty_list a rules.tenant_rule)
                  && (has_any_allowlist a rules
                      && (within rules.global_rule host ips
                          && within rules.tenant_rule host ips)))))
  unfolding evaluate
  evaluate_lem rules host ips =
      ladder (is_active a rules) (any (ip_is_disallowed a) ips) rules.require_tenant_allowlist
        (is_empty_list a rules.tenant_rule) (has_any_allowlist a rules)
        (is_empty_list a rules.global_rule) (matches a rules.global_rule host ips)
        (matches a rules.tenant_rule host ips)
    where
      ladder :
          (active disallowed strict no_tenant some_list no_global on_global on_tenant : Bool)
          → is_allowed (
              if not active
              then ok tt
              else if disallowed
              then err disallowed_address
              else if strict && no_tenant
              then err no_tenant_grant
              else if not some_list
              then err deny_by_default
              else if not no_global && not on_global
              then err not_on_global_allowlist
              else if not no_tenant && not on_tenant
              then err not_on_tenant_allowlist
              else ok tt)
            ≡ (not active
                || (not disallowed
                    && (not (strict && no_tenant)
                        && (some_list && ((no_global || on_global) && (no_tenant || on_tenant))))))
      ladder active disallowed strict no_tenant some_list no_global on_global on_tenant =
          ground arith

  strict_ladder :
      (disallowed no_tenant no_global on_global on_tenant : Bool)
      → (false
          || (not disallowed
              && (not (true && no_tenant)
                  && ((not no_global || not no_tenant)
                      && ((no_global || on_global) && (no_tenant || on_tenant))))))
        ≡ (not disallowed && (not no_tenant && (on_tenant && (no_global || on_global))))
  strict_ladder disallowed no_tenant no_global on_global on_tenant = ground arith

  -- The same, by the rules that were built.
  by_rules :
      (settings : Settings) (tenant_allowlist global_allowlist : Option (List String))
      (host : String) (ips : List Ip)
      → let rules = build_code_egress_rules a settings tenant_allowlist global_allowlist in
        is_allowed (evaluate a rules host ips) ≡ (
          not (any (ip_is_disallowed a) ips)
          && (not (is_empty_list a rules.tenant_rule)
              && (matches a rules.tenant_rule host ips && within rules.global_rule host ips)))
  unfolding evaluate build_code_egress_rules
  by_rules settings tenant_allowlist global_allowlist host ips =
      let rules = build_code_egress_rules a settings tenant_allowlist global_allowlist in
      evaluate_lem rules host ips
      ∙ strict_ladder (any (ip_is_disallowed a) ips) (is_empty_list a rules.tenant_rule)
          (is_empty_list a rules.global_rule) (matches a rules.global_rule host ips)
          (matches a rules.tenant_rule host ips)

  -- The operator's list: the one that is handed over, else the one of the settings.
  abbrev pub operator_list : Settings → Option (List String) → List String
  operator_list settings none = settings.egress_global_allowlist ∷ []
  operator_list settings (some raw) = raw

  -- The rules for code tools let a connection through, whatever the deployment's switches, exactly
  -- if no address of the host is on the denylist, the list handed over for the tenant is not empty
  -- and matches, and the operator's list, the one handed over or else that of the settings, matches
  -- or is empty.
  pub evaluate-code_rules :
      (settings : Settings) (tenant_allowlist global_allowlist : Option (List String))
      (host : String) (ips : List Ip)
      → let rules = build_code_egress_rules a settings tenant_allowlist global_allowlist in
        let tenant = parse_list a (parse_allowlist tenant_allowlist) in
        let operator =
          parse_list a (parse_allowlist (some (operator_list settings global_allowlist))) in
        is_allowed (evaluate a rules host ips) ≡ (
          not (any (ip_is_disallowed a) ips)
          && (not (is_empty_list a tenant)
              && (matches a tenant host ips && within operator host ips)))
  unfolding evaluate build_code_egress_rules
  evaluate-code_rules settings tenant_allowlist none host ips =
      by_rules settings tenant_allowlist none host ips
  evaluate-code_rules settings tenant_allowlist (some raw) host ips =
      by_rules settings tenant_allowlist (some raw) host ips

  -- Without a list and without the default, nothing changes for a deployment that set none.
  pub evaluate-unconfigured :
      (settings : Settings) (host : String) (ips : List Ip)
      → settings.egress_default_deny ≡ false
      → parse_allowlist (some (settings.egress_global_allowlist ∷ [])) ≡ []
      → evaluate a (build_rules a settings none none) host ips ≡ ok tt
  unfolding evaluate build_rules parse_allowlist parse_list
  evaluate-unconfigured settings host ips off empty = rw (off, empty) (ground arith)

-- ===== src/Egress/Rules.antt =====
-- The rules of services/egress_policy.py, and what they let through.
use Prim.Native.Char.{code}
use m_gate.Prelude.{
  Bool, List, Option, Result, String, [], any, err, false, if◌then◌else◌, is_empty, lower, nat_beq,
  none, not, ok, some, strip, true, ℕ, ◌&&◌, ◌==◌, ◌||◌, ◌∷◌, string_eq, nat_eq, pair_eq,
}
use m_gate.Egress.{
  Addresses, EgressNotAllowed, deny_by_default, disallowed_address, ip_is_disallowed,
  no_tenant_grant, not_on_global_allowlist, not_on_tenant_allowlist, parse_allowlist,
}
use m_gate.Settings.{Settings}

-- `_ParsedList`
pub record ParsedList (Net : Type 0) : Type 0 where
  pub host_patterns : List String
  pub networks : List Net

pub record EgressRules (Net : Type 0) : Type 0 where
  pub enabled : Bool
  pub default_deny : Bool
  pub global_rule : ParsedList Net
  pub tenant_rule : ParsedList Net
  pub require_tenant_allowlist : Bool

-- A character of the text is `c` or `d`.
has_char : ℕ → ℕ → String → Bool
has_char c d String.[] = false
has_char c d (String.◌∷◌ x s) = nat_beq (code x) c || (nat_beq (code x) d || has_char c d s)

module _ {Ip Net : Type 0} (a : Addresses Ip Net) where
  abbrev add_network : Option Net → String → ParsedList Net → ParsedList Net
  add_network (some net) entry parsed = record parsed { networks = net ∷ parsed.networks }
  add_network none entry parsed = record parsed { host_patterns = entry ∷ parsed.host_patterns }

  -- An entry with a slash is a network or, failing that, a pattern; so is an address.
  unfoldable pub parse_list : List String → ParsedList Net
  unfolding has_char strip lower
  parse_list [] = record { host_patterns = []; networks = [] }
  parse_list (raw ∷ entries) =
      let entry = lower (strip raw) in
      let rest = parse_list entries in
      if entry == ""
      then rest
      else if has_char b'/' b'/' entry
      then add_network (a.parse_network entry) entry rest
      else add_network (a.network_of_address entry) entry rest

  abbrev pub is_empty_list : ParsedList Net → Bool
  is_empty_list parsed = is_empty parsed.host_patterns && is_empty parsed.networks

  pattern_matches : String → String → Bool
  unfolding has_char
  pattern_matches host pattern' =
      if has_char b'*' b'?' pattern' then a.fnmatch host pattern' else (host == pattern')

  unfoldable pub matches : ParsedList Net → String → List Ip → Bool
  unfolding pattern_matches lower
  matches parsed host ips =
      any (pattern_matches (lower host)) parsed.host_patterns
      || any (λ ip. any (λ net. a.holds net ip) parsed.networks) ips

  abbrev pub has_any_allowlist : EgressRules Net → Bool
  has_any_allowlist rules =
      not (is_empty_list rules.global_rule) || not (is_empty_list rules.tenant_rule)

  abbrev pub is_active : EgressRules Net → Bool
  is_active rules =
      if not rules.enabled then false else (rules.default_deny || has_any_allowlist rules)

  -- `evaluate`
  unfoldable pub evaluate : EgressRules Net → String → List Ip → Result EgressNotAllowed (Unit {0})
  unfolding ip_is_disallowed matches
  evaluate rules host ips =
      if not (is_active rules)
      then ok tt
      else if any (ip_is_disallowed a) ips
      then err disallowed_address
      else if rules.require_tenant_allowlist && is_empty_list rules.tenant_rule
      then err no_tenant_grant
      else if not (has_any_allowlist rules)
      then err deny_by_default
      else if not (is_empty_list rules.global_rule) && not (matches rules.global_rule host ips)
      then err not_on_global_allowlist
      else if not (is_empty_list rules.tenant_rule) && not (matches rules.tenant_rule host ips)
      then err not_on_tenant_allowlist
      else ok tt

  abbrev global_entries : Settings → Option (List String) → List String
  global_entries settings none = parse_allowlist (some (settings.egress_global_allowlist ∷ []))
  global_entries settings (some raw) = parse_allowlist (some raw)

  unfoldable pub build_rules :
      Settings → Option (List String) → Option (List String) → EgressRules Net
  unfolding parse_list parse_allowlist
  build_rules settings tenant_allowlist global_allowlist = record {
    enabled = settings.egress_allowlist_enabled;
    default_deny = settings.egress_default_deny;
    global_rule = parse_list (global_entries settings global_allowlist);
    tenant_rule = parse_list (parse_allowlist tenant_allowlist);
    require_tenant_allowlist = false;
  }

  unfoldable pub build_code_egress_rules :
      Settings → Option (List String) → Option (List String) → EgressRules Net
  unfolding parse_list parse_allowlist
  build_code_egress_rules settings tenant_allowlist global_allowlist = record {
    enabled = true;
    default_deny = true;
    global_rule = parse_list (global_entries settings global_allowlist);
    tenant_rule = parse_list (parse_allowlist tenant_allowlist);
    require_tenant_allowlist = true;
  }

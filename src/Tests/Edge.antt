-- ===== src/Tests/Edge.antt =====
-- The limiter, the door and the egress rules at concrete inputs.
use m_gate.Prelude.{
  List, [], any, arith, clamp, drop, false, if◌then◌else◌, length, nat_beq, none, not, ok, refl,
  some, true, ℕ, ◌&&◌, ◌<◌, ◌==◌, ◌∷◌, ◌≡◌, ◌≤◌, string_eq, nat_eq, pair_eq,
}
use m_gate.Catalog.{CatalogTool}
use m_gate.Egress.{Addresses, ip_is_disallowed, parse_allowlist}
use m_gate.Egress.Ceiling.{evaluate-code_rules, is_allowed, operator_list, within}
use m_gate.Egress.Rules.{build_code_egress_rules, evaluate, is_empty_list, matches, parse_list}
use m_gate.RateLimit.Window.{Arrival, passes, passes-le-limit}
use m_gate.Rbac.{Visit, door}
use m_gate.Rbac.Door.{door-may_enter, is_forward, may_enter, may_use_tools}
use m_gate.Rpc.ToolsList.Walk.{walk, walk-available_tools}
use m_gate.ServerGuard.{
  Network, ServerDoc, check_addresses, enforce_server_policy, validate_tenant_endpoint,
}
use m_gate.ServerGuard.Policy.{IsEnforced, enforce_server_policy-IsEnforced}
use m_gate.Tenant.Store.{ToolPolicy}
use m_gate.Tenant.ToolPolicy.{available_tools}
use m_gate.Tests.Fixtures.{send, settings}

abbrev arrivals : List Arrival
arrivals =
    record { tenant = "acme"; ip = "10.0.0.1"; now = 61000 }
    ∷ record { tenant = "beta"; ip = "10.0.0.2"; now = 62000 }
    ∷ record { tenant = "acme"; ip = "10.0.0.1"; now = 63000 }
    ∷ []

passes-le-limit_example :
    passes settings ("acme", ("10.0.0.1", 60)) arrivals [] ≤ clamp settings.rate_limit_max_requests
passes-le-limit_example = passes-le-limit settings ("acme", ("10.0.0.1", 60)) arrivals []

-- A viewer deletes through the console's interface.
abbrev visit : Visit
visit = record {
  path = "/admin/tenants";
  method = "DELETE";
  is_admin_principal = true;
  is_read_only_principal = true;
  admin_auth_via_cookie = true;
  csrf_header = some "t";
  csrf_cookie = some "t";
  tenant_id = "acme";
  user_id = "eve";
  roles = "viewer" ∷ [];
}

door-may_enter_example :
    is_forward (door settings [] visit) ≡ (may_enter settings visit && may_use_tools [] visit)
door-may_enter_example = door-may_enter settings [] visit

-- Addresses are numbers: 127 is the loopback, a network is one address.
abbrev numbers : Addresses ℕ ℕ
numbers = record {
  parse_network = λ s. none;
  network_of_address = λ s. if s == "8.8.8.8" then some 8 else none;
  holds = λ net ip. nat_beq net ip;
  is_loopback = λ ip. nat_beq ip 127;
  is_link_local = λ ip. false;
  is_private = λ ip. nat_beq ip 10;
  is_reserved = λ ip. false;
  is_unspecified = λ ip. nat_beq ip 0;
  cgnat = 100;
  fnmatch = λ host pattern'. false;
}

evaluate-code_rules_example :
    let rules = build_code_egress_rules numbers settings (some ("api.acme.com" ∷ [])) none in
    let tenant = parse_list numbers (parse_allowlist (some ("api.acme.com" ∷ []))) in
    let operator =
      parse_list numbers (parse_allowlist (some (operator_list numbers settings none))) in
    is_allowed numbers (evaluate numbers rules "api.acme.com" (8 ∷ [])) ≡ (
      not (any (ip_is_disallowed numbers) (8 ∷ []))
      && (not (is_empty_list numbers tenant)
          && (matches numbers tenant "api.acme.com" (8 ∷ [])
              && within numbers operator "api.acme.com" (8 ∷ []))))
evaluate-code_rules_example =
    evaluate-code_rules numbers settings (some ("api.acme.com" ∷ [])) none "api.acme.com" (8 ∷ [])

abbrev network : Network ℕ ℕ
network = record {
  addresses = numbers;
  urlparse = λ s. record { scheme = "https"; hostname = some "api.acme.com"; port = none };
  resolve = λ host port. some ("8.8.8.8" ∷ []);
  ip_address = λ s. some 8;
}

abbrev registered : ServerDoc
registered = record {
  origin = none;
  transport = some "sse";
  command = none;
  cwd = none;
  endpoint = some "https://api.acme.com/sse";
}

abbrev stored : ServerDoc
stored = record registered { origin = some "tenant" }

is_accepted : enforce_server_policy network settings false registered ≡ ok stored
unfolding enforce_server_policy validate_tenant_endpoint check_addresses ip_is_disallowed
is_accepted = refl

enforce_server_policy-IsEnforced_example : IsEnforced network settings false registered stored
enforce_server_policy-IsEnforced_example =
    enforce_server_policy-IsEnforced network settings false registered stored is_accepted

abbrev drafts : CatalogTool
drafts = record send { name = "drafts" }

abbrev two_tools : List CatalogTool
two_tools = drafts ∷ send ∷ []

abbrev open_policy : ToolPolicy
open_policy = record { allowlist = []; max_tools = 0; disabled_tools = [] }

positive_limit : 0 < 1
positive_limit = omega arith

enough_pages : length (drop 0 two_tools) < 3
enough_pages = omega arith

walk-available_tools_example :
    walk open_policy 1 two_tools 3 0 ≡ available_tools open_policy (drop 0 two_tools)
walk-available_tools_example =
    walk-available_tools open_policy 1 two_tools 3 0 positive_limit enough_pages

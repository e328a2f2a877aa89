-- ===== src/ServerGuard.antt =====
-- services/server_guard.py: which servers a tenant may register and the gateway may mount. `urlparse`
-- and name resolution are parameters; the addresses are those of the egress policy.
pub mod Policy
use m_gate.Prelude.{
  Bool, List, Option, Result, String, [], elem, err, if◌then◌else◌, none, not, ok, or_default, some,
  ℕ, ◌&&◌, ◌==◌, ◌>>=◌, ◌||◌, ◌∷◌, string_eq, nat_eq, pair_eq,
}
use m_gate.Egress.{Addresses, ip_is_disallowed}
use m_gate.Settings.{Settings}

-- The fields of a server's document that the guard reads.
pub record ServerDoc : Type 0 where
  pub origin : Option String
  pub transport : Option String
  pub command : Option String
  pub cwd : Option String
  pub endpoint : Option String

pub data GuardError : Type 0 where
  stdio_not_allowed endpoint_not_allowed : GuardError

pub record Url : Type 0 where
  pub scheme : String
  pub hostname : Option String
  pub port : Option ℕ

-- `ip_address` fails on a text that is no address, and `resolve` on a name that has none.
pub record Network (Ip Net : Type 0) : Type 0 where
  pub addresses : Addresses Ip Net
  pub urlparse : String → Url
  pub resolve : String → ℕ → Option (List String)
  pub ip_address : String → Option Ip

abbrev pub is_origin : String → Bool
is_origin s = elem s ("platform" ∷ "tenant" ∷ [])

abbrev pub assign_origin : Bool → String
assign_origin is_platform_admin = if is_platform_admin then "platform" else "tenant"

abbrev pub normalized_origin : Option String → String
normalized_origin none = "platform"
normalized_origin (some raw) = if is_origin raw then raw else "platform"

-- A missing text and an empty one are the same.
abbrev pub is_set : Option String → Bool
is_set text = not (or_default text "" == "")

module _ {Ip Net : Type 0} (net : Network Ip Net) where
  -- The loop over the resolved addresses, each looked at once.
  unfoldable pub check_addresses : List String → List String → Result GuardError (Unit {0})
  unfolding ip_is_disallowed
  check_addresses seen [] = ok tt
  check_addresses seen (address ∷ addresses) =
      let skipped = check_addresses seen addresses in
      let rest = check_addresses (address ∷ seen) addresses in
      if elem address seen then skipped else elim (net.ip_address address) [
        | none ↦ err endpoint_not_allowed
        | some ip ↦ if ip_is_disallowed net.addresses ip then err endpoint_not_allowed else rest
      ]

  abbrev pub port_of : Url → ℕ
  port_of url = elim url.port [ none ↦ if url.scheme == "https" then 443 else 80 | some p ↦ p ]

  abbrev resolved : Option (List String) → Result GuardError (Unit {0})
  resolved none = err endpoint_not_allowed
  resolved (some addresses) = check_addresses [] addresses

  unfoldable pub validate_tenant_endpoint : String → Result GuardError (Unit {0})
  unfolding check_addresses
  validate_tenant_endpoint endpoint =
      let url = net.urlparse endpoint in
      let host = or_default url.hostname "" in
      if not (elem url.scheme ("http" ∷ "https" ∷ []))
      then err endpoint_not_allowed
      else if host == ""
      then err endpoint_not_allowed
      else resolved (net.resolve host (port_of url))

  -- The origin that the document ends up with.
  abbrev pub resolved_origin : Bool → Option String → String
  resolved_origin is_platform_admin none = assign_origin is_platform_admin
  resolved_origin is_platform_admin (some raw) =
      if is_origin raw then raw else assign_origin is_platform_admin

  abbrev pub uses_host : ServerDoc → Bool
  uses_host doc = (or_default doc.transport "" == "stdio") || (is_set doc.command || is_set doc.cwd)

  abbrev pub needs_screening : Settings → ServerDoc → Bool
  needs_screening settings doc =
      settings.tenant_endpoint_ssrf_guard
      && (elem (or_default doc.transport "") ("streamable_http" ∷ "sse" ∷ [])
          && is_set doc.endpoint)

  unfoldable pub enforce_server_policy : Settings → Bool → ServerDoc → Result GuardError ServerDoc
  unfolding validate_tenant_endpoint
  enforce_server_policy settings is_platform_admin doc =
      let origin = resolved_origin is_platform_admin doc.origin in
      let screened = validate_tenant_endpoint (or_default doc.endpoint "") in
      let stamped = record doc { origin = some origin } in
      if (or_default doc.origin "" == "platform") && not is_platform_admin
      then err stdio_not_allowed
      else if (origin == "tenant") && uses_host doc
      then err stdio_not_allowed
      else if (origin == "tenant") && needs_screening settings doc
      then (screened >>= λ _. ok stamped)
      else ok stamped

unfoldable pub assert_mountable : ServerDoc → Result GuardError (Unit {0})
assert_mountable doc =
    if (normalized_origin doc.origin == "tenant") && (or_default doc.transport "" == "stdio")
    then err stdio_not_allowed
    else ok tt

-- ===== src/Egress.antt =====
-- services/egress_policy.py and the denylist of services/server_guard.py: may the gateway connect
-- to this host? Addresses and networks are those of Python's `ipaddress`, a parameter.
pub mod Rules
pub mod Ceiling
use m_gate.Prelude.{
  Bool, List, Option, String, [], elem, if◌then◌else◌, lower, map, none, some, split_list, strip,
  ◌++◌, ◌==◌, ◌||◌, ◌∷◌, string_eq, nat_eq, pair_eq,
}

-- What the code uses of `ipaddress` and `fnmatch`. `holds` is false across versions, and
-- `network_of_address` is the network of one address alone.
pub record Addresses (Ip Net : Type 0) : Type 0 where
  pub parse_network : String → Option Net
  pub network_of_address : String → Option Net
  pub holds : Net → Ip → Bool
  pub is_loopback : Ip → Bool
  pub is_link_local : Ip → Bool
  pub is_private : Ip → Bool
  pub is_reserved : Ip → Bool
  pub is_unspecified : Ip → Bool
  pub cgnat : Net
  pub fnmatch : String → String → Bool

-- Why a connection is refused.
pub data EgressNotAllowed : Type 0 where
  disallowed_address no_tenant_grant deny_by_default : EgressNotAllowed
  not_on_global_allowlist not_on_tenant_allowlist : EgressNotAllowed

-- Each entry once, where it first stands.
unfoldable pub unique_from : List String → List String → List String
unique_from seen [] = []
unique_from seen (entry ∷ entries) =
    let skipped = unique_from seen entries in
    let taken = entry ∷ unique_from (entry ∷ seen) entries in
    if (entry == "") || elem entry seen then skipped else taken

-- A setting is one text, a tenant's list several; `none` is no list.
unfoldable pub tokens : List String → List String
unfolding split_list
tokens [] = []
tokens (item ∷ items) = split_list item ++ tokens items

unfoldable pub parse_allowlist : Option (List String) → List String
unfolding unique_from tokens strip lower
parse_allowlist none = []
parse_allowlist (some raw) = unique_from [] (map (λ token. lower (strip token)) (tokens raw))

module _ {Ip Net : Type 0} (a : Addresses Ip Net) where
  unfoldable pub ip_is_disallowed : Ip → Bool
  ip_is_disallowed ip =
      a.is_loopback ip
      || (a.is_link_local ip
          || (a.is_private ip || (a.is_reserved ip || (a.is_unspecified ip || a.holds a.cgnat ip))))

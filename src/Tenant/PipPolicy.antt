-- ===== src/Tenant/PipPolicy.antt =====
-- services/tenant_pip_policy.py: which packages a tenant's code tools may install. A Python set
-- that is only searched is a list here.
pub mod Ceiling
use Prim.Native.Char.{Char, code}
use m_gate.Prelude.{
  Bool, List, Option, Result, String, [], concat, elem, err, false, find_and_modify, if◌then◌else◌,
  is_empty, keep, leb, lookup, lower, map, nat_beq, none, not, ok, some, sorted_set, split_list,
  strip, true, ℕ, ◌&&◌, ◌==◌, ◌>>=◌, ◌||◌, ◌∷◌, string_eq, nat_eq, pair_eq,
}
use m_gate.Settings.{Settings}
use m_gate.Tenant.Cache.{Cache, read, write_through}
use m_gate.Tenant.Store.{ControlPlane, TenantDoc, cache_ttl, field, stamp}
use m_gate.Tenant.Tier.Caps.{normalized}

-- `s.split("==", 1)[0]`
before_pin : String → String
before_pin String.[] = ""
before_pin (String.◌∷◌ c String.[]) = String.◌∷◌ c ""
before_pin (String.◌∷◌ c (String.◌∷◌ d s)) =
    let rest = before_pin (String.◌∷◌ d s) in
    if nat_beq (code c) b'=' && nat_beq (code d) b'=' then "" else String.◌∷◌ c rest

-- `s.split("[", 1)[0]`
before_extras : String → String
before_extras String.[] = ""
before_extras (String.◌∷◌ c s) =
    let rest = before_extras s in if nat_beq (code c) b'[' then "" else String.◌∷◌ c rest

is_dash : Char → Bool
is_dash c = nat_beq (code c) b'-' || (nat_beq (code c) b'_' || nat_beq (code c) b'.')

-- `re.sub(r"[-_.]+", "-", s)`; `inside` says whether a run has begun.
collapse_from : Bool → String → String
unfolding is_dash
collapse_from inside String.[] = ""
collapse_from inside (String.◌∷◌ c s) =
    let rest = collapse_from (is_dash c) s in
    if is_dash c then (if inside then rest else concat ("-" ∷ rest ∷ [])) else String.◌∷◌ c rest

unfoldable pub normalize_requirement_name : String → String
unfolding before_pin before_extras collapse_from strip lower
normalize_requirement_name spec =
    lower (collapse_from false (strip (before_extras (before_pin spec))))

-- The names of some requirements, without the empty ones.
unfoldable pub normalized_names : List String → List String
normalized_names specs = keep (λ n. not (n == "")) (map normalize_requirement_name specs)

unfoldable pub global_ceiling_names : Settings → List String
unfolding split_list normalized_names
global_ceiling_names settings = normalized_names (split_list settings.sandbox_allowed_requirements)

-- `PipPolicyError`
pub data PipPolicyError : Type 0 where
  invalid_package : String → PipPolicyError

is_alnum : Char → Bool
is_alnum c =
    (leb b'a' (code c) && leb (code c) b'z')
    || ((leb b'A' (code c) && leb (code c) b'Z') || (leb b'0' (code c) && leb (code c) b'9'))

name_rest : String → Bool
name_rest String.[] = true
name_rest (String.◌∷◌ c s) = (is_alnum c || is_dash c) && name_rest s

-- `_DISTRIBUTION_NAME_RE.match`
unfoldable pub is_distribution_name : String → Bool
unfolding is_alnum is_dash name_rest
is_distribution_name String.[] = false
is_distribution_name (String.◌∷◌ c s) = is_alnum c && name_rest s

-- The loop of `validate_allowlist_entries`, before `sorted`.
valid_names : List String → Result PipPolicyError (List String)
valid_names [] = ok []
valid_names (raw ∷ entries) =
    let token = strip raw in
    let rest = valid_names entries in
    if token == ""
    then rest
    else if is_distribution_name token
    then (rest >>= λ names. ok (normalize_requirement_name token ∷ names))
    else err (invalid_package token)

unfoldable pub validate_allowlist_entries : List String → Result PipPolicyError (List String)
unfolding valid_names
validate_allowlist_entries entries = valid_names entries >>= λ names. ok (sorted_set names)

unfoldable pub coerce_stored_allowlist : Option (List String) → List String
unfolding normalized_names
coerce_stored_allowlist none = []
coerce_stored_allowlist (some value) = sorted_set (normalized_names value)

unfoldable pub effective_allowlist : Settings → List String → List String
effective_allowlist settings tenant_allowlist =
    sorted_set
      (keep (λ n. elem n (global_ceiling_names settings)) (normalized_names tenant_allowlist))

pub record PipPolicyDecision : Type 0 where
  pub requested : List String
  pub allowed : List String
  pub blocked_by_global : List String
  pub blocked_by_tenant : List String

unfoldable pub is_ok : PipPolicyDecision → Bool
is_ok d = is_empty d.blocked_by_global && is_empty d.blocked_by_tenant

-- The loop that collects the names asked for, each once, in order.
unfoldable pub requested_from : List String → List String → List String
requested_from seen [] = []
requested_from seen (spec ∷ specs) =
    let name = normalize_requirement_name spec in
    let skipped = requested_from seen specs in
    let taken = name ∷ requested_from (name ∷ seen) specs in
    if (name == "") || elem name seen then skipped else taken

-- One round of the loop that sorts the names into the three lists; the rest is in `d`.
abbrev sort_name : List String → List String → String → PipPolicyDecision → PipPolicyDecision
sort_name ceiling tenant name d =
    if not (elem name ceiling)
    then record d { blocked_by_global = name ∷ d.blocked_by_global }
    else if not (elem name tenant)
    then record d { blocked_by_tenant = name ∷ d.blocked_by_tenant }
    else record d { allowed = name ∷ d.allowed }

unfoldable pub classify : List String → List String → List String → List String → PipPolicyDecision
classify ceiling tenant requested [] = record {
  requested = requested;
  allowed = [];
  blocked_by_global = [];
  blocked_by_tenant = [];
}
classify ceiling tenant requested (name ∷ names) =
    sort_name ceiling tenant name (classify ceiling tenant requested names)

unfoldable pub evaluate_requirements : Settings → List String → List String → PipPolicyDecision
unfolding classify requested_from
evaluate_requirements settings requirements tenant_allowlist =
    let requested = requested_from [] requirements in
    classify (global_ceiling_names settings) (normalized_names tenant_allowlist) requested requested

unfoldable pub get_tenant_pip_allowlist :
    Settings → ControlPlane → String → ℕ → List String × ControlPlane
get_tenant_pip_allowlist settings plane tenant now =
    let (allowlist, cache) =
      read (cache_ttl settings) now tenant
        (coerce_stored_allowlist
          (field (lookup tenant plane.tenants) (λ d. d.code_requirements_allowlist)))
        plane.allowlist_cache in
    (allowlist, record plane { allowlist_cache = cache })

unfoldable pub get_effective_pip_allowlist :
    Settings → ControlPlane → String → ℕ → List String × ControlPlane
get_effective_pip_allowlist settings plane tenant now =
    let (allowlist, plane') = get_tenant_pip_allowlist settings plane tenant now in
    (effective_allowlist settings allowlist, plane')

unfoldable pub evaluate_tenant_requirements :
    Settings → ControlPlane → String → List String → ℕ → PipPolicyDecision × ControlPlane
evaluate_tenant_requirements settings plane tenant requirements now =
    let (allowlist, plane') = get_tenant_pip_allowlist settings plane tenant now in
    (evaluate_requirements settings requirements allowlist, plane')

unfoldable pub requirements_update : List String → Option String → ℕ → TenantDoc → TenantDoc
requirements_update normalized updated_by wall doc = record doc {
  code_requirements_allowlist = some normalized;
  code_requirements_stamp = stamp wall updated_by;
  updated_at = wall;
}

abbrev refresh :
    Settings
    → String
    → List String
    → ℕ
    → Option TenantDoc
    → Cache (List String)
    → Cache (List String)
refresh settings tenant allowlist now none cache = cache
refresh settings tenant allowlist now (some doc) cache =
    write_through (cache_ttl settings) now tenant allowlist cache

unfoldable pub set_tenant_pip_allowlist :
    Settings
    → ControlPlane
    → String
    → List String
    → Option String
    → ℕ
    → ℕ
    → Result PipPolicyError (Option TenantDoc) × ControlPlane
unfolding requirements_update
set_tenant_pip_allowlist settings plane tenant entries updated_by wall now =
    elim (validate_allowlist_entries entries) [
      | err e ↦ (err e, plane)
      | ok normalized ↦
          let (doc, tenants) =
            find_and_modify tenant (requirements_update normalized updated_by wall) plane.tenants in
          (
            ok doc,
            record plane {
              tenants = tenants;
              allowlist_cache = refresh settings tenant normalized now doc plane.allowlist_cache;
            },
          )
    ]

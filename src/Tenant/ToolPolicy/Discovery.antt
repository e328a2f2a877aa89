-- ===== src/Tenant/ToolPolicy/Discovery.antt =====
-- What discovery shows of a tenant's catalog.
use m_gate.Prelude.{
  Bool, Bool-cases, List, String, [], all, and_left, and_right, arith, elem, false, inl, inr,
  is_empty, keep, keep-eq_of_all, refl, sym, true, ◌&&◌, ◌∷◌, ◌≡◌, string_eq,
}
use m_gate.Catalog.{CatalogTool}
use m_gate.Tenant.Store.{ToolPolicy}
use m_gate.Tenant.ToolPolicy.{available_tools, fq_name, is_tool_available, matches_allowlist}

shown : ToolPolicy → CatalogTool → Bool
shown policy t = is_tool_available policy t.server t.name

all_shown :
    (policy : ToolPolicy) (tools : List CatalogTool)
    → is_empty policy.allowlist ≡ true
    → is_empty policy.disabled_tools ≡ true
    → all (λ t. is_tool_available policy t.server t.name) tools ≡ true
unfolding is_tool_available matches_allowlist
all_shown policy [] a d = refl
all_shown policy (t ∷ ts) a d =
    ground
      (arith, all_shown policy ts a d, elem_none (fq_name t.server t.name) policy.disabled_tools)
  where
    elem_none : (s : String) (xs : List String) → is_empty xs ≡ true → elem s xs ≡ false
    elem_none s [] h = refl
    elem_none s (x ∷ xs) h = cc

-- Discovery shows exactly the tools that are available under the policy, in order: the shortcut for
-- a tenant that restricts nothing returns what the comprehension would.
pub available_tools-keep :
    (policy : ToolPolicy) (tools : List CatalogTool)
    → available_tools policy tools ≡ keep (λ t. is_tool_available policy t.server t.name) tools
unfolding available_tools
available_tools-keep policy tools =
    elim (Bool-cases (is_empty policy.allowlist && is_empty policy.disabled_tools)) [
      | inl e ↦ rw e (
          sym (
            keep-eq_of_all _ tools (
              all_shown policy tools (and_left _ _ e) (and_right (is_empty policy.allowlist) _ e))))
      | inr e ↦ rw e
    ]

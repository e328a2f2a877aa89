-- ===== src/Tenant/PipPolicy/Ceiling.antt =====
-- A decision is about the intersection of the tenant's list with the operator's, and no more.
use m_gate.Prelude.{
  ==_refl, Bool, Bool-cases, List, String, [], all, ap, arith, elem, elem-sorted_set, eq_iff,
  fun_ext, inl, inr, keep, length, refl, sym, ◌&&◌, ◌+◌, ◌==◌, ◌∙◌, ◌∷◌, ◌≡◌, string_eq,
}
use m_gate.Settings.{Settings}
use m_gate.Tenant.PipPolicy.{
  classify, effective_allowlist, evaluate_requirements, global_ceiling_names, is_ok,
  normalized_names, requested_from,
}

-- Every name that is asked for lands in exactly one of the three lists.
split_in_three :
    (ceiling tenant requested names : List String)
    → let d = classify ceiling tenant requested names in
      length d.allowed + length d.blocked_by_global + length d.blocked_by_tenant ≡ length names
unfolding classify
split_in_three ceiling tenant requested [] = omega arith
split_in_three ceiling tenant requested (n ∷ names) =
    ground (arith, split_in_three ceiling tenant requested names)

requested-classify :
    (ceiling tenant requested names : List String)
    → (classify ceiling tenant requested names).requested ≡ requested
unfolding classify
requested-classify ceiling tenant requested [] = refl
requested-classify ceiling tenant requested (n ∷ names) =
    ground (arith, requested-classify ceiling tenant requested names)

elem-keep :
    (p : String → Bool) (a : String) (xs : List String) → elem a (keep p xs) ≡ (p a && elem a xs)
elem-keep p a [] = ground arith
elem-keep p a (x ∷ xs) = elim (Bool-cases (a == x)) [
  | inl e ↦
      let q : a ≡ x = (eq_iff a x).0 e in rw (← q) (ground (arith, ==_refl a, elem-keep p a xs))
  | inr e ↦ ground (arith, elem-keep p a xs)
]

elem-effective :
    (settings : Settings) (tenant : List String) (n : String)
    → elem n (effective_allowlist settings tenant)
      ≡ (elem n (global_ceiling_names settings) && elem n (normalized_names tenant))
unfolding effective_allowlist
elem-effective settings tenant n = elem-sorted_set n _ ∙ elem-keep _ n (normalized_names tenant)

ok-all :
    (ceiling tenant requested names : List String)
    → is_ok (classify ceiling tenant requested names)
      ≡ all (λ n. elem n ceiling && elem n tenant) names
unfolding is_ok classify
ok-all ceiling tenant requested [] = refl
ok-all ceiling tenant requested (n ∷ names) = ground (arith, ok-all ceiling tenant requested names)

allowed-classify :
    (ceiling tenant requested names : List String)
    → (classify ceiling tenant requested names).allowed
      ≡ keep (λ n. elem n ceiling && elem n tenant) names
unfolding classify
allowed-classify ceiling tenant requested [] = refl
allowed-classify ceiling tenant requested (n ∷ names) =
    ground (arith, allowed-classify ceiling tenant requested names)

module _ (settings : Settings) (requirements tenant : List String) where
  abbrev installable : String → Bool
  installable n = elem n (effective_allowlist settings tenant)

  abbrev curated : String → Bool
  curated n = elem n (global_ceiling_names settings) && elem n (normalized_names tenant)

  effective : installable ≡ curated
  effective = fun_ext (elem-effective settings tenant)

  -- The requirements pass exactly if each name that they ask for is on the effective allowlist, the
  -- intersection of the tenant's list with the operator's.
  pub is_ok-evaluate_requirements :
      is_ok (evaluate_requirements settings requirements tenant)
      ≡ all (λ n. elem n (effective_allowlist settings tenant)) (requested_from [] requirements)
  unfolding evaluate_requirements
  is_ok-evaluate_requirements =
      ok-all (global_ceiling_names settings) (normalized_names tenant)
        (requested_from [] requirements) (requested_from [] requirements)
      ∙ ap (λ p. all p (requested_from [] requirements)) (sym effective)

  -- The allowed names are those asked for that are on the effective allowlist, in order, and the
  -- three lists hold as many names together as were asked for.
  pub allowed-evaluate_requirements :
      let d = evaluate_requirements settings requirements tenant in
      (d.allowed ≡ keep (λ n. elem n (effective_allowlist settings tenant)) d.requested)
      × (length d.allowed + length d.blocked_by_global + length d.blocked_by_tenant
          ≡ length d.requested)
  unfolding evaluate_requirements
  allowed-evaluate_requirements =
      let names = requested_from [] requirements in
      let same =
        requested-classify (global_ceiling_names settings) (normalized_names tenant) names names in
      (
        rw same (allowed-classify _ _ _ names ∙ ap (λ p. keep p names) (sym effective)),
        rw same
            (split_in_three (global_ceiling_names settings) (normalized_names tenant) names names),
      )

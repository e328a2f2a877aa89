-- ===== src/Tenant/ToolPolicy/Curation.antt =====
-- What a setter of the policy makes available, on the process that writes.
use text.Mathlib.TextLemmas.{append-eq-nil_iff}
use m_gate.Prelude.{
  ==_refl, Bool, Bool-cases, List, Option, String, [], all, and_left, and_right, arith, elem,
  elem-add_to_set_self, elem-sorted_set, eq_iff, false, inl, inr, keep, lookup, lookup-modify, map,
  not, pull, refl, some, strip, sym, true, ℕ, ◌==◌, ◌∙◌, ◌∷◌, ◌≡◌, ◌≢◌, string_eq,
}
use m_gate.Settings.{Settings}
use m_gate.Tenant.Cache.Fresh.{read-write_through}
use m_gate.Tenant.Store.{ControlPlane, TenantDoc, cache_ttl}
use m_gate.Tenant.ToolPolicy.{
  clean_entries, enabled_update, fq_name, get_tool_policy, normalize_policy, set_tool_enabled,
  store_policy,
}

elem-keep-strip :
    (a : String) (xs : List String)
    → strip a ≡ a
    → (a == "") ≡ false
    → elem a xs ≡ true
    → elem a (keep (λ v. not (v == "")) (map strip xs)) ≡ true
elem-keep-strip a [] s e h = cc
elem-keep-strip a (x ∷ xs) s e h = elim (Bool-cases (a == x)) [
  | inl same ↦
      let p : a ≡ x = (eq_iff a x).0 same in
      let q : strip x ≡ a = rw p at s ∙ sym p in rw (q, e, ==_refl a)
  | inr other ↦
      let rest : elem a xs ≡ true = rw other at h in
      let ih = elem-keep-strip a xs s e rest in
      elim (Bool-cases (strip x == "")) [
        | inl empty ↦ rw empty ih
        | inr full ↦ rw (full, ih) (ground arith)
      ]
]

-- An entry that has no spaces round it is kept.
pub elem-clean_entries :
    (a : String) (xs : List String)
    → strip a ≡ a
    → (a == "") ≡ false
    → elem a xs ≡ true
    → elem a (clean_entries (some xs)) ≡ true
unfolding clean_entries
elem-clean_entries a xs s e h =
    elem-sorted_set a (keep (λ v. not (v == "")) (map strip xs)) ∙ elem-keep-strip a xs s e h

fq_name-ne_empty : (server name : String) → (fq_name server name == "") ≡ false
fq_name-ne_empty server name = elim (Bool-cases (fq_name server name == "")) [
  | inl e ↦
      let (_, rest) = append-eq-nil_iff.0 ((eq_iff (fq_name server name) "").0 e) in
      absurd (slash-ne-nil (append-eq-nil_iff.0 rest).0)
  | inr e ↦ e
]
  where
    slash-ne-nil : ◌≢◌ {A = String} "/" ""
    slash-ne-nil = ground (arith, eq_iff "/" "")

pulled :
    (a : String) (xs : List String)
    → all (λ x. strip x == x) xs ≡ true
    → elem a (keep (λ v. not (v == "")) (map strip (pull a xs))) ≡ false
unfolding pull
pulled a [] h = refl
pulled a (x ∷ xs) h = elim (Bool-cases (a == x)) [
  | inl same ↦ rw same (pulled a xs (and_right (strip x == x) _ h))
  | inr other ↦
      let p : strip x ≡ x = (eq_iff (strip x) x).0 (and_left (strip x == x) _ h) in
      let ih = pulled a xs (and_right (strip x == x) _ h) in
      elim (Bool-cases (x == "")) [
        | inl empty ↦ rw (other, p, empty) ih
        | inr full ↦ rw (other, p, full, other) ih
      ]
]

module _ (settings : Settings) (plane : ControlPlane) (tenant server name : String) (enabled : Bool)
    (updated_by : Option String) (wall now later : ℕ) (doc : TenantDoc)
    (found : lookup tenant plane.tenants ≡ some doc) where
  -- A read on the process that writes sees the overlay that was written.
  pub get_tool_policy-set_tool_enabled :
      (get_tool_policy settings
        (set_tool_enabled settings plane tenant server name enabled updated_by wall now).1
        tenant
        later).0
      ≡ normalize_policy (some (enabled_update (fq_name server name) enabled updated_by wall doc))
  unfolding get_tool_policy set_tool_enabled
  get_tool_policy-set_tool_enabled =
      rw (found, store_policy, lookup-modify, ==_refl tenant, found)
        (read-write_through (cache_ttl settings) now tenant
          (normalize_policy
            (some (enabled_update (fq_name server name) enabled updated_by wall doc)))
          plane.policy_cache later)

  -- Disabling takes effect on the process that writes, whatever the overlay held.
  pub disabled_after :
      enabled ≡ false
      → strip (fq_name server name) ≡ fq_name server name
      → elem
          (fq_name server name)
          (get_tool_policy settings
            (set_tool_enabled settings plane tenant server name enabled updated_by wall now).1
            tenant
            later).0.disabled_tools
        ≡ true
  unfolding normalize_policy enabled_update
  disabled_after off s =
      rw (get_tool_policy-set_tool_enabled, normalize_policy, enabled_update, off)
        (elem-clean_entries (fq_name server name) _ s (fq_name-ne_empty server name)
          (elem-add_to_set_self (fq_name server name) _))

  -- Enabling a tool of a tenant that has a document, whose disabled tools are free of spaces round
  -- them, takes the tool off the disabled tools that the process reads, at any time after.
  pub enabled_after :
      (xs : List String)
      → enabled ≡ true
      → doc.disabled_tools ≡ some xs
      → all (λ x. strip x == x) xs ≡ true
      → elem
          (fq_name server name)
          (get_tool_policy settings
            (set_tool_enabled settings plane tenant server name enabled updated_by wall now).1
            tenant
            later).0.disabled_tools
        ≡ false
  unfolding normalize_policy enabled_update clean_entries
  enabled_after xs on e s =
      rw (get_tool_policy-set_tool_enabled, normalize_policy, enabled_update, on, e)
        (elem-sorted_set (fq_name server name) _ ∙ pulled (fq_name server name) xs s)

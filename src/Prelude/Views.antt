-- ===== src/Prelude/Views.antt =====
-- The part of a collection that meets a test, and how writes elsewhere leave it.
use mathlib.Core.Path.{◌≡◌}
use mathlib.Core.Logic.{inl, inr}
use mathlib.Core.Bool.{Bool, false}
use mathlib.Core.Option.{Option, none, some}
use m_gate.Prelude.Tests.{if◌then◌else◌, Bool-cases}
use m_gate.Prelude.Equality.{Eq, ◌==◌}
use m_gate.Prelude.Maps.{
  Dict, lookup, insert, delete, modify, lookup-insert, lookup-delete, lookup-modify,
}

abbrev pub only {ℓ} : {V : Type ℓ} → (V → Bool) → Option V → Option V
only p none = none
only p (some v) = if p v then some v else none

module _ {ℓ} {K V : Type ℓ} ⦃e : Eq K⦄ (p : V → Bool) (k : K) (m : Dict K V) where
  pub only-modify :
      (f : V → V) (v : V)
      → lookup k m ≡ some v
      → p v ≡ false
      → p (f v) ≡ false
      → (j : K) → only p (lookup j (modify k f m)) ≡ only p (lookup j m)
  only-modify f v at before after j = elim (Bool-cases (k == j)) [
    | inl same ↦
        let moved : lookup j m ≡ some v = rw ((e.equals_iff k j).0 same) at at in
        rw (lookup-modify k j f m, same, moved, before, after)
    | inr other ↦ rw (lookup-modify k j f m, other)
  ]

  pub only-insert :
      (v : V)
      → lookup k m ≡ none
      → p v ≡ false
      → (j : K) → only p (lookup j (insert k v m)) ≡ only p (lookup j m)
  only-insert v at after j = elim (Bool-cases (k == j)) [
    | inl same ↦
        let moved : lookup j m ≡ none = rw ((e.equals_iff k j).0 same) at at in
        rw (lookup-insert k j v m, same, moved, after)
    | inr other ↦ rw (lookup-insert k j v m, other)
  ]

  pub only-delete :
      (v : V)
      → lookup k m ≡ some v
      → p v ≡ false
      → (j : K) → only p (lookup j (delete k m)) ≡ only p (lookup j m)
  only-delete v at before j = elim (Bool-cases (k == j)) [
    | inl same ↦
        let moved : lookup j m ≡ some v = rw ((e.equals_iff k j).0 same) at at in
        rw (lookup-delete k j m, same, moved, before)
    | inr other ↦ rw (lookup-delete k j m, other)
  ]

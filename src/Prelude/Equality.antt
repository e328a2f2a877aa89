-- ===== src/Prelude/Equality.antt =====
-- Python's `==` and `in`, for each type of keys.
use Prim.Native.Nat.{ℕ}
use Prim.Native.String.{String}
use mathlib.Core.Path.{◌≡◌, refl}
use mathlib.Core.Logic.{◌↔◌}
use mathlib.Core.Bool.{Bool, true, false, ◌&&◌, ◌||◌}
use mathlib.Core.List.{List, [], ◌∷◌, ◌++◌}
use native.Mathlib.Omega.{arith}
use text.Mathlib.Text.{◌==◌ as str_eq}
use text.Mathlib.TextEquality.{eq_iff}
use m_gate.Prelude.Tests.{nat_beq, nat_beq_iff, if◌then◌else◌}

-- A type whose values `==` compares, as a test and as a fact.
pub record Eq {ℓ} (K : Type ℓ) : Type ℓ where
  pub equals : K → K → Bool
  pub equals_iff : (x y : K) → (equals x y ≡ true) ↔ (x ≡ y)

infix 50 ◌==◌
abbrev pub ◌==◌ {ℓ} : {K : Type ℓ} ⦃k : Eq K⦄ → K → K → Bool
◌==◌ ⦃k⦄ x y = k.equals x y

module _ {ℓ κ} {A : Type ℓ} {B : Type κ} ⦃a : Eq A⦄ ⦃b : Eq B⦄ where
  abbrev pub pair_beq : A × B → A × B → Bool
  pair_beq p q = (p.0 == q.0) && (p.1 == q.1)

  pub pair_beq_iff : (p q : A × B) → (pair_beq p q ≡ true) ↔ (p ≡ q)
  pair_beq_iff (x, y) (u, v) = ground (arith, a.equals_iff x u, b.equals_iff y v)

instance abbrev pub pair_eq {ℓ κ} : {A : Type ℓ} {B : Type κ} ⦃a : Eq A⦄ ⦃b : Eq B⦄ → Eq (A × B)
pair_eq = record { equals = pair_beq; equals_iff = pair_beq_iff }

module _ {ℓ} {A : Type ℓ} ⦃e : Eq A⦄ where
  pub ==_refl : (a : A) → (a == a) ≡ true
  ==_refl a = (e.equals_iff a a).1 refl

  -- `a in xs`
  abbrev pub elem : A → List A → Bool
  elem a [] = false
  elem a (x ∷ xs) = (a == x) || elem a xs

  pub elem-append : (a : A) (xs ys : List A) → elem a (xs ++ ys) ≡ (elem a xs || elem a ys)
  elem-append a [] ys = refl
  elem-append a (x ∷ xs) ys = ground (arith, elem-append a xs ys)

  -- `{"$addToSet": a}` and `{"$pull": a}` on an array.
  unfoldable pub add_to_set : A → List A → List A
  add_to_set a xs = if elem a xs then xs else xs ++ a ∷ []

  unfoldable pub pull : A → List A → List A
  pull a [] = []
  pull a (x ∷ xs) = let rest = pull a xs in if a == x then rest else x ∷ rest

  pub elem-add_to_set_self : (a : A) (xs : List A) → elem a (add_to_set a xs) ≡ true
  unfolding add_to_set
  elem-add_to_set_self a xs = ground (arith, elem-append a xs (a ∷ []), ==_refl a)

  pub elem-pull_self : (a : A) (xs : List A) → elem a (pull a xs) ≡ false
  unfolding pull
  elem-pull_self a [] = refl
  elem-pull_self a (x ∷ xs) = ground (arith, elem-pull_self a xs)

  pub elem-pull_ne : (a b : A) (xs : List A) → (a == b) ≡ false → elem b (pull a xs) ≡ elem b xs
  unfolding pull
  elem-pull_ne a b [] h = refl
  elem-pull_ne a b (x ∷ xs) h =
      ground (arith, elem-pull_ne a b xs h, e.equals_iff a x, e.equals_iff b x, e.equals_iff a b)

instance abbrev pub string_eq : Eq String
string_eq = record { equals = str_eq; equals_iff = eq_iff }

instance abbrev pub nat_eq : Eq ℕ
nat_eq = record { equals = nat_beq; equals_iff = nat_beq_iff }

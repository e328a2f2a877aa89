-- ===== src/SandboxPool/Counts.antt =====
-- How often a worker stands in a list.
use m_gate.Prelude.{
  Bool, Bool-cases, List, [], arith, elem, false, inl, inr, length, nat_beq_iff, pull, true, ℕ,
  ◌++◌, ◌+◌, ◌==◌, ◌∷◌, ◌≡◌, ◌≤◌, string_eq, nat_eq, pair_eq,
}
use m_gate.SandboxPool.{remove_one}

abbrev pub one_if : Bool → ℕ
one_if true = 1
one_if false = 0

unfoldable pub count : ℕ → List ℕ → ℕ
count w [] = 0
count w (x ∷ xs) = one_if (w == x) + count w xs

pub count-snoc : (w x : ℕ) (xs : List ℕ) → count w (xs ++ x ∷ []) ≡ count w xs + one_if (w == x)
unfolding count
count-snoc w x [] = omega arith
count-snoc w x (y ∷ ys) = omega (arith, count-snoc w x ys)

pub count-remove_one :
    (w x : ℕ) (xs : List ℕ)
    → elem x xs ≡ true
    → count w (remove_one x xs) + one_if (w == x) ≡ count w xs
unfolding count remove_one
count-remove_one w x [] h = cc
count-remove_one w x (y ∷ ys) h = elim (Bool-cases (x == y)) [
  | inl same ↦ rw (same, (nat_beq_iff x y).0 same) (omega arith)
  | inr other ↦ rw other (omega (arith, count-remove_one w x ys (rw other at h)))
]

pub length-snoc : (x : ℕ) (xs : List ℕ) → length (xs ++ x ∷ []) ≡ length xs + 1
length-snoc x [] = omega arith
length-snoc x (y ∷ ys) = omega (arith, length-snoc x ys)

pub length-pull-le : (x : ℕ) (xs : List ℕ) → length (pull x xs) ≤ length xs
unfolding pull
length-pull-le x [] = omega arith
length-pull-le x (y ∷ ys) = ground (arith, length-pull-le x ys)

pub length-remove_one-le : (x : ℕ) (xs : List ℕ) → length (remove_one x xs) ≤ length xs
unfolding remove_one
length-remove_one-le x [] = omega arith
length-remove_one-le x (y ∷ ys) = ground (arith, length-remove_one-le x ys)

pub length-of_elem : (x : ℕ) (xs : List ℕ) → elem x xs ≡ true → 1 ≤ length xs
length-of_elem x [] h = cc
length-of_elem x (y ∷ ys) h = omega arith

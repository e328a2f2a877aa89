-- ===== src/Search/Merged.antt =====
-- Pinned and ranked tools in one answer.
use m_gate.Prelude.{
  ==_refl, Bool, Bool-cases, List, String, [], and_left, and_right, ap, arith, clamp, elem,
  elem-append, false, inl, inr, keep, length, map, max, not, pair_beq, pair_beq_iff, refl, subst,
  suc, sym, true, zero, ℕ, ℤ, ◌&&◌, ◌++◌, ◌+◌, ◌-◌, ◌∙◌, ◌∷◌, ◌≡◌, ◌≤◌, string_eq, nat_eq, pair_eq,
}
use m_gate.Catalog.{CatalogTool}
use m_gate.Search.{Hit, as_hit, fill_seats, first_of_each, key_of, merge_pinned}

abbrev pub Key : Type 0
Key = String × String

-- No key stands twice.
abbrev pub distinct : List Key → Bool
distinct [] = true
distinct (k ∷ ks) = not (elem k ks) && distinct ks

-- Equal keys are in the same lists.
same_elem : (k j : Key) (seen : List Key) → pair_beq k j ≡ true → elem k seen ≡ elem j seen
same_elem k j seen h = ap (λ i. elem i seen) ((pair_beq_iff k j).0 h)

elem-first_of_each :
    (k : Key) (seen : List Key) (ts : List CatalogTool)
    → elem k (map key_of (first_of_each seen ts)) ≡ (not (elem k seen) && elem k (map key_of ts))
unfolding first_of_each
elem-first_of_each k seen [] = ground arith
elem-first_of_each k seen (t ∷ ts) = elim (Bool-cases (elem (key_of t) seen)) [
  | inl e ↦
      rw (e, map) (ground (arith, elem-first_of_each k seen ts, same_elem k (key_of t) seen, e))
  | inr e ↦
      rw (e, map)
        (ground (arith, elem-first_of_each k (key_of t ∷ seen) ts, same_elem k (key_of t) seen, e))
]

distinct-first_of_each :
    (seen : List Key) (ts : List CatalogTool) → distinct (map key_of (first_of_each seen ts)) ≡ true
unfolding first_of_each
distinct-first_of_each seen [] = refl
distinct-first_of_each seen (t ∷ ts) = elim (Bool-cases (elem (key_of t) seen)) [
  | inl e ↦ rw (e, map, distinct) (distinct-first_of_each seen ts)
  | inr e ↦
      rw (e, map, distinct)
        (ground (
          arith,
          elem-first_of_each (key_of t) (key_of t ∷ seen) ts,
          ==_refl (key_of t),
          distinct-first_of_each (key_of t ∷ seen) ts,
        ))
]

unseen-fill_seats :
    (k : Key) (n : ℕ) (seen : List Key) (ts : List CatalogTool)
    → elem k seen ≡ true
    → elem k (map key_of (fill_seats n seen ts)) ≡ false
unfolding fill_seats
unseen-fill_seats k zero seen ts h = refl
unseen-fill_seats k (suc n) seen [] h = refl
unseen-fill_seats k (suc n) seen (t ∷ ts) h = elim (Bool-cases (elem (key_of t) seen)) [
  | inl e ↦ rw (e, map, elem) (unseen-fill_seats k (suc n) seen ts h)
  | inr e ↦
      rw (e, map, elem)
        (ground (
          arith,
          unseen-fill_seats k n (key_of t ∷ seen) ts (ground (arith, h)),
          same_elem k (key_of t) seen,
          e,
          h,
        ))
]

distinct-fill_seats :
    (n : ℕ) (seen : List Key) (ts : List CatalogTool)
    → distinct (map key_of (fill_seats n seen ts)) ≡ true
unfolding fill_seats
distinct-fill_seats zero seen ts = refl
distinct-fill_seats (suc n) seen [] = refl
distinct-fill_seats (suc n) seen (t ∷ ts) = elim (Bool-cases (elem (key_of t) seen)) [
  | inl e ↦ rw (e, map, distinct) (distinct-fill_seats (suc n) seen ts)
  | inr e ↦
      rw (e, map, distinct)
        (ground (
          arith,
          unseen-fill_seats (key_of t) n (key_of t ∷ seen) ts (ground (arith, ==_refl (key_of t))),
          distinct-fill_seats n (key_of t ∷ seen) ts,
        ))
]

length-fill_seats-le :
    (n : ℕ) (seen : List Key) (ts : List CatalogTool) → length (fill_seats n seen ts) ≤ n
unfolding fill_seats
length-fill_seats-le zero seen ts = omega arith
length-fill_seats-le (suc n) seen [] = omega arith
length-fill_seats-le (suc n) seen (t ∷ ts) = elim (Bool-cases (elem (key_of t) seen)) [
  | inl e ↦ rw (e, length) (length-fill_seats-le (suc n) seen ts)
  | inr e ↦ rw (e, length) (omega (arith, length-fill_seats-le n (key_of t ∷ seen) ts))
]

apart :
    (xs ys : List Key)
    → ((k : Key) → elem k xs ≡ true → elem k ys ≡ false)
    → distinct xs ≡ true
    → distinct ys ≡ true
    → distinct (xs ++ ys) ≡ true
apart [] ys off h k = k
apart (x ∷ xs) ys off h k =
    let rest =
      apart xs ys (λ j at. off j (ground (arith, at))) (and_right (not (elem x xs)) _ h) k in
    let here = off x (ground (arith, ==_refl x)) in
    ground (arith, elem-append x xs ys, here, rest, and_left (not (elem x xs)) _ h)

unfoldable pub keys : List Hit → List Key
keys [] = []
keys (h ∷ hs) = key_of h.tool ∷ keys hs

keys-hits :
    (pinned : Bool) (ts : List CatalogTool) (rest : List Hit)
    → keys (map (as_hit pinned) ts ++ rest) ≡ map key_of ts ++ keys rest
unfolding keys
keys-hits pinned [] rest = refl
keys-hits pinned (t ∷ ts) rest = ap (λ ks. key_of t ∷ ks) (keys-hits pinned ts rest)

keys-ranked : (ts : List CatalogTool) → keys (map (as_hit false) ts) ≡ map key_of ts
unfolding keys
keys-ranked [] = refl
keys-ranked (t ∷ ts) = ap (λ ks. key_of t ∷ ks) (keys-ranked ts)

pinned-hits :
    (ts : List CatalogTool) (rest : List CatalogTool)
    → keys (keep (λ h. h.pinned) (map (as_hit true) ts ++ map (as_hit false) rest)) ≡ map key_of ts
unfolding keys
pinned-hits [] [] = refl
pinned-hits [] (t ∷ ts) = pinned-hits [] ts
pinned-hits (t ∷ ts) rest = ap (λ ks. key_of t ∷ ks) (pinned-hits ts rest)

length-hits :
    (pinned : Bool) (ts : List CatalogTool) (rest : List Hit)
    → length (map (as_hit pinned) ts ++ rest) ≡ length ts + length rest
length-hits pinned [] rest = omega arith
length-hits pinned (t ∷ ts) rest = omega (arith, length-hits pinned ts rest)

length-ranked : (ts : List CatalogTool) → length (map (as_hit false) ts) ≡ length ts
length-ranked [] = refl
length-ranked (t ∷ ts) = omega (arith, length-ranked ts)

length-first_of_each-le :
    (seen : List Key) (ts : List CatalogTool) → length (first_of_each seen ts) ≤ length ts
unfolding first_of_each
length-first_of_each-le seen [] = omega arith
length-first_of_each-le seen (t ∷ ts) = elim (Bool-cases (elem (key_of t) seen)) [
  | inl e ↦ rw (e, length) (omega (arith, length-first_of_each-le seen ts))
  | inr e ↦ rw (e, length) (omega (arith, length-first_of_each-le (key_of t ∷ seen) ts))
]

-- An answer with pinned tools shows each tool once; a tool is tagged in it exactly if it is one of
-- the pinned; and it has at most as many tools as the limit says, or as are pinned if they are more.
pub merge_pinned-keys :
    (pinned ranked : List CatalogTool) (limit : ℤ) (key : Key)
    → let answer = merge_pinned pinned ranked limit in
      (distinct (keys answer) ≡ true)
      × (elem key (keys (keep (λ h. h.pinned) answer)) ≡ elem key (map key_of pinned))
      × length answer ≤ max (clamp limit) (length pinned)
unfolding merge_pinned
merge_pinned-keys pinned ranked limit key =
    let first = first_of_each [] pinned in
    let rest = fill_seats (clamp limit - length first) (map key_of first) ranked in
    (
      subst (λ ks. distinct ks ≡ true)
          (sym (
            keys-hits true first (map (as_hit false) rest)
            ∙ ap (λ ks. map key_of first ++ ks) (keys-ranked rest)))
          (apart (map key_of first) (map key_of rest)
            (λ k at. unseen-fill_seats k _ (map key_of first) ranked at)
            (distinct-first_of_each [] pinned) (distinct-fill_seats _ (map key_of first) ranked)),
      ap (elem key) (pinned-hits first rest) ∙ elem-first_of_each key [] pinned,
      ground (
        arith,
        length-hits true first (map (as_hit false) rest),
        length-ranked rest,
        length-fill_seats-le (clamp limit - length first) (map key_of first) ranked,
        length-first_of_each-le [] pinned,
      ),
    )

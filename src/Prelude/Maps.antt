-- ===== src/Prelude/Maps.antt =====
-- A `dict`, or a collection with a unique key, as an association list.
use mathlib.Core.Path.{◌≡◌, refl, sym, subst, ◌∙◌}
use mathlib.Core.Logic.{inl, inr}
use mathlib.Core.Option.{Option, none, some}
use mathlib.Core.List.{List, [], ◌∷◌}
use native.Mathlib.Omega.{arith}
use mathlib.Core.Bool.{Bool, true}
use m_gate.Prelude.Tests.{if◌then◌else◌, Bool-cases, Option-cases}
use m_gate.Prelude.Equality.{Eq, ◌==◌}

abbrev pub Dict {ℓ} : Type ℓ → Type ℓ → Type ℓ
Dict K V = List (K × V)

abbrev pub map_option {ℓ} : {A B : Type ℓ} → (A → B) → Option A → Option B
map_option f none = none
map_option f (some a) = some (f a)

module _ {ℓ} {K V : Type ℓ} ⦃e : Eq K⦄ where
  unfoldable pub lookup : K → Dict K V → Option V
  lookup key [] = none
  lookup key ((k, found) ∷ rest) = if k == key then some found else lookup key rest

  -- `d[key] = new`
  unfoldable pub insert : K → V → Dict K V → Dict K V
  insert key new [] = (key, new) ∷ []
  insert key new ((k, old) ∷ rest) =
      if k == key then (key, new) ∷ rest else (k, old) ∷ insert key new rest

  -- `d.pop(k, None)`
  unfoldable pub delete : K → Dict K V → Dict K V
  delete k [] = []
  delete k ((j, v) ∷ m) = let rest = delete k m in if j == k then rest else (j, v) ∷ rest

  -- `update_one({key: k}, ...)` with no upsert
  unfoldable pub modify : K → (V → V) → Dict K V → Dict K V
  modify k f [] = []
  modify k f ((j, v) ∷ m) = if j == k then (j, f v) ∷ m else (j, v) ∷ modify k f m

  -- `find_one_and_update({key: k}, ..., return_document=True)`
  abbrev pub find_and_modify : K → (V → V) → Dict K V → Option V × Dict K V
  find_and_modify k f m = (map_option f (lookup k m), modify k f m)

  abbrev update_found : K → (V → Bool) → (V → V) → Dict K V → Option V → Option V × Dict K V
  update_found k matches f m none = (none, m)
  update_found k matches f m (some v) = if matches v then (some (f v), modify k f m) else (none, m)

  -- `find_one_and_update({key: k, ...}, ..., return_document=AFTER)`, where the key is unique and
  -- the rest of the filter is `matches`.
  abbrev pub find_one_and_update : K → (V → Bool) → (V → V) → Dict K V → Option V × Dict K V
  find_one_and_update k matches f m = update_found k matches f m (lookup k m)

  pub lookup-insert :
      (key other : K) (new : V) (d : Dict K V)
      → lookup other (insert key new d) ≡ (if key == other then some new else lookup other d)
  unfolding lookup insert
  lookup-insert key other new [] = refl
  lookup-insert key other new ((k, old) ∷ rest) = ground (
    arith,
    lookup-insert key other new rest,
    e.equals_iff k other,
    e.equals_iff k key,
    e.equals_iff key other,
  )

  pub lookup-delete :
      (k j : K) (m : Dict K V) → lookup j (delete k m) ≡ (if k == j then none else lookup j m)
  unfolding lookup delete
  lookup-delete k j [] = ground arith
  lookup-delete k j ((i, w) ∷ m) =
      ground (arith, e.equals_iff k j, e.equals_iff i k, e.equals_iff i j, lookup-delete k j m)

  pub lookup-modify :
      (k j : K) (f : V → V) (m : Dict K V)
      → lookup j (modify k f m) ≡ (if k == j then map_option f (lookup j m) else lookup j m)
  unfolding lookup modify
  lookup-modify k j f [] = ground arith
  lookup-modify k j f ((i, w) ∷ m) =
      ground (arith, e.equals_iff k j, e.equals_iff i k, e.equals_iff i j, lookup-modify k j f m)

-- What holds of each value of a collection.
module _ {ℓ} {K V : Type ℓ} ⦃e : Eq K⦄ (P : V → Type ℓ) where
  abbrev pub Everywhere : Dict K V → Type ℓ
  Everywhere m = (k : K) (v : V) → lookup k m ≡ some v → P v

  pub Everywhere-nil : Everywhere []
  unfolding lookup
  Everywhere-nil k v found = cc

  pub Everywhere-insert :
      (k : K) (v : V) (m : Dict K V) → P v → Everywhere m → Everywhere (insert k v m)
  Everywhere-insert k v m p h j w found = elim (Bool-cases (k == j)) [
    | inl same ↦
        let now : lookup j (insert k v m) ≡ some v = rw (lookup-insert k j v m, same) in
        let q : v ≡ w = cc in subst P q p
    | inr other ↦
        let kept : lookup j (insert k v m) ≡ lookup j m = rw (lookup-insert k j v m, other) in
        h j w (sym kept ∙ found)
  ]

  Everywhere-modify :
      (k : K) (f : V → V) (v : V) (m : Dict K V)
      → lookup k m ≡ some v
      → P (f v)
      → Everywhere m
      → Everywhere (modify k f m)
  Everywhere-modify k f v m at p h j w found = elim (Bool-cases (k == j)) [
    | inl same ↦
        let moved : lookup j m ≡ some v = rw ((e.equals_iff k j).0 same) at at in
        let now : lookup j (modify k f m) ≡ some (f v) = rw (lookup-modify k j f m, same, moved) in
        let q : f v ≡ w = cc in subst P q p
    | inr other ↦
        let kept : lookup j (modify k f m) ≡ lookup j m = rw (lookup-modify k j f m, other) in
        h j w (sym kept ∙ found)
  ]

  -- An update may rely on its filter.
  pub Everywhere-find_one_and_update :
      (k : K) (matches : V → Bool) (f : V → V) (m : Dict K V)
      → ((v : V) → P v → matches v ≡ true → P (f v))
      → Everywhere m
      → Everywhere (find_one_and_update k matches f m).1
  Everywhere-find_one_and_update k matches f m keep h = elim (Option-cases (lookup k m)) [
    | inl e ↦ rw (e, update_found) h
    | inr (v, e) ↦ elim (Bool-cases (matches v)) [
      | inl good ↦
          rw (e, update_found, good) (Everywhere-modify k f v m e (keep v (h k v e) good) h)
      | inr bad ↦ rw (e, update_found, bad) h
    ]
  ]

pub ruleset dict_laws = (lookup-insert, lookup-delete, lookup-modify)

-- ===== src/Rpc/Gate.antt =====
-- The steps of a handler: each may end it early, with a response or an exception, and changes the
-- world.
use m_gate.Prelude.{Bool, Result, ap, err, false, inl, inr, ok, refl, subst, ◌≡◌, ◌⊎◌}

abbrev pub Gate : Type 0 → Type 0 → Type 0 → Type 0
Gate S X A = S → Result X A × S

abbrev pub continue : {S X A B : Type 0} → Result X A × S → (A → Gate S X B) → Result X B × S
continue (ok a, w) f = f a w
continue (err e, w) f = (err e, w)

infixl 4 ◌>>>◌
unfoldable pub ◌>>>◌ : {S X A B : Type 0} → Gate S X A → (A → Gate S X B) → Gate S X B
(m >>> f) w = continue (m w) f

continue-ok :
    {S X A B : Type 0} (r : Result X A × S) (f : A → Gate S X B) {b : B} {w' : S}
    → continue r f ≡ (ok b, w')
    → (a : A) × (v : S) × (r ≡ (ok a, v)) × (f a v ≡ (ok b, w'))
continue-ok (ok a, v) f h = (a, v, refl, h)
continue-ok (err e, v) f h = cc

-- A sequence that succeeds has two parts that do.
pub >>>-ok :
    {S X A B : Type 0} (m : Gate S X A) (f : A → Gate S X B) (w : S) {b : B} {w' : S}
    → (m >>> f) w ≡ (ok b, w')
    → (a : A) × (v : S) × (m w ≡ (ok a, v)) × (f a v ≡ (ok b, w'))
unfolding ◌>>>◌
>>>-ok m f w h = continue-ok (m w) f h

-- A step that keeps a property of the world, however it ends.
abbrev pub Keeps : {S X A : Type 0} → (S → Type 0) → Gate S X A → Type 0
Keeps P m = (w : _) → P w → P (m w).1

pub >>>-Keeps :
    {S X A B : Type 0} (P : S → Type 0) (m : Gate S X A) (f : A → Gate S X B)
    → Keeps P m
    → ((a : A) → Keeps P (f a))
    → Keeps P (m >>> f)
unfolding ◌>>>◌
>>>-Keeps {S} {X} {A} {B} P m f keeps_m keeps_f w p = after (m w) (keeps_m w p)
  where
    after : (r : Result X A × S) → P r.1 → P (continue r f).1
    after (ok a, v) q = keeps_f a v q
    after (err e, v) q = q

pub kept :
    {S X A : Type 0} (P : S → Type 0) (m : Gate S X A) (w : S) {r : Result X A} {v : S}
    → Keeps P m
    → P w
    → m w ≡ (r, v)
    → P v
kept P m w keeps p e = subst (λ r. P r.1) e (keeps w p)

-- How a step ended.
pub ended : {S X A : Type 0} {p : Result X A × S} {r : Result X A} {v : S} → p ≡ (r, v) → p.0 ≡ r
ended e = ap (λ p. p.0) e

-- How a step may end the handler.
abbrev pub ends : {X A : Type 0} → (X → Bool) → Result X A → Bool
ends Q (ok a) = false
ends Q (err e) = Q e

-- A step that never ends the handler in one of the ways `Q`.
abbrev pub Never : {S X A : Type 0} → (X → Bool) → Gate S X A → Type 0
Never Q m = (w : _) → ends Q (m w).0 ≡ false

pub >>>-Never :
    {S X A B : Type 0} (Q : X → Bool) (m : Gate S X A) (f : A → Gate S X B)
    → Never Q m
    → ((a : A) → Never Q (f a))
    → Never Q (m >>> f)
unfolding ◌>>>◌
>>>-Never {S} {X} {A} {B} Q m f never_m never_f w = after (m w) (never_m w)
  where
    after : (r : Result X A × S) → ends Q r.0 ≡ false → ends Q (continue r f).0 ≡ false
    after (ok a, v) q = never_f a v
    after (err e, v) q = q

-- A sequence either ends with its first part or goes on with the second.
pub >>>-cases :
    {S X A B : Type 0} (m : Gate S X A) (f : A → Gate S X B) (w : S)
    → ((e : X) × (v : S) × (m w ≡ (err e, v)) × ((m >>> f) w ≡ (err e, v)))
      ⊎ ((a : A) × (v : S) × (m w ≡ (ok a, v)) × ((m >>> f) w ≡ f a v))
unfolding ◌>>>◌
>>>-cases {S} {X} {A} {B} m f w = split (m w)
  where
    split :
        (r : Result X A × S)
        → ((e : X) × (v : S) × (r ≡ (err e, v)) × (continue r f ≡ (err e, v)))
          ⊎ ((a : A) × (v : S) × (r ≡ (ok a, v)) × (continue r f ≡ f a v))
    split (ok a, v) = inr (a, v, refl, refl)
    split (err e, v) = inl (e, v, refl, refl)

pub pure-eq :
    {S X A : Type 0} {a b : A} {w v : S}
    → ◌≡◌ {A = Result X A × S} (ok a, w) (ok b, v)
    → (a ≡ b) × (w ≡ v)
pure-eq {S} {X} {A} {a} {b} {w} {v} h = (cc, ap (λ p. p.1) h)

pub >>>-go :
    {S X A B : Type 0} (m : Gate S X A) (f : A → Gate S X B) (w : S) {a : A} {v : S}
    → m w ≡ (ok a, v)
    → (m >>> f) w ≡ f a v
unfolding ◌>>>◌
>>>-go m f w e = ap (λ r. continue r f) e

pub >>>-stop :
    {S X A B : Type 0} (m : Gate S X A) (f : A → Gate S X B) (w : S) {e : X} {v : S}
    → m w ≡ (err e, v)
    → (m >>> f) w ≡ (err e, v)
unfolding ◌>>>◌
>>>-stop m f w e = ap (λ r. continue r f) e

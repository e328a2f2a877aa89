-- ===== src/Guardrails/Luhn.antt =====
-- services/guardrails.py: the check digit by which a number is taken for that of a payment card.
-- Digits are the ASCII ones.
use Prim.Native.String
use Prim.Native.String.append
use Prim.Native.Char.{Char, code}
use m_gate.Prelude.{
  Bool, List, String, [], ap, arith, false, if◌then◌else◌, leb, length, length-append, ltb, suc,
  true, ℕ, ◌%◌, ◌&&◌, ◌*◌, ◌++◌, ◌+◌, ◌-◌, ◌<◌, ◌==◌, ◌||◌, ◌∷◌, ◌≡◌, ◌≢◌, string_eq, nat_eq,
  pair_eq,
}

-- `[int(ch) for ch in card_number if ch.isdigit()]`
unfoldable pub digits_of : String → List ℕ
digits_of String.[] = []
digits_of (String.◌∷◌ c s) =
    let rest = digits_of s in
    if leb b'0' (code c) && leb (code c) b'9' then (code c - b'0') ∷ rest else rest

-- What one digit adds, by its position.
unfoldable pub luhn_term : ℕ → ℕ → ℕ → ℕ
luhn_term parity idx digit =
    if idx % 2 == parity then (if ltb 9 (digit * 2) then digit * 2 - 9 else digit * 2) else digit

-- The loop, from a position on.
unfoldable pub luhn_sum : ℕ → ℕ → List ℕ → ℕ
unfolding luhn_term
luhn_sum parity idx [] = 0
luhn_sum parity idx (digit ∷ digits) = luhn_term parity idx digit + luhn_sum parity (suc idx) digits

unfoldable pub luhn_valid : List ℕ → Bool
unfolding luhn_sum
luhn_valid digits =
    if ltb (length digits) 13 || ltb 19 (length digits)
    then false
    else luhn_sum (length digits % 2) 0 digits % 10 == 0

unfoldable pub luhn_checksum_is_valid : String → Bool
unfolding digits_of luhn_valid
luhn_checksum_is_valid card_number = luhn_valid (digits_of card_number)

plus_zero : (i : ℕ) → i + 0 ≡ i
plus_zero i = omega arith

luhn_sum-append :
    (parity idx : ℕ) (xs ys : List ℕ)
    → luhn_sum parity idx (xs ++ ys) ≡ luhn_sum parity idx xs + luhn_sum parity (idx + length xs) ys
unfolding luhn_sum
luhn_sum-append parity idx [] ys = omega (arith, ap (λ i. luhn_sum parity i ys) (plus_zero idx))
luhn_sum-append parity idx (x ∷ xs) ys = omega (
  arith,
  luhn_sum-append parity (suc idx) xs ys,
  ap (λ i. luhn_sum parity i ys) (moved idx (length xs)),
)
  where
    moved : (i n : ℕ) → suc i + n ≡ i + suc n
    moved i n = omega arith

-- Different digits add different terms, and none above 9.
term-injective :
    (parity idx d e : ℕ)
    → d < 10
    → e < 10
    → d ≢ e
    → (luhn_term parity idx d ≢ luhn_term parity idx e)
      × (luhn_term parity idx d < 10)
      × (luhn_term parity idx e < 10)
unfolding luhn_term
term-injective parity idx d e hd he ne = ((λ same. ground arith), ground arith, ground arith)

sums_differ :
    (before d e after : ℕ)
    → d ≢ e
    → d < 10
    → e < 10
    → (before + (d + after)) % 10 ≡ 0
    → ((before + (e + after)) % 10 == 0) ≡ false
sums_differ before d e after ne hd he h = ground arith

valid-parts :
    (digits : List ℕ)
    → luhn_valid digits ≡ true
    → ((ltb (length digits) 13 || ltb 19 (length digits)) ≡ false)
      × (luhn_sum (length digits % 2) 0 digits % 10 ≡ 0)
unfolding luhn_valid
valid-parts digits h = ground arith

-- Changing any one digit of a number that passes the check makes it fail.
pub luhn_valid-one_digit :
    (xs ys : List ℕ) (d e : ℕ)
    → d < 10
    → e < 10
    → d ≢ e
    → luhn_valid (xs ++ d ∷ ys) ≡ true
    → luhn_valid (xs ++ e ∷ ys) ≡ false
unfolding luhn_valid luhn_sum
luhn_valid-one_digit xs ys d e hd he ne h =
    let (sized, sum) = valid-parts (xs ++ d ∷ ys) h in
    let same : length (xs ++ e ∷ ys) ≡ length (xs ++ d ∷ ys) =
      omega (arith, length-append xs (d ∷ ys), length-append xs (e ∷ ys)) in
    let parity = length (xs ++ d ∷ ys) % 2 in
    let (terms, small_d, small_e) = term-injective parity (0 + length xs) d e hd he ne in
    rw (same, sized, luhn_sum-append parity 0 xs (e ∷ ys))
      (sums_differ (luhn_sum parity 0 xs) (luhn_term parity (0 + length xs) d)
        (luhn_term parity (0 + length xs) e) (luhn_sum parity (suc (0 + length xs)) ys) terms
        small_d small_e (rw (luhn_sum-append parity 0 xs (d ∷ ys)) at sum))

digits_of-append : (a b : String) → digits_of (String.◌++◌ a b) ≡ digits_of a ++ digits_of b
unfolding digits_of
digits_of-append String.[] b = rw (append.nil b)
digits_of-append (String.◌∷◌ c a) b = rw (append.cons c a b) (ground (arith, digits_of-append a b))

-- The code of a digit.
abbrev pub is_digit : ℕ → Bool
is_digit c = leb b'0' c && leb c b'9'

digits_of-digit :
    (c : Char) (b : String)
    → is_digit (code c) ≡ true
    → digits_of (String.◌∷◌ c b) ≡ (code c - b'0') ∷ digits_of b
unfolding digits_of
digits_of-digit c b h = rw h

-- A number that passes the check, with any one digit changed to another, does not pass it.
pub luhn_checksum-one_digit :
    (a b : String) (c d : Char)
    → is_digit (code c) ≡ true
    → is_digit (code d) ≡ true
    → code c ≢ code d
    → luhn_checksum_is_valid (String.◌++◌ a (String.◌∷◌ c b)) ≡ true
    → luhn_checksum_is_valid (String.◌++◌ a (String.◌∷◌ d b)) ≡ false
unfolding luhn_checksum_is_valid
luhn_checksum-one_digit a b c d hc hd ne h =
    rw (digits_of-append a (String.◌∷◌ d b), digits_of-digit d b hd)
      (luhn_valid-one_digit (digits_of a) (digits_of b) (code c - b'0') (code d - b'0')
        (ground arith) (ground arith) (λ same. ne (ground arith))
        (rw (digits_of-append a (String.◌∷◌ c b), digits_of-digit c b hc) at h))

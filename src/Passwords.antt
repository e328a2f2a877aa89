-- ===== src/Passwords.antt =====
-- services/passwords.py: how a password is stored and compared. PBKDF2 and the random salt are
-- parameters; a byte is a number.
pub mod Roundtrip
use Prim.Native.String
use Prim.Native.Char.{Char, code}
use m_gate.Prelude.{
  Bool, List, Option, String, [], concat, false, if◌then◌else◌, is_space, leb, length, map_option,
  nat_beq, none, not, some, strip, suc, true, zero, ℕ, ◌%◌, ◌&&◌, ◌*◌, ◌+◌, ◌-◌, ◌/◌, ◌==◌, ◌∷◌,
  string_eq, nat_eq, pair_eq,
}

-- `pbkdf2_hmac("sha256", password, salt, iterations, dklen)`, and the salt that is drawn when a
-- password is hashed.
pub record Crypto : Type 0 where
  pub pbkdf2_hmac : String → List ℕ → ℕ → ℕ → List ℕ
  pub token_bytes : String → List ℕ

abbrev hex_digits : String
hex_digits = "0123456789abcdef"

unfoldable pub hex_digit : ℕ → Char
hex_digit n = String.char_at hex_digits n

-- `bytes.hex()`
unfoldable pub hex : List ℕ → String
hex [] = ""
hex (b ∷ bs) = String.◌∷◌ (hex_digit (b / 16)) (String.◌∷◌ (hex_digit (b % 16)) (hex bs))

abbrev pub algorithm : String
algorithm = "pbkdf2_sha256"

unfoldable pub encoded : Crypto → String → String
unfolding hex
encoded crypto password =
    let salt = crypto.token_bytes password in
    concat (
      algorithm
      ∷ "$"
      ∷ "600000"
      ∷ "$"
      ∷ hex salt
      ∷ "$"
      ∷ hex (crypto.pbkdf2_hmac password salt 600000 32)
      ∷ [])

abbrev pub push : Char → List String → List String
push c [] = String.◌∷◌ c "" ∷ []
push c (w ∷ ws) = String.◌∷◌ c w ∷ ws

-- `encoded.split("$")`
unfoldable pub split_dollar : String → List String
split_dollar String.[] = "" ∷ []
split_dollar (String.◌∷◌ c s) =
    let rest = split_dollar s in if nat_beq (code c) b'$' then "" ∷ rest else push c rest

unfoldable pub digit_value : Char → Option ℕ
digit_value c =
    if leb b'0' (code c) && leb (code c) b'9'
    then some (code c - b'0')
    else if leb b'a' (code c) && leb (code c) b'f'
    then some (code c - b'a' + 10)
    else if leb b'A' (code c) && leb (code c) b'F'
    then some (code c - b'A' + 10)
    else none

abbrev pub byte_then : ℕ → Option (List ℕ) → Option (List ℕ)
byte_then b rest = map_option (λ bs. b ∷ bs) rest

-- `bytes.fromhex`, which skips white space before a byte; the first argument is a digit that waits
-- for the second one of its byte.
unfoldable pub from_hex : Option ℕ → String → Option (List ℕ)
unfolding digit_value is_space
from_hex none String.[] = some []
from_hex (some high) String.[] = none
from_hex none (String.◌∷◌ c s) =
    let skipped = from_hex none s in
    if is_space c
    then skipped
    else elim (digit_value c) [ none ↦ none | some high ↦ from_hex (some high) s ]
from_hex (some high) (String.◌∷◌ c s) = elim (digit_value c) [
  | none ↦ none
  | some low ↦ byte_then (high * 16 + low) (from_hex none s)
]

-- Digits, with single underscores between them.
unfoldable pub numeral : ℕ → Bool → String → Option ℕ
numeral n after_digit String.[] = if after_digit then some n else none
numeral n after_digit (String.◌∷◌ c s) =
    if leb b'0' (code c) && leb (code c) b'9'
    then numeral (n * 10 + (code c - b'0')) true s
    else if nat_beq (code c) b'_' && after_digit
    then numeral n false s
    else none

abbrev pub signed : String → Option ℕ
unfolding numeral
signed String.[] = none
signed (String.◌∷◌ c s) =
    if nat_beq (code c) b'-'
    then map_option (λ n. 0) (numeral 0 false s)
    else if nat_beq (code c) b'+'
    then numeral 0 false s
    else numeral 0 false (String.◌∷◌ c s)

-- `int(iterations_raw)`, where a negative number is read as 0: neither is accepted.
unfoldable pub int_of : String → Option ℕ
unfolding signed strip
int_of raw = signed (strip raw)

abbrev pub same_bytes : List ℕ → List ℕ → Bool
same_bytes [] [] = true
same_bytes (a ∷ xs) (b ∷ ys) = nat_beq a b && same_bytes xs ys
same_bytes xs ys = false

abbrev pub compare_with : Crypto → String → ℕ → Option (List ℕ) → Option (List ℕ) → Bool
compare_with crypto password zero salt expected = false
compare_with crypto password (suc n) (some salt) (some expected) =
    same_bytes (crypto.pbkdf2_hmac password salt (suc n) (length expected)) expected
compare_with crypto password (suc n) salt expected = false

abbrev pub verify_parts : Crypto → String → List String → Bool
unfolding int_of from_hex
verify_parts crypto password (algorithm_name ∷ iterations_raw ∷ salt_hex ∷ derived_hex ∷ []) =
    if not (algorithm_name == algorithm) then false else elim (int_of iterations_raw) [
      | none ↦ false
      | some n ↦ compare_with crypto password n (from_hex none salt_hex) (from_hex none derived_hex)
    ]
verify_parts crypto password parts = false

unfoldable pub verify_password : Crypto → String → String → Bool
unfolding verify_parts split_dollar
verify_password crypto password stored =
    if password == "" then false else verify_parts crypto password (split_dollar stored)

-- ===== src/Passwords/Roundtrip.antt =====
-- A password is accepted against what was stored for it.
use Prim.Native.String
use Prim.Native.String.append
use Prim.Native.Char.{Char, code}
use m_gate.Prelude.{
  Bool, List, String, [], all, and_left, and_right, ap, arith, false, is_space, length, ltb,
  nat_beq, none, not, refl, some, suc, true, zero, ℕ, ◌%◌, ◌&&◌, ◌*◌, ◌+◌, ◌/◌, ◌<◌, ◌==◌, ◌∙◌, ◌∷◌,
  ◌≡◌, string_eq, nat_eq, pair_eq,
}
use m_gate.Passwords.{
  Crypto, algorithm, byte_then, compare_with, digit_value, encoded, from_hex, hex, hex_digit,
  same_bytes, split_dollar, verify_parts, verify_password,
}

digit_value-hex_digit : (n : ℕ) → n < 16 → digit_value (hex_digit n) ≡ some n
unfolding digit_value hex_digit
digit_value-hex_digit zero h = refl
digit_value-hex_digit (suc zero) h = refl
digit_value-hex_digit (suc (suc zero)) h = refl
digit_value-hex_digit (suc (suc (suc zero))) h = refl
digit_value-hex_digit (suc (suc (suc (suc zero)))) h = refl
digit_value-hex_digit (suc (suc (suc (suc (suc zero))))) h = refl
digit_value-hex_digit (suc (suc (suc (suc (suc (suc zero)))))) h = refl
digit_value-hex_digit (suc (suc (suc (suc (suc (suc (suc zero))))))) h = refl
digit_value-hex_digit (suc (suc (suc (suc (suc (suc (suc (suc zero)))))))) h = refl
digit_value-hex_digit (suc (suc (suc (suc (suc (suc (suc (suc (suc zero))))))))) h = refl
digit_value-hex_digit (suc (suc (suc (suc (suc (suc (suc (suc (suc (suc zero)))))))))) h = refl
digit_value-hex_digit (suc (suc (suc (suc (suc (suc (suc (suc (suc (suc (suc zero))))))))))) h =
    refl
digit_value-hex_digit (suc (suc (suc (suc (suc (suc (suc (suc (suc (suc (suc (suc zero))))))))))))
      h =
    refl
digit_value-hex_digit
      (suc (suc (suc (suc (suc (suc (suc (suc (suc (suc (suc (suc (suc zero))))))))))))) h =
    refl
digit_value-hex_digit
      (suc (suc (suc (suc (suc (suc (suc (suc (suc (suc (suc (suc (suc (suc zero)))))))))))))) h =
    refl
digit_value-hex_digit
      (suc (suc (suc (suc (suc (suc (suc (suc (suc (suc (suc (suc (suc (suc (suc zero)))))))))))))))
      h =
    refl
digit_value-hex_digit n h = absurd (omega (arith, h))

-- A digit is no white space, and no `$`.
hex_digit-plain :
    (n : ℕ)
    → n < 16
    → (is_space (hex_digit n) ≡ false) × (nat_beq (code (hex_digit n)) b'$' ≡ false)
unfolding hex_digit is_space
hex_digit-plain zero h = (refl, refl)
hex_digit-plain (suc zero) h = (refl, refl)
hex_digit-plain (suc (suc zero)) h = (refl, refl)
hex_digit-plain (suc (suc (suc zero))) h = (refl, refl)
hex_digit-plain (suc (suc (suc (suc zero)))) h = (refl, refl)
hex_digit-plain (suc (suc (suc (suc (suc zero))))) h = (refl, refl)
hex_digit-plain (suc (suc (suc (suc (suc (suc zero)))))) h = (refl, refl)
hex_digit-plain (suc (suc (suc (suc (suc (suc (suc zero))))))) h = (refl, refl)
hex_digit-plain (suc (suc (suc (suc (suc (suc (suc (suc zero)))))))) h = (refl, refl)
hex_digit-plain (suc (suc (suc (suc (suc (suc (suc (suc (suc zero))))))))) h = (refl, refl)
hex_digit-plain (suc (suc (suc (suc (suc (suc (suc (suc (suc (suc zero)))))))))) h = (refl, refl)
hex_digit-plain (suc (suc (suc (suc (suc (suc (suc (suc (suc (suc (suc zero))))))))))) h =
    (refl, refl)
hex_digit-plain (suc (suc (suc (suc (suc (suc (suc (suc (suc (suc (suc (suc zero)))))))))))) h =
    (refl, refl)
hex_digit-plain (suc (suc (suc (suc (suc (suc (suc (suc (suc (suc (suc (suc (suc zero)))))))))))))
      h =
    (refl, refl)
hex_digit-plain
      (suc (suc (suc (suc (suc (suc (suc (suc (suc (suc (suc (suc (suc (suc zero)))))))))))))) h =
    (refl, refl)
hex_digit-plain
      (suc (suc (suc (suc (suc (suc (suc (suc (suc (suc (suc (suc (suc (suc (suc zero)))))))))))))))
      h =
    (refl, refl)
hex_digit-plain n h = absurd (omega (arith, h))

abbrev pub are_bytes : List ℕ → Bool
are_bytes bs = all (λ b. ltb b 256) bs

halves : (b : ℕ) → ltb b 256 ≡ true → (b / 16 < 16) × (b % 16 < 16) × (b / 16 * 16 + b % 16 ≡ b)
halves b h = (ground arith, omega arith, omega arith)

from_hex-low :
    (high low : ℕ) (c : Char) (s : String)
    → digit_value c ≡ some low
    → from_hex (some high) (String.◌∷◌ c s) ≡ byte_then (high * 16 + low) (from_hex none s)
unfolding from_hex
from_hex-low high low c s e = rw (from_hex, e) refl

from_hex-high :
    (high : ℕ) (c : Char) (s : String)
    → is_space c ≡ false
    → digit_value c ≡ some high
    → from_hex none (String.◌∷◌ c s) ≡ from_hex (some high) s
unfolding from_hex
from_hex-high high c s plain e = rw (from_hex, plain, e) refl

from_hex-hex : (bs : List ℕ) → are_bytes bs ≡ true → from_hex none (hex bs) ≡ some bs
unfolding from_hex hex
from_hex-hex [] h = refl
from_hex-hex (b ∷ bs) h =
    let (high, low, joined) = halves b (and_left _ _ h) in
    from_hex-high (b / 16) (hex_digit (b / 16)) (String.◌∷◌ (hex_digit (b % 16)) (hex bs))
      (hex_digit-plain (b / 16) high).0 (digit_value-hex_digit (b / 16) high)
    ∙ from_hex-low (b / 16) (b % 16) (hex_digit (b % 16)) (hex bs)
        (digit_value-hex_digit (b % 16) low)
    ∙ ap (byte_then (b / 16 * 16 + b % 16)) (from_hex-hex bs (and_right (ltb b 256) _ h))
    ∙ ap (λ k. some (k ∷ bs)) joined

no_dollar : String → Bool
no_dollar String.[] = true
no_dollar (String.◌∷◌ c s) = not (nat_beq (code c) b'$') && no_dollar s

no_dollar-hex : (bs : List ℕ) → are_bytes bs ≡ true → no_dollar (hex bs) ≡ true
unfolding no_dollar hex
no_dollar-hex [] h = refl
no_dollar-hex (b ∷ bs) h =
    let (high, low, joined) = halves b (and_left _ _ h) in
    rw
      (
        (hex_digit-plain (b / 16) high).1,
        (hex_digit-plain (b % 16) low).1,
        no_dollar-hex bs (and_right (ltb b 256) _ h),
      )
      refl

off_of_not : (b : Bool) → not b ≡ true → b ≡ false
off_of_not b h = ground arith

split-plain : (w : String) → no_dollar w ≡ true → split_dollar w ≡ w ∷ []
unfolding split_dollar no_dollar
split-plain String.[] h = refl
split-plain (String.◌∷◌ c w) h =
    rw
      (
        off_of_not (nat_beq (code c) b'$') (and_left _ _ h),
        split-plain w (and_right (not (nat_beq (code c) b'$')) _ h),
      )
      refl

split-dollar : (r : String) → split_dollar (String.◌++◌ "$" r) ≡ "" ∷ split_dollar r
unfolding split_dollar
split-dollar r = ap split_dollar (append.cons "$" "" r ∙ ap (String.◌∷◌ "$") (append.nil r))

split-append :
    (w r : String)
    → no_dollar w ≡ true
    → split_dollar (String.◌++◌ w (String.◌++◌ "$" r)) ≡ w ∷ split_dollar r
unfolding split_dollar no_dollar
split-append String.[] r h = ap split_dollar (append.nil (String.◌++◌ "$" r)) ∙ split-dollar r
split-append (String.◌∷◌ c w) r h =
    rw
      (
        append.cons c w (String.◌++◌ "$" r),
        off_of_not (nat_beq (code c) b'$') (and_left _ _ h),
        split-append w r (and_right (not (nat_beq (code c) b'$')) _ h),
      )
      refl

same_bytes_refl : (bs : List ℕ) → same_bytes bs bs ≡ true
same_bytes_refl [] = refl
same_bytes_refl (b ∷ bs) = ground (arith, same_bytes_refl bs)

-- The salt and what PBKDF2 gives are bytes, and as many as were asked for. Then a password is
-- accepted against what is stored for it.
pub verify_password-encoded :
    (crypto : Crypto) (password : String)
    → (password == "") ≡ false
    → are_bytes (crypto.token_bytes password) ≡ true
    → ((n dklen : ℕ)
        → are_bytes (crypto.pbkdf2_hmac password (crypto.token_bytes password) n dklen) ≡ true)
    → ((n dklen : ℕ)
        → length (crypto.pbkdf2_hmac password (crypto.token_bytes password) n dklen) ≡ dklen)
    → verify_password crypto password (encoded crypto password) ≡ true
unfolding verify_password encoded verify_parts no_dollar
verify_password-encoded crypto password nonempty salt_bytes derived_bytes sized =
    let salt = crypto.token_bytes password in
    let derived = crypto.pbkdf2_hmac password salt 600000 32 in
    let last = String.◌++◌ (hex salt) (String.◌++◌ "$" (hex derived)) in
    let parts : split_dollar (encoded crypto password)
        ≡ algorithm ∷ "600000" ∷ hex salt ∷ hex derived ∷ [] =
      split-append algorithm (String.◌++◌ "600000" (String.◌++◌ "$" last)) refl
      ∙ ap (λ ps. algorithm ∷ ps)
          (split-append "600000" last refl
            ∙ ap (λ ps. "600000" ∷ ps)
                (split-append (hex salt) (hex derived) (no_dollar-hex salt salt_bytes)
                  ∙ ap (λ ps. hex salt ∷ ps)
                      (split-plain (hex derived)
                        (no_dollar-hex derived (derived_bytes 600000 32))))) in
    rw nonempty (
      ap (verify_parts crypto password) parts
      ∙ ap (λ s. compare_with crypto password 600000 s (from_hex none (hex derived)))
          (from_hex-hex salt salt_bytes)
      ∙ ap (compare_with crypto password 600000 (some salt))
          (from_hex-hex derived (derived_bytes 600000 32))
      ∙ ap (λ n. same_bytes (crypto.pbkdf2_hmac password salt 600000 n) derived) (sized 600000 32)
      ∙ same_bytes_refl derived)

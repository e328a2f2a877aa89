-- ===== src/Users/SignIn.antt =====
-- An account that was created can sign in.
use m_gate.Prelude.{
  ==_refl, Bool-cases, Option, String, [], ap, inl, inr, insert, length, lookup, none, ok, refl,
  some, subst, sym, true, ℕ, ◌==◌, ◌∙◌, ◌∷◌, ◌≡◌, string_eq, nat_eq, pair_eq,
}
use m_gate.Passwords.{Crypto, verify_password}
use m_gate.Passwords.Roundtrip.{are_bytes, verify_password-encoded}
use m_gate.RateLimit.{hit}
use m_gate.Users.{
  Draft, PublicUser, User, Users, authenticate, create_user, find_by_email, find_user_by_email,
  new_user, normalize_email, public_user, status_of,
}
use m_gate.Users.Writes.{create_user-ok}

find_by_email-insert :
    (email id : String) (doc : User) (users : Users)
    → lookup id users ≡ none
    → find_by_email email users ≡ none
    → (doc.email == email) ≡ true
    → find_by_email email (insert id doc users) ≡ some (id, doc)
unfolding find_by_email lookup insert
find_by_email-insert email id doc [] fresh unused same = rw same refl
find_by_email-insert email id doc ((k, found) ∷ rest) fresh unused same =
    elim (Bool-cases (found.email == email)) [
      | inl hit ↦
          let bad : ◌≡◌ {A = Option (String × User)} (some (k, found)) none = rw hit at unused in cc
      | inr miss ↦ elim (Bool-cases (k == id)) [
        | inl here ↦ let bad : ◌≡◌ {A = Option User} (some found) none = rw here at fresh in cc
        | inr there ↦
            rw (there, find_by_email, miss)
              (find_by_email-insert email id doc rest (rw there at fresh) (rw miss at unused) same)
      ]
    ]

signed_in :
    (crypto : Crypto) (email password id : String) (users : Users) (doc : User)
    → find_by_email (normalize_email email) users ≡ some (id, doc)
    → (status_of doc == "active") ≡ true
    → verify_password crypto password doc.password_hash ≡ true
    → authenticate crypto email password users ≡ some (public_user id doc)
unfolding authenticate find_user_by_email
signed_in crypto email password id users doc found active right =
    rw (authenticate, found, active, right) refl

-- An account was created with the status active. What PBKDF2 and the salt give for its password are
-- bytes, as many as are asked for. Then the address, in any spelling that normalizes to it, and the
-- password sign in as this user.
pub authenticate-create_user :
    (crypto : Crypto) (id : String) (draft : Draft) (wall : ℕ) (users after : Users)
    (user : PublicUser)
    → create_user crypto id draft wall users ≡ ok (user, after)
    → draft.status ≡ "active"
    → are_bytes (crypto.token_bytes draft.password) ≡ true
    → ((n dklen : ℕ)
        → are_bytes (crypto.pbkdf2_hmac draft.password (crypto.token_bytes draft.password) n dklen)
          ≡ true)
    → ((n dklen : ℕ)
        → length (crypto.pbkdf2_hmac draft.password (crypto.token_bytes draft.password) n dklen)
          ≡ dklen)
    → authenticate crypto draft.email draft.password after ≡ some user
unfolding new_user
authenticate-create_user crypto id draft wall users after user h active salt derived sized =
    let c = create_user-ok crypto id draft wall users after user h in
    let doc = new_user c.hash draft wall in
    let found : find_by_email (normalize_email draft.email) after ≡ some (id, doc) =
      subst (λ us. find_by_email (normalize_email draft.email) us ≡ some (id, doc)) (sym c.stored)
        (find_by_email-insert (normalize_email draft.email) id doc users c.fresh c.unused
          (==_refl (normalize_email draft.email))) in
    let right : verify_password crypto draft.password c.hash ≡ true =
      subst (λ s. verify_password crypto draft.password s ≡ true) (sym c.hashed_from)
        (verify_password-encoded crypto draft.password c.given_password salt derived sized) in
    signed_in crypto draft.email draft.password id after doc found (rw active refl) right
    ∙ ap some (sym c.shown)

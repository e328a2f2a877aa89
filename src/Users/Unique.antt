-- ===== src/Users/Unique.antt =====
-- An address belongs to one account.
use m_gate.Prelude.{
  Bool-cases, List, Option, Option-cases, Result, Result-cases, String, [], ap, delete, eq_iff, err,
  false, inl, inr, insert, lookup, lookup-delete, lookup-insert, lookup-modify, map_option, modify,
  none, ok, refl, some, some_inj, subst, sym, true, ℕ, ◌==◌, ◌∙◌, ◌∷◌, ◌≡◌, string_eq, nat_eq,
  pair_eq,
}
use m_gate.Passwords.{Crypto}
use m_gate.RateLimit.{hit}
use m_gate.Users.{
  Draft, Patch, PublicUser, User, UserError, Users, create_user, delete_user, find_by_email,
  new_user, normalize_email, update_user,
}
use m_gate.Users.Writes.{create_user-ok, update_user-ok}

-- A call of the service that writes users.
pub data Write : Type 0 where
  create : String → Draft → ℕ → Write
  update : String → Patch → ℕ → Write
  remove : String → Write

abbrev pub kept_or : Users → Result UserError (PublicUser × Users) → Users
kept_or users (err e) = users
kept_or users (ok (user, written)) = written

module _ (crypto : Crypto) where
  unfoldable pub write : Write → Users → Users
  unfolding create_user update_user delete_user
  write (create id draft wall) users = kept_or users (create_user crypto id draft wall users)
  write (update id patch wall) users = kept_or users (update_user crypto id patch wall users)
  write (remove id) users = (delete_user id users []).1

  unfoldable pub writes : List Write → Users → Users
  unfolding write
  writes [] users = users
  writes (w ∷ ws) users = writes ws (write w users)

-- Two documents with one address are one.
abbrev pub UniqueEmails : Users → Type 0
UniqueEmails users =
    (i j : String) (u v : User)
    → lookup i users ≡ some u
    → lookup j users ≡ some v
    → u.email ≡ v.email
    → i ≡ j

find_by_email-none :
    (email id : String) (users : Users) (doc : User)
    → find_by_email email users ≡ none
    → lookup id users ≡ some doc
    → (doc.email == email) ≡ false
unfolding find_by_email lookup
find_by_email-none email id [] doc h at = cc
find_by_email-none email id ((k, found) ∷ rest) doc h at =
    elim (Bool-cases (found.email == email)) [
      | inl hit ↦
          let bad : ◌≡◌ {A = Option (String × User)} (some (k, found)) none = rw hit at h in cc
      | inr miss ↦ elim (Bool-cases (k == id)) [
        | inl here ↦
            let same : found ≡ doc = some_inj (rw here at at) in
            subst (λ d. (d.email == email) ≡ false) same miss
        | inr there ↦ find_by_email-none email id rest doc (rw miss at h) (rw there at at)
      ]
    ]

-- Every document of the new collection has an old one with its address.
renamed :
    (f : User → User) (id j : String) (users : Users) (doc : User)
    → ((d : User) → (f d).email ≡ d.email)
    → lookup j (modify id f users) ≡ some doc
    → (old : User) × (lookup j users ≡ some old) × (old.email ≡ doc.email)
renamed f id j users doc same h = elim (Bool-cases (id == j)) [
  | inl here ↦
      let moved : map_option f (lookup j users) ≡ some doc =
        rw (lookup-modify id j f users, here) at h in
      elim (Option-cases (lookup j users)) [
        | inl e ↦ let bad : none ≡ some doc = rw e at moved in cc
        | inr (old, e) ↦
            let it : f old ≡ doc = some_inj (rw e at moved) in
            (old, e, sym (same old) ∙ ap (λ d. d.email) it)
      ]
  | inr there ↦ (doc, rw (lookup-modify id j f users, there) at h, refl)
]

remaining :
    (id j : String) (users : Users) (doc : User)
    → lookup j (delete id users) ≡ some doc
    → lookup j users ≡ some doc
remaining id j users doc h = elim (Bool-cases (id == j)) [
  | inl here ↦ let bad : none ≡ some doc = rw (lookup-delete id j users, here) at h in cc
  | inr there ↦ rw (lookup-delete id j users, there) at h
]

-- A document with an address that no other has.
added :
    (id : String) (doc : User) (users : Users)
    → find_by_email doc.email users ≡ none
    → UniqueEmails users
    → UniqueEmails (insert id doc users)
added id doc users free unique i j u v at_i at_j same = elim (Bool-cases (id == i)) [
  | inl new_i ↦ elim (Bool-cases (id == j)) [
    | inl new_j ↦ sym ((eq_iff id i).0 new_i) ∙ (eq_iff id j).0 new_j
    | inr old_j ↦
        let mine : doc ≡ u = some_inj (rw (lookup-insert id i doc users, new_i) at at_i) in
        let other : (v.email == doc.email) ≡ false =
          find_by_email-none doc.email j users v free
            (rw (lookup-insert id j doc users, old_j) at at_j) in
        let equal : (v.email == doc.email) ≡ true =
          (eq_iff v.email doc.email).1 (sym same ∙ sym (ap (λ d. d.email) mine)) in
        cc
  ]
  | inr old_i ↦ elim (Bool-cases (id == j)) [
    | inl new_j ↦
        let mine : doc ≡ v = some_inj (rw (lookup-insert id j doc users, new_j) at at_j) in
        let other : (u.email == doc.email) ≡ false =
          find_by_email-none doc.email i users u free
            (rw (lookup-insert id i doc users, old_i) at at_i) in
        let equal : (u.email == doc.email) ≡ true =
          (eq_iff u.email doc.email).1 (same ∙ sym (ap (λ d. d.email) mine)) in
        cc
    | inr old_j ↦
        unique i j u v (rw (lookup-insert id i doc users, old_i) at at_i)
          (rw (lookup-insert id j doc users, old_j) at at_j) same
  ]
]

created_email :
    (hash : String) (draft : Draft) (wall : ℕ) (users : Users)
    → find_by_email (normalize_email draft.email) users ≡ none
    → find_by_email (new_user hash draft wall).email users ≡ none
unfolding new_user
created_email hash draft wall users h = h

module _ (crypto : Crypto) where
  write-UniqueEmails :
      (w : Write) (users : Users) → UniqueEmails users → UniqueEmails (write crypto w users)
  unfolding write
  write-UniqueEmails (create id draft wall) users unique =
      elim (Result-cases (create_user crypto id draft wall users)) [
        | inl (e, failed) ↦ rw failed unique
        | inr ((user, written), made) ↦
            let c = create_user-ok crypto id draft wall users written user made in
            rw (made, c.stored)
              (added id (new_user c.hash draft wall) users
                (created_email c.hash draft wall users c.unused) unique)
      ]
  write-UniqueEmails (update id patch wall) users unique =
      elim (Result-cases (update_user crypto id patch wall users)) [
        | inl (e, failed) ↦ rw failed unique
        | inr ((user, written), made) ↦
            let c = update_user-ok crypto id patch wall users written user made in
            rw (made, c.stored)
              (λ i j u v at_i at_j same.
                let (old_u, found_u, same_u) = renamed _ id i users u (λ d. refl) at_i in
                let (old_v, found_v, same_v) = renamed _ id j users v (λ d. refl) at_j in
                unique i j old_u old_v found_u found_v (same_u ∙ same ∙ sym same_v))
      ]
  write-UniqueEmails (remove id) users unique = elim (Option-cases (lookup id users)) [
    | inl e ↦ rw (e, write, delete_user) unique
    | inr (doc, e) ↦
        rw (e, write, delete_user)
          (λ i j u v at_i at_j same.
            unique i j u v (remaining id i users u at_i) (remaining id j users v at_j) same)
  ]

  -- Whatever calls of the service write users, successful or not, no two accounts come to share an
  -- address, if none did.
  pub writes-UniqueEmails :
      (ws : List Write) (users : Users) → UniqueEmails users → UniqueEmails (writes crypto ws users)
  unfolding writes
  writes-UniqueEmails [] users unique = unique
  writes-UniqueEmails (w ∷ ws) users unique =
      writes-UniqueEmails ws (write crypto w users) (write-UniqueEmails w users unique)

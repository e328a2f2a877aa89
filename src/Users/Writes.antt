-- ===== src/Users/Writes.antt =====
-- What a write of a user that succeeds has found, and what it leaves.
use m_gate.Prelude.{
  Bool-cases, Option, Option-cases, Result, Result-cases, String, ap, err, false, find_and_modify,
  inl, inr, insert, lookup, modify, none, ok, refl, some, sym, ℕ, ◌==◌, ◌>>=◌, ◌≡◌, string_eq,
  nat_eq, pair_eq,
}
use m_gate.Passwords.{Crypto, encoded}
use m_gate.Users.{
  Draft, Patch, PublicUser, User, UserError, Users, create_user, duplicate_key, email_required,
  empty_password, find_by_email, hash_password, insert_one, new_hash, new_user, normalize_email,
  public_user, reread, update_user, updated, user_already_exists, user_not_found,
}

module _ (crypto : Crypto) where
  -- A user that was created: its id and its address were free.
  pub record IsCreated (id : String) (draft : Draft) (wall : ℕ) (users : Users) (user : PublicUser)
      (users' : Users) : Type 0 where
    pub hash : String
    pub hashed_from : hash ≡ encoded crypto draft.password
    pub given_password : (draft.password == "") ≡ false
    pub fresh : lookup id users ≡ none
    pub unused : find_by_email (normalize_email draft.email) users ≡ none
    pub shown : user ≡ public_user id (new_user hash draft wall)
    pub stored : users' ≡ insert id (new_user hash draft wall) users

  insert_one-ok :
      (id : String) (doc : User) (users users' : Users) (user : PublicUser)
      → insert_one id doc users ≡ ok (user, users')
      → (lookup id users ≡ none) × (user ≡ public_user id doc) × (users' ≡ insert id doc users)
  unfolding insert_one
  insert_one-ok id doc users users' user h = elim (Option-cases (lookup id users)) [
    | inl e ↦
        let same : ◌≡◌ {A = Result UserError (PublicUser × Users)}
            (ok (public_user id doc, insert id doc users)) (ok (user, users')) =
          rw (e, insert_one) at h in
        let pair : ◌≡◌ {A = PublicUser × Users} (public_user id doc, insert id doc users)
            (user, users') =
          cc in
        (e, sym (ap (λ q. q.0) pair), sym (ap (λ q. q.1) pair))
    | inr (old, e) ↦
        let bad : ◌≡◌ {A = Result UserError (PublicUser × Users)} (err duplicate_key)
            (ok (user, users')) =
          rw (e, insert_one) at h in
        cc
  ]

  hashed :
      (password : String) (k : String → Result UserError (PublicUser × Users))
      {r : PublicUser × Users}
      → (hash_password crypto password >>= k) ≡ ok r
      → k (encoded crypto password) ≡ ok r
  unfolding hash_password
  hashed password k h = elim (Bool-cases (password == "")) [
    | inl e ↦
        let bad : ◌≡◌ {A = Result UserError (PublicUser × Users)} (err empty_password) (ok _) =
          rw e at h in
        cc
    | inr e ↦ rw e at h
  ]

  hashed_nonempty :
      (password : String) (k : String → Result UserError (PublicUser × Users))
      {r : PublicUser × Users}
      → (hash_password crypto password >>= k) ≡ ok r
      → (password == "") ≡ false
  unfolding hash_password
  hashed_nonempty password k h = elim (Bool-cases (password == "")) [
    | inl e ↦
        let bad : ◌≡◌ {A = Result UserError (PublicUser × Users)} (err empty_password) (ok _) =
          rw e at h in
        cc
    | inr e ↦ e
  ]

  pub create_user-ok :
      (id : String) (draft : Draft) (wall : ℕ) (users users' : Users) (user : PublicUser)
      → create_user crypto id draft wall users ≡ ok (user, users')
      → IsCreated id draft wall users user users'
  unfolding create_user
  create_user-ok id draft wall users users' user h =
      elim (Bool-cases (normalize_email draft.email == "")) [
        | inl blank ↦
            let bad : ◌≡◌ {A = Result UserError (PublicUser × Users)} (err email_required)
                (ok (user, users')) =
              rw blank at h in
            cc
        | inr given_email ↦
            elim (Option-cases (find_by_email (normalize_email draft.email) users)) [
              | inl free ↦
                  let wrote =
                    insert_one-ok id (new_user (encoded crypto draft.password) draft wall) users
                      users' user (hashed draft.password _ (rw (given_email, free) at h)) in
                  record {
                    hash = encoded crypto draft.password;
                    hashed_from = refl;
                    given_password = hashed_nonempty draft.password _ (rw (given_email, free) at h);
                    fresh = wrote.0;
                    unused = free;
                    shown = wrote.1;
                    stored = wrote.2;
                  }
              | inr (existing, e) ↦
                  let bad : ◌≡◌ {A = Result UserError (PublicUser × Users)}
                      (err user_already_exists) (ok (user, users')) =
                    rw (given_email, e) at h in
                  cc
            ]
      ]

  -- A user that was updated.
  pub record IsUpdated (id : String) (patch : Patch) (wall : ℕ) (users : Users) (user : PublicUser)
      (users' : Users) : Type 0 where
    pub hash : Option String
    pub doc : User
    pub found : lookup id users ≡ some doc
    pub shown : user ≡ public_user id (updated hash patch wall doc)
    pub stored : users' ≡ modify id (updated hash patch wall) users

  reread-ok :
      (id : String) (patch : Patch) (hash : Option String) (wall : ℕ) (users users' : Users)
      (user : PublicUser)
      → reread id (find_and_modify id (updated hash patch wall) users) ≡ ok (user, users')
      → IsUpdated id patch wall users user users'
  unfolding reread
  reread-ok id patch hash wall users users' user h = elim (Option-cases (lookup id users)) [
    | inl e ↦
        let bad : ◌≡◌ {A = Result UserError (PublicUser × Users)} (err user_not_found)
            (ok (user, users')) =
          rw e at h in
        cc
    | inr (doc, e) ↦
        let same : ◌≡◌ {A = Result UserError (PublicUser × Users)}
            (ok (
              public_user id (updated hash patch wall doc),
              modify id (updated hash patch wall) users,
            ))
            (ok (user, users')) =
          rw e at h in
        let pair : ◌≡◌ {A = PublicUser × Users}
            (
              public_user id (updated hash patch wall doc),
              modify id (updated hash patch wall) users,
            )
            (user, users') =
          cc in
        record {
          hash = hash;
          doc = doc;
          found = e;
          shown = sym (ap (λ q. q.0) pair);
          stored = sym (ap (λ q. q.1) pair);
        }
  ]

  pub update_user-ok :
      (id : String) (patch : Patch) (wall : ℕ) (users users' : Users) (user : PublicUser)
      → update_user crypto id patch wall users ≡ ok (user, users')
      → IsUpdated id patch wall users user users'
  unfolding update_user
  update_user-ok id patch wall users users' user h =
      elim (Result-cases (new_hash crypto patch.password)) [
        | inl (e, failed) ↦
            let bad : ◌≡◌ {A = Result UserError (PublicUser × Users)} (err e) (ok (user, users')) =
              rw failed at h in
            cc
        | inr (hash, done) ↦ reread-ok id patch hash wall users users' user (rw done at h)
      ]

-- ===== src/Console/Confinement.antt =====
-- What an admin of one tenant cannot touch.
use m_gate.Prelude.{
  Bool, Bool-cases, String, arith, delete, elem, eq_iff, false, inl, inr, insert, lookup,
  lookup-delete, lookup-insert, none, not, only, pair_beq, refl, some, some_inj, subst, true, ◌==◌,
  ◌||◌, ◌∙◌, ◌≡◌, string_eq, nat_eq, pair_eq,
}
use m_gate.Rbac.{Session, session_roles}
use m_gate.Settings.{Settings}
use m_gate.Users.{PublicUser, Sessions, User, Users, clear_session_context, sync_session_context}

module _ (settings : Settings) (tenant : String) where
  -- A user of another tenant, or with the role of the platform's admins.
  abbrev pub sealed : User → Bool
  sealed doc = not (doc.tenant_id == tenant) || elem settings.platform_admin_role doc.roles

  -- A mirrored session that gives the role of the platform's admins.
  abbrev pub grants : Session → Bool
  grants session = elem settings.platform_admin_role (session_roles (some session))

  -- What changes from one state of the users and the sessions to another.
  pub record IsConfined (before after : Users × Sessions) : Type 0 where
    -- No sealed user appears, disappears or changes.
    pub users : (id : String) → only sealed (lookup id after.0) ≡ only sealed (lookup id before.0)
    pub others :
        (other user : String)
        → (other == tenant) ≡ false
        → lookup (other, user) after.1 ≡ lookup (other, user) before.1
    pub gained :
        (owner user : String) (session : Session)
        → lookup (owner, user) after.1 ≡ some session
        → grants session ≡ true
        → lookup (owner, user) before.1 ≡ some session

  pub IsConfined-refl : (dir : Users × Sessions) → IsConfined dir dir
  IsConfined-refl dir = record {
    users = λ id. refl;
    others = λ o u n. refl;
    gained = λ o u s h g. h;
  }

  pub IsConfined-trans :
      (a b c : Users × Sessions) → IsConfined a b → IsConfined b c → IsConfined a c
  IsConfined-trans a b c p q = record {
    users = λ id. q.users id ∙ p.users id;
    others = λ o u n. q.others o u n ∙ p.others o u n;
    gained = λ o u s h g. p.gained o u s (q.gained o u s h g) g;
  }

  away :
      (owner other email user : String)
      → owner ≡ tenant
      → (other == tenant) ≡ false
      → pair_beq (owner, email) (other, user) ≡ false
  away owner other email user own n = ground (arith, eq_iff owner other, eq_iff other tenant)

  gained-insert :
      (key other : String × String) (new session : Session) (sessions : Sessions)
      → grants new ≡ false
      → lookup other (insert key new sessions) ≡ some session
      → grants session ≡ true
      → lookup other sessions ≡ some session
  gained-insert key other new session sessions plain h g = elim (Bool-cases (pair_beq key other)) [
    | inl same ↦
        let now : some new ≡ some session = rw (lookup-insert key other new sessions, same) at h in
        let bad : grants session ≡ false = subst (λ s. grants s ≡ false) (some_inj now) plain in cc
    | inr other_key ↦ rw (lookup-insert key other new sessions, other_key) at h
  ]

  gained-delete :
      (key other : String × String) (session : Session) (sessions : Sessions)
      → lookup other (delete key sessions) ≡ some session
      → lookup other sessions ≡ some session
  gained-delete key other session sessions h = elim (Bool-cases (pair_beq key other)) [
    | inl same ↦
        let now : none ≡ some session = rw (lookup-delete key other sessions, same) at h in cc
    | inr other_key ↦ rw (lookup-delete key other sessions, other_key) at h
  ]

  -- The mirror of a user of the tenant who is no admin of the platform.
  pub synced :
      (user : PublicUser) (sessions : Sessions) (old users : Users)
      → user.tenant_id ≡ tenant
      → elem settings.platform_admin_role user.roles ≡ false
      → ((id : String) → only sealed (lookup id users) ≡ only sealed (lookup id old))
      → IsConfined (old, sessions) (users, sync_session_context user sessions)
  unfolding sync_session_context
  synced user sessions old users own plain same =
      elim (Bool-cases ((user.tenant_id == "") || (user.email == ""))) [
        | inl e ↦ rw e (record { users = same; others = λ o u n. refl; gained = λ o u s h g. h })
        | inr e ↦ rw e (record {
          users = same;
          others = λ o u n. rw (lookup-insert, away user.tenant_id o user.email u own n);
          gained =
              λ o u s h g. gained-insert (user.tenant_id, user.email) (o, u) _ s sessions plain h g;
        })
      ]

  -- The session of a user of the tenant goes.
  pub cleared :
      (owner email : String) (sessions : Sessions) (old users : Users)
      → owner ≡ tenant
      → ((id : String) → only sealed (lookup id users) ≡ only sealed (lookup id old))
      → IsConfined (old, sessions) (users, clear_session_context owner email sessions)
  unfolding clear_session_context
  cleared owner email sessions old users own same =
      elim (Bool-cases ((owner == "") || (email == ""))) [
        | inl e ↦ rw e (record { users = same; others = λ o u n. refl; gained = λ o u s h g. h })
        | inr e ↦ rw e (record {
          users = same;
          others = λ o u n. rw (lookup-delete, away owner o email u own n);
          gained = λ o u s h g. gained-delete (owner, email) (o, u) s sessions h;
        })
      ]

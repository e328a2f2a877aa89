-- ===== src/Console/Steps.antt =====
-- What the guards of the console let a local caller do, and what a write then does.
use m_gate.Prelude.{
  Bool, Bool-cases, List, Option, Option-cases, Result, String, and_left, ap, arith, elem, eq_iff,
  err, false, inl, inr, lookup, not, ok, only-insert, or_default, refl, some, subst, true, ℕ, ◌&&◌,
  ◌==◌, ◌>>=◌, ◌∙◌, ◌≡◌, string_eq, nat_eq, pair_eq,
}
use m_gate.Console.{
  AdminError, Caller, Directory, assert_can_assign_roles, is_platform_admin, load_managed_user,
  may_manage, mirror, no_such_user, resolve_target_tenant,
}
use m_gate.Console.Confinement.{IsConfined, IsConfined-refl, sealed, synced}
use m_gate.Passwords.{Crypto}
use m_gate.Settings.{Settings}
use m_gate.Users.{
  Draft, PublicUser, Sessions, User, UserError, Users, new_user, public_user, sync_session_context,
}
use m_gate.Users.Writes.{IsCreated}

module _ (settings : Settings) (tenant : String) where
  -- The caller is of the tenant, and no admin of the platform.
  abbrev pub is_local : Caller → Bool
  is_local caller = (caller.tenant_id == tenant) && not (is_platform_admin settings caller)

  pub mirror-IsConfined :
      (status : UserError → AdminError) (r : Result UserError (PublicUser × Users))
      (dir : Directory)
      → ((user : PublicUser) (users : Users)
          → r ≡ ok (user, users)
          → IsConfined settings tenant
              (dir.users, dir.sessions)
              (users, sync_session_context user dir.sessions))
      → IsConfined settings tenant
          (dir.users, dir.sessions)
          ((mirror status r dir).1.users, (mirror status r dir).1.sessions)
  unfolding mirror
  mirror-IsConfined status (err e) dir h = IsConfined-refl settings tenant (dir.users, dir.sessions)
  mirror-IsConfined status (ok (user, users)) dir h = h user users refl

  pub plain_sealed :
      (doc : User)
      → doc.tenant_id ≡ tenant
      → elem settings.platform_admin_role doc.roles ≡ false
      → sealed settings tenant doc ≡ false
  plain_sealed doc own plain = ground (arith, eq_iff doc.tenant_id tenant)

  pub created-IsConfined :
      (crypto : Crypto) (id : String) (draft : Draft) (wall : ℕ) (users users' : Users)
      (sessions : Sessions) (user : PublicUser)
      → draft.tenant_id ≡ tenant
      → elem settings.platform_admin_role draft.roles ≡ false
      → IsCreated crypto id draft wall users user users'
      → IsConfined settings tenant (users, sessions) (users', sync_session_context user sessions)
  unfolding public_user new_user
  created-IsConfined crypto id draft wall users users' sessions user own plain c =
      synced settings tenant user sessions users users' (rw c.shown own) (rw c.shown plain) (λ j.
        rw c.stored (
          only-insert (sealed settings tenant) id users (new_user c.hash draft wall) c.fresh
            (plain_sealed (new_user c.hash draft wall) own plain) j))

  -- What the guards of a local caller let through.
  pub target-local :
      (caller : Caller) (requested : Option String) (target : String)
      → is_local caller ≡ true
      → resolve_target_tenant settings caller requested ≡ ok target
      → target ≡ tenant
  unfolding resolve_target_tenant
  target-local caller requested target local h = ground (
    arith,
    eq_iff (or_default requested (or_default caller.header_tenant caller.tenant_id))
        caller.tenant_id,
    eq_iff caller.tenant_id tenant,
  )

  managed :
      (caller : Caller) (found doc : User)
      → is_local caller ≡ true
      → may_manage settings caller found ≡ ok doc
      → (found ≡ doc)
        × (doc.tenant_id ≡ tenant)
        × (elem settings.platform_admin_role doc.roles ≡ false)
  unfolding may_manage is_platform_admin
  managed caller found doc local h = elim (Bool-cases (found.tenant_id == caller.tenant_id)) [
    | inl own ↦ elim (Bool-cases (elem settings.platform_admin_role found.roles)) [
      | inl high ↦ ground arith
      | inr plain ↦
          let ordinary : elem settings.platform_admin_role caller.roles ≡ false = ground arith in
          let it : ◌≡◌ {A = Result AdminError User} (ok found) (ok doc) =
            rw (ordinary, own, plain) at h in
          let same : found ≡ doc = cc in
          let home : caller.tenant_id ≡ tenant =
            (eq_iff caller.tenant_id tenant).0 (and_left (caller.tenant_id == tenant) _ local) in
          (
            same,
            subst (λ d. d.tenant_id ≡ tenant) same
                ((eq_iff found.tenant_id caller.tenant_id).0 own ∙ home),
            subst (λ d. elem settings.platform_admin_role d.roles ≡ false) same plain,
          )
    ]
    | inr other ↦ ground arith
  ]

  pub managed-local :
      (caller : Caller) (id : String) (users : Users) (doc : User)
      → is_local caller ≡ true
      → load_managed_user settings caller id users ≡ ok doc
      → (lookup id users ≡ some doc)
        × (doc.tenant_id ≡ tenant)
        × (elem settings.platform_admin_role doc.roles ≡ false)
  unfolding load_managed_user
  managed-local caller id users doc local h = elim (Option-cases (lookup id users)) [
    | inl e ↦
        let bad : ◌≡◌ {A = Result AdminError User} (err no_such_user) (ok doc) =
          rw (e, load_managed_user) at h in
        cc
    | inr (found, e) ↦
        let passed : may_manage settings caller found ≡ ok doc = rw (e, load_managed_user) at h in
        let (same, own, plain) = managed caller found doc local passed in
        (e ∙ ap some same, own, plain)
  ]

  pub assignable-plain :
      (caller : Caller) (roles : List String)
      → is_local caller ≡ true
      → assert_can_assign_roles settings caller roles ≡ ok tt
      → elem settings.platform_admin_role roles ≡ false
  unfolding assert_can_assign_roles
  assignable-plain caller roles local h = ground arith

  pub last-ok :
      (first second : Result AdminError (Unit {0})) {a : Unit {0}}
      → (first >>= λ _. second) ≡ ok a
      → second ≡ ok a
  last-ok (ok a) second h = h
  last-ok (err e) second h = cc

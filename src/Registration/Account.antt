-- ===== src/Registration/Account.antt =====
-- What a sign-up leaves behind, whether it succeeds or fails.
use m_gate.Prelude.{
  ==_refl, Bool-cases, Dict, Option, Option-cases, Result, Result-cases, String, add_to_set, ap,
  arith, clamp, concat, err, inl, inr, lookup, lookup-insert, lower, none, ok, pos, refl, some,
  strip, subst, sym, true, ℕ, [], ◌<◌, ◌>>=◌, ◌∷◌, ◌≡◌, ◌⊎◌, string_eq, nat_eq, pair_eq,
}
use text.Mathlib.TextLemmas.{append_cancel_left}
use m_gate.Passwords.{Crypto}
use m_gate.Registration.{
  Gateway, Registered, RegistrationError, SignUp, email_taken, enforce_beta_cap,
  enforce_ip_throttle, finish, open_account, provision_account, provisioning_failed,
  register_self_service_user, registration_disabled, registration_error, self_registered_count,
  self_registration_actor, self_service_roles, sign_up_draft, upsert_tenant, validate_credentials,
  with_tenants,
}
use m_gate.Settings.{Settings}
use m_gate.Tenant.Status.{status_active}
use m_gate.Tenant.Store.{ControlPlane, TenantDoc, blank_doc}
use m_gate.Tenant.Tier.{
  InvalidConfirmation, confirmation_unconfirmed, get_tenant_confirmation, normalize_confirmation,
  set_tenant_confirmation, tier_caps,
}
use m_gate.Tenant.Tier.Caps.{get_tenant_confirmation-set, normalized, set_tenant_confirmation_lem}
use m_gate.Usage.{get_effective_quota, set_quota}
use m_gate.Usage.Counting.{get_effective_quota-set_quota}
use m_gate.Users.{PublicUser, User, Users, create_user, find_user_by_email, new_user}
use m_gate.Users.Writes.{IsCreated, create_user-ok}

upserted :
    (tenant : String) (wall : ℕ) (tenants : Dict String TenantDoc)
    → (doc : TenantDoc) × (lookup tenant (upsert_tenant tenant wall tenants) ≡ some doc)
unfolding upsert_tenant
upserted tenant wall tenants = elim (Option-cases (lookup tenant tenants)) [
  | inl e ↦ (
    record blank_doc { status = some status_active; updated_at = wall },
    rw (e, upsert_tenant, lookup-insert, ==_refl tenant),
  )
  | inr (doc, e) ↦
      (record doc { updated_at = wall }, rw (e, upsert_tenant, lookup-insert, ==_refl tenant))
]

module _ (settings : Settings) (crypto : Crypto) (s : SignUp) where
  -- The prefix of the settings with the random part of this sign-up.
  abbrev tenant : String
  tenant = concat (settings.self_registration_tenant_prefix ∷ s.suffix ∷ [])

  -- The account that a sign-up has opened, in a tenant of its own.
  pub record IsOpened (users : Users) (after : Gateway) : Type 0 where
    pub doc : User
    pub stored : lookup s.user_id after.directory.users ≡ some doc
    pub plain : doc.roles ≡ self_service_roles
    pub own : doc.tenant_id ≡ tenant
    pub apart :
        (other : String)
        → doc.tenant_id ≡ concat (settings.self_registration_tenant_prefix ∷ other ∷ [])
        → other ≡ s.suffix
    pub unused : lookup s.user_id users ≡ none
    pub capped :
        (later : ℕ)
        → (get_tenant_confirmation settings after.directory.plane tenant later).0
          ≡ confirmation_unconfirmed
    pub metered : get_effective_quota settings after.metering tenant ≡ record {
      calls_limit = (tier_caps settings confirmation_unconfirmed).quota_calls_per_period;
      sandbox_seconds_limit =
          (tier_caps settings confirmation_unconfirmed).quota_sandbox_seconds_per_period;
    }

  module _ (g : Gateway) (doc : TenantDoc)
      (found : lookup tenant g.directory.plane.tenants ≡ some doc) where
    abbrev stamped : Result InvalidConfirmation (Option TenantDoc) × ControlPlane
    stamped =
        set_tenant_confirmation settings g.directory.plane tenant confirmation_unconfirmed
          self_registration_actor s.wall s.now

    stamped-ok : (d : TenantDoc) × (stamped.0 ≡ ok (some d))
    unfolding strip lower
    stamped-ok = (
      _,
      ap (λ p. p.0)
          (set_tenant_confirmation_lem settings g.directory.plane tenant confirmation_unconfirmed
            self_registration_actor s.wall s.now doc found refl),
    )

    stamped-unconfirmed :
        (later : ℕ)
        → (get_tenant_confirmation settings stamped.1 tenant later).0 ≡ confirmation_unconfirmed
    unfolding strip lower normalize_confirmation
    stamped-unconfirmed later =
        get_tenant_confirmation-set settings g.directory.plane tenant confirmation_unconfirmed
          self_registration_actor s.wall s.now doc found refl later

    abbrev with_tier : Gateway
    with_tier = record g { directory = record g.directory { plane = stamped.1 } }

    finished-IsOpened :
        (normalized : String) (user : PublicUser) (users : Users)
        → IsCreated crypto s.user_id
            (sign_up_draft settings s normalized)
            s.wall
            g.directory.users
            user
            users
        → IsOpened g.directory.users (finish settings s user users with_tier)
    unfolding finish new_user set_quota
    finished-IsOpened normalized user users c = record {
      doc = new_user c.hash (sign_up_draft settings s normalized) s.wall;
      stored = rw (c.stored, lookup-insert, ==_refl s.user_id);
      plain = refl;
      own = refl;
      apart = λ other same.
          sym (append_cancel_left settings.self_registration_tenant_prefix s.suffix other same);
      unused = c.fresh;
      capped = stamped-unconfirmed;
      metered =
          get_effective_quota-set_quota settings g.metering tenant
            (pos (tier_caps settings confirmation_unconfirmed).quota_calls_per_period)
            (pos (tier_caps settings confirmation_unconfirmed).quota_sandbox_seconds_per_period)
            self_registration_actor s.wall;
    }

  open_account-IsOpened :
      (normalized : String) (g after : Gateway) (doc : TenantDoc) (r : Registered)
      → lookup tenant g.directory.plane.tenants ≡ some doc
      → open_account settings crypto s normalized g ≡ (ok r, after)
      → IsOpened g.directory.users after
  unfolding open_account
  open_account-IsOpened normalized g after doc r found h =
      let (d, tier) = stamped-ok g doc found in
      elim (Result-cases (
        create_user crypto s.user_id (sign_up_draft settings s normalized) s.wall
          g.directory.users)) [
            | inl (e, failed) ↦
                let bad : ◌≡◌ {A = Result RegistrationError Registered} (err (registration_error e))
                    (ok r) =
                  ap (λ p. p.0) (rw (tier, open_account, failed) at h) in
                cc
            | inr ((user, users), made) ↦
                subst (IsOpened g.directory.users)
                  (ap (λ p. p.1) (rw (tier, open_account, made) at h))
                  (finished-IsOpened g doc found normalized user users (
                    create_user-ok crypto s.user_id (sign_up_draft settings s normalized) s.wall
                      g.directory.users users user made))
          ]

  -- The deployment takes sign-ups and has room, and the credentials are good and new.
  pub record IsWelcome (g : Gateway) : Type 0 where
    pub enabled : settings.self_registration_enabled ≡ true
    pub normalized : String
    pub valid : validate_credentials s.email s.password settings ≡ ok normalized
    pub free : find_user_by_email normalized g.directory.users ≡ none
    pub room :
        (clamp settings.self_registration_max_tenants ≡ 0)
        ⊎ (self_registered_count g.directory.users < clamp settings.self_registration_max_tenants)

  room_of :
      (users : Users)
      → enforce_beta_cap settings users ≡ ok tt
      → (clamp settings.self_registration_max_tenants ≡ 0)
        ⊎ (self_registered_count users < clamp settings.self_registration_max_tenants)
  unfolding enforce_beta_cap
  room_of users h = ground arith

  second-ok :
      (first second : Result RegistrationError (Unit {0})) {a : Unit {0}}
      → (first >>= λ _. second) ≡ ok a
      → second ≡ ok tt
  second-ok (ok a) (ok tt) h = refl
  second-ok (ok a) (err e) h = cc
  second-ok (err e) second h = cc

  abbrev provided : Gateway → Gateway
  unfolding upsert_tenant
  provided g = record (with_tenants (upsert_tenant tenant s.wall g.directory.plane.tenants) g) {
    ready = add_to_set tenant g.ready;
  }

  provisioned :
      (normalized : String) (g after : Gateway) (r : Registered)
      → provision_account settings crypto s normalized g ≡ (ok r, after)
      → (find_user_by_email normalized g.directory.users ≡ none) × IsOpened g.directory.users after
  unfolding provision_account
  provisioned normalized g after r h =
      elim (Option-cases (find_user_by_email normalized g.directory.users)) [
        | inr (taken, e) ↦
            let bad : ◌≡◌ {A = Result RegistrationError Registered} (err email_taken) (ok r) =
              ap (λ p. p.0) (rw (e, provision_account) at h) in
            cc
        | inl free ↦ elim (Bool-cases s.provisions) [
          | inr failed ↦
              let bad : ◌≡◌ {A = Result RegistrationError Registered} (err provisioning_failed)
                  (ok r) =
                ap (λ p. p.0) (rw (free, provision_account, failed) at h) in
              cc
          | inl done ↦
              let (doc, found) = upserted tenant s.wall g.directory.plane.tenants in
              let opened : open_account settings crypto s normalized (provided g) ≡ (ok r, after) =
                rw (free, provision_account, done) at h in
              (free, open_account-IsOpened normalized (provided g) after doc r found opened)
        ]
      ]

  -- A sign-up that gets an account found the deployment open with room left, and an address that
  -- was valid and free. It leaves an admin of the tenant that is named by the prefix and the random
  -- part of this sign-up, which no other random part names, and of nothing more; and that tenant is
  -- in the unconfirmed tier from then on for this process, with the quota of that tier.
  pub register-IsOpened :
      (g after : Gateway) (r : Registered)
      → register_self_service_user settings crypto s g ≡ (ok r, after)
      → IsWelcome g × IsOpened g.directory.users after
  unfolding register_self_service_user
  register-IsOpened g after r h = elim (Bool-cases settings.self_registration_enabled) [
    | inr off ↦
        let bad : ◌≡◌ {A = Result RegistrationError Registered} (err registration_disabled) (ok r) =
          ap (λ p. p.0) (rw off at h) in
        cc
    | inl on ↦ elim (Result-cases (validate_credentials s.email s.password settings)) [
      | inl (e, invalid) ↦
          let bad : ◌≡◌ {A = Result RegistrationError Registered} (err e) (ok r) =
            ap (λ p. p.0) (rw (on, invalid, register_self_service_user) at h) in
          cc
      | inr (normalized, valid) ↦
          elim (Result-cases (
            (enforce_ip_throttle s.client_ip settings s.wall g.attempts).0 >>= λ _.
            enforce_beta_cap settings g.directory.users)) [
              | inl (e, stopped) ↦
                  let bad : ◌≡◌ {A = Result RegistrationError Registered} (err e) (ok r) =
                    ap (λ p. p.0) (rw (on, valid, register_self_service_user, stopped) at h) in
                  cc
              | inr (a, let_in) ↦
                  let (free, opened) =
                    provisioned normalized
                      (record g {
                        attempts = (enforce_ip_throttle s.client_ip settings s.wall g.attempts).1;
                      })
                      after r (rw (on, valid, register_self_service_user, let_in) at h) in
                  (
                    record {
                      enabled = on;
                      normalized = normalized;
                      valid = valid;
                      free = free;
                      room = room_of g.directory.users (second-ok _ _ let_in);
                    },
                    opened,
                  )
            ]
    ]
  ]

-- ===== src/Registration/Failure.antt =====
-- What a sign-up that fails leaves behind.
use m_gate.Prelude.{
  ==_refl, Bool, Bool-cases, Option-cases, Result, Result-cases, String, ap, err, false, inl, inr,
  lookup, lookup-delete, none, ok, refl, subst, true, ◌>>=◌, ◌≡◌, ◌≢◌, string_eq, nat_eq, pair_eq,
}
use m_gate.Passwords.{Crypto}
use m_gate.Registration.{
  Attempts, Gateway, Registered, RegistrationError, SignUp, enforce_beta_cap, enforce_ip_throttle,
  open_account, provision_account, provisioning_failed, register_self_service_user, rollback_tenant,
  self_registration_actor, sign_up_draft, tenant_of_sign_up, validate_credentials,
}
use m_gate.Settings.{Settings}
use m_gate.Tenant.Tier.{confirmation_unconfirmed, set_tenant_confirmation}
use m_gate.Tenant.Tier.Caps.{normalized}
use m_gate.Users.{create_user, find_user_by_email}

module _ (settings : Settings) (crypto : Crypto) (s : SignUp) where
  abbrev tenant : String
  tenant = tenant_of_sign_up settings s

  -- No trace but the count of attempts, and what the process knows of the tenant.
  pub record IsClean (g after : Gateway) : Type 0 where
    pub users : after.directory.users ≡ g.directory.users
    pub sessions : after.directory.sessions ≡ g.directory.sessions
    pub metering : after.metering ≡ g.metering
    pub absent :
        lookup (tenant_of_sign_up settings s) g.directory.plane.tenants ≡ none
        → lookup (tenant_of_sign_up settings s) after.directory.plane.tenants ≡ none

  rolled_back :
      (g now : Gateway) (drops : Bool)
      → now.directory.users ≡ g.directory.users
      → now.directory.sessions ≡ g.directory.sessions
      → now.metering ≡ g.metering
      → IsClean g (rollback_tenant tenant drops now)
  unfolding rollback_tenant
  rolled_back g now true u k m = record {
    users = u;
    sessions = k;
    metering = m;
    absent = λ _. rw (lookup-delete, ==_refl tenant);
  }
  rolled_back g now false u k m = record {
    users = u;
    sessions = k;
    metering = m;
    absent = λ _. rw (lookup-delete, ==_refl tenant);
  }

  opened-IsClean :
      (normalized : String) (g from after : Gateway) (e : RegistrationError)
      → from.directory.users ≡ g.directory.users
      → from.directory.sessions ≡ g.directory.sessions
      → from.metering ≡ g.metering
      → open_account settings crypto s normalized from ≡ (err e, after)
      → IsClean g after
  unfolding open_account
  opened-IsClean normalized g from after e u k m h =
      let stamped =
        set_tenant_confirmation settings from.directory.plane tenant confirmation_unconfirmed
          self_registration_actor s.wall s.now in
      let with_tier = record from { directory = record from.directory { plane = stamped.1 } } in
      elim (Result-cases stamped.0) [
        | inl (invalid, e1) ↦
            subst (IsClean g) (ap (λ p. p.1) (rw (e1, open_account) at h))
              (rolled_back g with_tier s.drops u k m)
        | inr (doc, e1) ↦
            elim (Result-cases (
              create_user crypto s.user_id (sign_up_draft settings s normalized) s.wall
                from.directory.users)) [
                  | inl (failed, e2) ↦
                      subst (IsClean g) (ap (λ p. p.1) (rw (e1, open_account, e2) at h))
                        (rolled_back g with_tier s.drops u k m)
                  | inr ((user, users), made) ↦
                      let bad : ◌≡◌ {A = Result RegistrationError Registered}
                          (ok (record {
                            user = user;
                            tenant_id = tenant;
                            confirmation = confirmation_unconfirmed;
                          }))
                          (err e) =
                        ap (λ p. p.0) (rw (e1, open_account, made) at h) in
                      cc
                ]
      ]

  same : (g : Gateway) → IsClean g g
  same g = record { users = refl; sessions = refl; metering = refl; absent = λ h. h }

  recounted : (g : Gateway) (attempts : Attempts) → IsClean g (record g { attempts = attempts })
  recounted g attempts = record { users = refl; sessions = refl; metering = refl; absent = λ h. h }

  provisioned-IsClean :
      (normalized : String) (g : Gateway) (attempts : Attempts) (after : Gateway)
      (e : RegistrationError)
      → provision_account settings crypto s normalized (record g { attempts = attempts })
        ≡ (err e, after)
      → e ≢ provisioning_failed
      → IsClean g after
  unfolding provision_account
  provisioned-IsClean normalized g attempts after e h handled =
      elim (Option-cases (find_user_by_email normalized g.directory.users)) [
        | inr (taken, e1) ↦
            subst (IsClean g) (ap (λ p. p.1) (rw (e1, provision_account) at h))
              (recounted g attempts)
        | inl free ↦ elim (Bool-cases s.provisions) [
          | inr failed ↦
              let it : ◌≡◌ {A = Result RegistrationError Registered} (err provisioning_failed)
                  (err e) =
                ap (λ p. p.0) (rw (free, provision_account, failed) at h) in
              absurd (handled (cc))
          | inl done ↦
              opened-IsClean normalized g _ after e refl refl refl
                (rw (free, provision_account, done) at h)
        ]
      ]

  -- A sign-up that fails, but for a failure of the work on the database itself, leaves the users,
  -- the sessions and the metering as they were, and no tenant where there was none.
  pub register-IsClean :
      (g after : Gateway) (e : RegistrationError)
      → register_self_service_user settings crypto s g ≡ (err e, after)
      → e ≢ provisioning_failed
      → IsClean g after
  unfolding register_self_service_user
  register-IsClean g after e h handled = elim (Bool-cases settings.self_registration_enabled) [
    | inr off ↦ subst (IsClean g) (ap (λ p. p.1) (rw off at h)) (same g)
    | inl on ↦ elim (Result-cases (validate_credentials s.email s.password settings)) [
      | inl (wrong, invalid) ↦
          subst (IsClean g) (ap (λ p. p.1) (rw (on, invalid, register_self_service_user) at h))
            (same g)
      | inr (normalized, valid) ↦
          let attempts = (enforce_ip_throttle s.client_ip settings s.wall g.attempts).1 in
          elim (Result-cases (
            (enforce_ip_throttle s.client_ip settings s.wall g.attempts).0 >>= λ _.
            enforce_beta_cap settings g.directory.users)) [
              | inl (wrong, stopped) ↦
                  subst (IsClean g)
                    (ap (λ p. p.1) (rw (on, valid, register_self_service_user, stopped) at h))
                    (recounted g attempts)
              | inr (a, let_in) ↦
                  provisioned-IsClean normalized g attempts after e
                    (rw (on, valid, register_self_service_user, let_in) at h) handled
            ]
    ]
  ]

-- ===== src/Console/Operations.antt =====
-- Each operation on managed users stays within the tenant of its caller.
use m_gate.Prelude.{
  Bool-cases, List, Option, Result, Result-cases, String, [], ap, delete, elem, err, false, inl,
  inr, lookup, none, ok, only-delete, only-modify, some, some_inj, sym, true, ℕ, ◌==◌, ◌>>=◌, ◌∙◌,
  ◌∷◌, ◌≡◌, string_eq, nat_eq, pair_eq,
}
use m_gate.Authorization.{Catalogs}
use m_gate.Console.{
  Caller, Directory, assert_can_assign_roles, create_error, create_managed_user,
  delete_managed_user, load_managed_user, managed_draft, require_tenant_writable,
  resolve_target_tenant, roles_assignable, update_error, update_managed_user,
}
use m_gate.Console.Accounts.{
  Draws, Preset, PresetRequest, create_preset_user, roles_of_preset, try_candidates,
}
use m_gate.Console.Confinement.{IsConfined, IsConfined-refl, cleared, sealed, synced}
use m_gate.Console.Steps.{
  assignable-plain, created-IsConfined, is_local, last-ok, managed-local, mirror-IsConfined,
  plain_sealed, target-local,
}
use m_gate.Passwords.{Crypto}
use m_gate.Settings.{Settings}
use m_gate.Users.{
  Draft, Patch, PublicUser, User, UserError, Users, create_user, delete_user, duplicate_key,
  email_required, empty_password, given, public_user, sync_session_context, updated,
  user_already_exists, user_not_found,
}
use m_gate.Users.Writes.{IsUpdated, create_user-ok, update_user-ok}

goes_on :
    (e : UserError) (later : Result UserError (PublicUser × Users)) {r : PublicUser × Users}
    → ◌≡◌ {A = Result UserError (PublicUser × Users)}
        (elim e [ user_already_exists ↦ later | other ↦ err other ])
        (ok r)
    → later ≡ ok r
goes_on user_already_exists later h = h
goes_on email_required later h = cc
goes_on user_not_found later h = cc
goes_on empty_password later h = cc
goes_on duplicate_key later h = cc

module _ (settings : Settings) (tenant : String) where
  module _ (crypto : Crypto) (caller : Caller) (local : is_local settings tenant caller ≡ true)
      (wall now : ℕ) (dir : Directory) where
    -- Within the tenant.
    abbrev Stays : Directory → Type 0
    Stays after = IsConfined settings tenant (dir.users, dir.sessions) (after.users, after.sessions)

    still : Stays dir
    still = IsConfined-refl settings tenant (dir.users, dir.sessions)

    pub create-IsConfined :
        (requested : Option String) (payload : Draft) (id : String)
        → Stays (create_managed_user settings crypto caller requested payload id wall now dir).1
    unfolding create_managed_user
    create-IsConfined requested payload id =
        elim (Result-cases (resolve_target_tenant settings caller requested)) [
          | inl (e, stopped) ↦ rw (stopped, create_managed_user) still
          | inr (target, chosen) ↦
              elim (Result-cases (
                (require_tenant_writable settings caller target dir.plane now).0 >>= λ _.
                assert_can_assign_roles settings caller payload.roles)) [
                  | inl (e, stopped) ↦ rw (chosen, create_managed_user, stopped) still
                  | inr (done, let_in) ↦
                      rw (chosen, create_managed_user, let_in)
                        (mirror-IsConfined settings tenant create_error _
                          (record dir {
                            plane =
                                (require_tenant_writable settings caller target dir.plane now).1;
                          })
                          (λ user users wrote.
                            created-IsConfined settings tenant crypto id
                              (managed_draft caller target payload) wall dir.users users
                              dir.sessions user
                              (target-local settings tenant caller requested target local chosen)
                              (assignable-plain settings tenant caller payload.roles local
                                (last-ok settings tenant _ _ let_in))
                              (create_user-ok crypto id (managed_draft caller target payload) wall
                                dir.users users user wrote)))
                ]
        ]

    patched :
        (doc : User) (hash : Option String) (payload : Patch)
        → doc.tenant_id ≡ tenant
        → elem settings.platform_admin_role (given payload.roles doc.roles) ≡ false
        → sealed settings tenant (updated hash payload wall doc) ≡ false
    patched doc hash payload own plain =
        plain_sealed settings tenant (updated hash payload wall doc) own plain

    given-plain :
        (doc : User) (roles : Option (List String))
        → elem settings.platform_admin_role doc.roles ≡ false
        → roles_assignable settings caller roles ≡ ok tt
        → elem settings.platform_admin_role (given roles doc.roles) ≡ false
    given-plain doc none plain h = plain
    given-plain doc (some roles) plain h = assignable-plain settings tenant caller roles local h

    updated-IsConfined :
        (id : String) (payload : Patch) (doc : User) (users' : Users) (user : PublicUser)
        → lookup id dir.users ≡ some doc
        → doc.tenant_id ≡ tenant
        → elem settings.platform_admin_role doc.roles ≡ false
        → elem settings.platform_admin_role (given payload.roles doc.roles) ≡ false
        → IsUpdated crypto id payload wall dir.users user users'
        → IsConfined settings tenant
            (dir.users, dir.sessions)
            (users', sync_session_context user dir.sessions)
    unfolding public_user
    updated-IsConfined id payload doc users' user at own plain after u =
        let same : u.doc ≡ doc = some_inj (sym u.found ∙ at) in
        let own' : u.doc.tenant_id ≡ tenant = ap (λ d. d.tenant_id) same ∙ own in
        let after' : elem settings.platform_admin_role (given payload.roles u.doc.roles) ≡ false =
          ap (λ d. elem settings.platform_admin_role (given payload.roles d.roles)) same ∙ after in
        let plain' : elem settings.platform_admin_role u.doc.roles ≡ false =
          ap (λ d. elem settings.platform_admin_role d.roles) same ∙ plain in
        synced settings tenant user dir.sessions dir.users users' (rw u.shown own')
          (rw u.shown after')
          (λ j. rw u.stored (
            only-modify (sealed settings tenant) id dir.users (updated u.hash payload wall) u.doc
              u.found (plain_sealed settings tenant u.doc own' plain')
              (patched u.doc u.hash payload own' after') j))

    pub update-IsConfined :
        (id : String) (payload : Patch)
        → Stays (update_managed_user settings crypto caller id payload wall now dir).1
    unfolding update_managed_user
    update-IsConfined id payload =
        elim (Result-cases (load_managed_user settings caller id dir.users)) [
          | inl (e, stopped) ↦ rw (stopped, update_managed_user) still
          | inr (doc, loaded) ↦
              elim (Result-cases (
                (require_tenant_writable settings caller doc.tenant_id dir.plane now).0 >>= λ _.
                roles_assignable settings caller payload.roles)) [
                  | inl (e, stopped) ↦ rw (loaded, update_managed_user, stopped) still
                  | inr (done, let_in) ↦
                      let (at, own, plain) =
                        managed-local settings tenant caller id dir.users doc local loaded in
                      rw (loaded, update_managed_user, let_in)
                        (mirror-IsConfined settings tenant update_error _
                          (record dir {
                            plane =
                                (require_tenant_writable settings caller doc.tenant_id dir.plane
                                  now).1;
                          })
                          (λ user users wrote.
                            updated-IsConfined id payload doc users user at own plain
                              (given-plain doc payload.roles plain
                                (last-ok settings tenant _ _ let_in))
                              (update_user-ok crypto id payload wall dir.users users user wrote)))
                ]
        ]

    pub delete-IsConfined : (id : String) → Stays (delete_managed_user settings caller id now dir).1
    unfolding delete_managed_user delete_user
    delete-IsConfined id = elim (Result-cases (load_managed_user settings caller id dir.users)) [
      | inl (e, stopped) ↦ rw (stopped, delete_managed_user) still
      | inr (doc, loaded) ↦
          let (at, own, plain) =
            managed-local settings tenant caller id dir.users doc local loaded in
          elim (Result-cases
            (require_tenant_writable settings caller doc.tenant_id dir.plane now).0) [
              | inl (e, stopped) ↦ rw (loaded, delete_managed_user, stopped) still
              | inr (done, let_in) ↦ elim (Bool-cases (doc.email == caller.user_id)) [
                | inl self ↦ rw (loaded, delete_managed_user, let_in, self) still
                | inr someone ↦
                    rw (loaded, delete_managed_user, let_in, someone, at, delete_user)
                      (cleared settings tenant doc.tenant_id doc.email dir.sessions dir.users
                        (delete id dir.users) own
                        (only-delete (sealed settings tenant) id dir.users doc at
                          (plain_sealed settings tenant doc own plain)))
              ]
            ]
    ]

    preset_created :
        (draft : Draft) (tries : List (String × String)) (users : Users) (user : PublicUser)
        → draft.tenant_id ≡ tenant
        → elem settings.platform_admin_role draft.roles ≡ false
        → try_candidates crypto draft tries wall dir.users ≡ ok (user, users)
        → IsConfined settings tenant
            (dir.users, dir.sessions)
            (users, sync_session_context user dir.sessions)
    unfolding try_candidates
    preset_created draft [] users user own plain h = cc
    preset_created draft ((email, id) ∷ rest) users user own plain h =
        elim (Result-cases
          (create_user crypto id (record draft { email = email }) wall dir.users)) [
            | inl (e, failed) ↦ preset_created draft rest users user own plain (
                goes_on e (try_candidates crypto draft rest wall dir.users)
                  (rw (failed, try_candidates) at h))
            | inr (made, wrote) ↦
                let same : ◌≡◌ {A = Result UserError (PublicUser × Users)} (ok made)
                    (ok (user, users)) =
                  rw (wrote, try_candidates) at h in
                created-IsConfined settings tenant crypto id (record draft { email = email }) wall
                  dir.users users dir.sessions user own plain
                  (create_user-ok crypto id (record draft { email = email }) wall dir.users users
                    user (wrote ∙ same))
          ]

    pub preset-IsConfined :
        (catalogs : Catalogs) (preset : Preset) (payload : PresetRequest) (draws : Draws)
        → elem settings.platform_admin_role (roles_of_preset preset) ≡ false
        → Stays
            (create_preset_user settings crypto caller catalogs preset payload draws wall now dir).1
    unfolding create_preset_user
    preset-IsConfined catalogs preset payload draws plain =
        elim (Result-cases (resolve_target_tenant settings caller payload.tenant_id)) [
          | inl (e, stopped) ↦ rw (stopped, create_preset_user) still
          | inr (target, chosen) ↦
              elim (Result-cases (require_tenant_writable settings caller target dir.plane now).0) [
                | inl (e, stopped) ↦ rw (chosen, create_preset_user, stopped) still
                | inr (done, let_in) ↦
                    rw (chosen, create_preset_user, let_in)
                      (mirror-IsConfined settings tenant create_error _
                        (record dir {
                          plane = (require_tenant_writable settings caller target dir.plane now).1;
                        })
                        (λ user users wrote.
                          preset_created _ _ users user
                            (target-local settings tenant caller payload.tenant_id target local
                              chosen)
                            plain wrote))
              ]
        ]

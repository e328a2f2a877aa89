-- ===== src/Console/KillSwitch.antt =====
-- What becomes of the tokens of an account that is disabled, and of one that is deleted.
use m_gate.Prelude.{
  ==_refl, Bool, Bool-cases, List, Option, Result, Result-cases, String, [], any, ap, arith, elem,
  elem-append, elem-sorted_set, eq_iff, err, false, inl, inr, lookup, lookup-delete, lookup-insert,
  none, ok, or_default, refl, some, sorted_set, subst, sym, true, ℕ, ◌&&◌, ◌++◌, ◌==◌, ◌>>=◌, ◌||◌,
  ◌∙◌, ◌∷◌, ◌≡◌, string_eq, nat_eq, pair_eq,
}
use m_gate.Console.{
  AdminError, Caller, Directory, delete_managed_user, load_managed_user, mirror, own_account,
  require_tenant_writable, roles_assignable, update_error, update_managed_user,
}
use m_gate.Passwords.{Crypto}
use m_gate.Rbac.{Session, Visit, door, is_data_plane, is_tool_role, sessions_status}
use m_gate.Rbac.Door.{
  door-may_enter, is_data_plane_lem, is_forward, is_tools, may_enter, may_use_tools,
}
use m_gate.Settings.{Settings}
use m_gate.Users.{
  Patch, PublicUser, Sessions, User, UserError, Users, clear_session_context, delete_user,
  public_user, sync_session_context, update_user, updated,
}
use m_gate.Users.Writes.{update_user-ok}

nothing : (a b : Bool) → b ≡ false → (a && b) ≡ false
nothing a b h = ground arith

any_of_elem :
    (p : String → Bool) (a : String) (xs : List String)
    → elem a xs ≡ true
    → p a ≡ true
    → any p xs ≡ true
any_of_elem p a [] h k = cc
any_of_elem p a (x ∷ xs) h k = elim (Bool-cases (a == x)) [
  | inl same ↦ let here : p x ≡ true = subst (λ y. p y ≡ true) ((eq_iff a x).0 same) k in rw here
  | inr other ↦ ground (arith, any_of_elem p a xs)
]

abbrev mirror_of : PublicUser → Session
mirror_of user = record {
  status = some (or_default (some user.status) "active");
  roles = some user.roles;
}

synced-lookup :
    (user : PublicUser) (sessions : Sessions)
    → ((user.tenant_id == "") || (user.email == "")) ≡ false
    → lookup (user.tenant_id, user.email) (sync_session_context user sessions)
      ≡ some (mirror_of user)
unfolding sync_session_context
synced-lookup user sessions named =
    rw (named, lookup-insert, ==_refl user.tenant_id, ==_refl user.email)

cleared-lookup :
    (owner email tenant user : String) (sessions : Sessions)
    → ((owner == "") || (email == "")) ≡ false
    → owner ≡ tenant
    → email ≡ user
    → lookup (tenant, user) (clear_session_context owner email sessions) ≡ none
unfolding clear_session_context
cleared-lookup owner email tenant user sessions named same_owner same_email =
    rw (named, lookup-delete, same_owner, same_email, ==_refl tenant, ==_refl user)

shown-status :
    (id : String) (hash : Option String) (patch : Patch) (wall : ℕ) (doc : User) (status : String)
    → patch.status ≡ some status
    → (public_user id (updated hash patch wall doc)).status ≡ status
unfolding public_user
shown-status id hash patch wall doc status set = rw set

mirrored_status :
    (status : String)
    → (status == "active") ≡ false
    → (status == "") ≡ false
    → (or_default (some status) "active" == "active") ≡ false
mirrored_status status off nonempty = rw (nonempty, off)

module _ (settings : Settings) (visit : Visit) (tools : is_data_plane visit.path ≡ true) where
  under_tools : is_tools visit.path ≡ true
  under_tools = sym (is_data_plane_lem visit.path) ∙ tools

  -- A session that is not active closes the tools, whatever the token says.
  suspended-refused :
      (sessions : Sessions) (session : Session)
      → lookup (visit.tenant_id, visit.user_id) sessions ≡ some session
      → (sessions_status session == "active") ≡ false
      → is_forward (door settings sessions visit) ≡ false
  suspended-refused sessions session at off =
      door-may_enter settings sessions visit
      ∙ nothing (may_enter settings visit) (may_use_tools sessions visit)
          (rw (under_tools, at, off))

  -- Without a session, the roles of the token are all that counts.
  unmirrored-forward :
      (sessions : Sessions)
      → may_enter settings visit ≡ true
      → lookup (visit.tenant_id, visit.user_id) sessions ≡ none
      → elem "tool:invoke" visit.roles ≡ true
      → is_forward (door settings sessions visit) ≡ true
  unmirrored-forward sessions enters at role =
      let held : elem "tool:invoke" (sorted_set (visit.roles ++ [])) ≡ true =
        elem-sorted_set "tool:invoke" (visit.roles ++ [])
        ∙ elem-append "tool:invoke" visit.roles []
        ∙ rw role in
      door-may_enter settings sessions visit
      ∙ rw (enters, under_tools, at)
          (any_of_elem is_tool_role "tool:invoke" (sorted_set (visit.roles ++ [])) held refl)

  module _ (crypto : Crypto) (caller : Caller) (id : String) (wall now : ℕ)
      (dir after : Directory) where
    mirror-ok :
        (status : UserError → AdminError) (r : Result UserError (PublicUser × Users))
        (from : Directory) (user : PublicUser)
        → mirror status r from ≡ (ok user, after)
        → (users : Users) × (r ≡ ok (user, users))
          × (after.sessions ≡ sync_session_context user from.sessions)
    unfolding mirror
    mirror-ok status (err e) from user h =
        let bad : ◌≡◌ {A = Result AdminError PublicUser} (err (status e)) (ok user) =
          ap (λ p. p.0) h in
        cc
    mirror-ok status (ok (shown, users)) from user h =
        let same : ◌≡◌ {A = Result AdminError PublicUser} (ok shown) (ok user) = ap (λ p. p.0) h in
        let it : shown ≡ user = cc in
        (
          users,
          rw it,
          sym (ap (λ p. p.1.sessions) h) ∙ ap (λ u. sync_session_context u from.sessions) it,
        )

    update-ok :
        (payload : Patch) (user : PublicUser)
        → update_managed_user settings crypto caller id payload wall now dir ≡ (ok user, after)
        → (users : Users) × (update_user crypto id payload wall dir.users ≡ ok (user, users))
          × (after.sessions ≡ sync_session_context user dir.sessions)
    unfolding update_managed_user
    update-ok payload user h =
        elim (Result-cases (load_managed_user settings caller id dir.users)) [
          | inl (e, stopped) ↦
              let bad : ◌≡◌ {A = Result AdminError PublicUser} (err e) (ok user) =
                ap (λ p. p.0) (rw (stopped, update_managed_user) at h) in
              cc
          | inr (doc, loaded) ↦
              elim (Result-cases (
                (require_tenant_writable settings caller doc.tenant_id dir.plane now).0 >>= λ _.
                roles_assignable settings caller payload.roles)) [
                  | inl (e, stopped) ↦
                      let bad : ◌≡◌ {A = Result AdminError PublicUser} (err e) (ok user) =
                        ap (λ p. p.0) (rw (loaded, update_managed_user, stopped) at h) in
                      cc
                  | inr (done, let_in) ↦
                      mirror-ok update_error _
                        (record dir {
                          plane =
                              (require_tenant_writable settings caller doc.tenant_id dir.plane
                                now).1;
                        })
                        user (rw (loaded, update_managed_user, let_in) at h)
                ]
        ]

    -- An update that succeeds sets a status other than active, for a user with an address and a
    -- tenant. From then on the door refuses each request for the tools with the user's identity,
    -- whatever roles its token has.
    pub disabled-refused :
        (payload : Patch) (user : PublicUser) (status : String)
        → update_managed_user settings crypto caller id payload wall now dir ≡ (ok user, after)
        → payload.status ≡ some status
        → (status == "active") ≡ false
        → (status == "") ≡ false
        → ((user.tenant_id == "") || (user.email == "")) ≡ false
        → user.tenant_id ≡ visit.tenant_id
        → user.email ≡ visit.user_id
        → is_forward (door settings after.sessions visit) ≡ false
    disabled-refused payload user status done set off nonempty named same_tenant same_user =
        let (users, wrote, mirrored) = update-ok payload user done in
        let u = update_user-ok crypto id payload wall dir.users users user wrote in
        let now_off : user.status ≡ status =
          ap (λ p. p.status) u.shown ∙ shown-status id u.hash payload wall u.doc status set in
        let at : lookup (user.tenant_id, user.email) after.sessions ≡ some (mirror_of user) =
          rw mirrored (synced-lookup user dir.sessions named) in
        suspended-refused after.sessions (mirror_of user) (rw (same_tenant, same_user) at at)
          (rw now_off (mirrored_status status off nonempty))

    deleted-ok :
        (doc : User)
        → delete_managed_user settings caller id now dir ≡ (ok tt, after)
        → lookup id dir.users ≡ some doc
        → after.sessions ≡ clear_session_context doc.tenant_id doc.email dir.sessions
    unfolding delete_managed_user delete_user
    deleted-ok doc h at = elim (Result-cases (load_managed_user settings caller id dir.users)) [
      | inl (e, stopped) ↦
          let bad : ◌≡◌ {A = Result AdminError (Unit {0})} (err e) (ok tt) =
            ap (λ p. p.0) (rw (stopped, delete_managed_user) at h) in
          cc
      | inr (found, loaded) ↦
          elim (Result-cases
            (require_tenant_writable settings caller found.tenant_id dir.plane now).0) [
              | inl (e, stopped) ↦
                  let bad : ◌≡◌ {A = Result AdminError (Unit {0})} (err e) (ok tt) =
                    ap (λ p. p.0) (rw (loaded, delete_managed_user, stopped) at h) in
                  cc
              | inr (done, let_in) ↦ elim (Bool-cases (found.email == caller.user_id)) [
                | inl self ↦
                    let bad : ◌≡◌ {A = Result AdminError (Unit {0})} (err own_account) (ok tt) =
                      ap (λ p. p.0) (rw (loaded, delete_managed_user, let_in, self) at h) in
                    cc
                | inr someone ↦ sym (
                    ap (λ p. p.1.sessions)
                      (rw (loaded, delete_managed_user, let_in, someone, at, delete_user) at h))
              ]
            ]
    ]

    -- A user with an address and a tenant is deleted, disabled before or not. From then on the door
    -- lets through each request for the tools with the user's identity whose token has the role to
    -- invoke tools and that needs nothing of the console.
    pub deleted-forward :
        (doc : User)
        → delete_managed_user settings caller id now dir ≡ (ok tt, after)
        → lookup id dir.users ≡ some doc
        → ((doc.tenant_id == "") || (doc.email == "")) ≡ false
        → doc.tenant_id ≡ visit.tenant_id
        → doc.email ≡ visit.user_id
        → may_enter settings visit ≡ true
        → elem "tool:invoke" visit.roles ≡ true
        → is_forward (door settings after.sessions visit) ≡ true
    deleted-forward doc done at named same_tenant same_user enters role =
        unmirrored-forward after.sessions enters
          (rw (deleted-ok doc done at) (
            cleared-lookup doc.tenant_id doc.email visit.tenant_id visit.user_id dir.sessions named
              same_tenant same_user))
          role

-- ===== src/Console/History.antt =====
-- Sequences of operations on managed users.
use m_gate.Prelude.{
  List, Option, String, [], all, and_left, and_right, elem, false, true, ℕ, ◌∷◌, ◌≡◌, string_eq,
  nat_eq, pair_eq,
}
use m_gate.Authorization.{Catalogs}
use m_gate.Console.{
  Caller, Directory, create_managed_user, delete_managed_user, update_managed_user,
}
use m_gate.Console.Accounts.{Draws, Preset, PresetRequest, create_preset_user, roles_of_preset}
use m_gate.Console.Confinement.{IsConfined, IsConfined-refl, IsConfined-trans}
use m_gate.Console.Operations.{
  create-IsConfined, delete-IsConfined, preset-IsConfined, update-IsConfined,
}
use m_gate.Console.Steps.{is_local}
use m_gate.Passwords.{Crypto}
use m_gate.Settings.{Settings}
use m_gate.Users.{Draft, Patch}

-- A request to the console for a managed user: a creation, an update or a deletion.
pub data Operation : Type 0 where
  create : Option String → Draft → String → Operation
  create_preset : Catalogs → Preset → PresetRequest → Draws → Operation
  update : String → Patch → Operation
  remove : String → Operation

pub record Call : Type 0 where
  pub caller : Caller
  pub operation : Operation
  pub wall : ℕ
  pub now : ℕ

module _ (settings : Settings) (crypto : Crypto) where
  unfoldable pub perform : Operation → Caller → ℕ → ℕ → Directory → Directory
  perform (create requested payload id) caller wall now dir =
      (create_managed_user settings crypto caller requested payload id wall now dir).1
  perform (create_preset catalogs preset payload draws) caller wall now dir =
      (create_preset_user settings crypto caller catalogs preset payload draws wall now dir).1
  perform (update id payload) caller wall now dir =
      (update_managed_user settings crypto caller id payload wall now dir).1
  perform (remove id) caller wall now dir = (delete_managed_user settings caller id now dir).1

  unfoldable pub history : List Call → Directory → Directory
  unfolding perform
  history [] dir = dir
  history (call ∷ calls) dir =
      history calls (perform call.operation call.caller call.wall call.now dir)

  -- The presets do not give the role of the platform's admins.
  abbrev pub PresetsArePlain : Type 0
  PresetsArePlain =
      (preset : Preset) → elem settings.platform_admin_role (roles_of_preset preset) ≡ false

  module _ (tenant : String) (plain : PresetsArePlain) where
    perform-IsConfined :
        (operation : Operation) (caller : Caller) (wall now : ℕ) (dir : Directory)
        → is_local settings tenant caller ≡ true
        → IsConfined settings tenant
            (dir.users, dir.sessions)
            (
              (perform operation caller wall now dir).users,
              (perform operation caller wall now dir).sessions,
            )
    unfolding perform
    perform-IsConfined (create requested payload id) caller wall now dir local =
        create-IsConfined settings tenant crypto caller local wall now dir requested payload id
    perform-IsConfined (create_preset catalogs preset payload draws) caller wall now dir local =
        preset-IsConfined settings tenant crypto caller local wall now dir catalogs preset payload
          draws (plain preset)
    perform-IsConfined (update id payload) caller wall now dir local =
        update-IsConfined settings tenant crypto caller local wall now dir id payload
    perform-IsConfined (remove id) caller wall now dir local =
        delete-IsConfined settings tenant crypto caller local wall now dir id

    -- Whatever creations, with a preset or without, updates and deletions of managed users callers
    -- of one tenant ask for, none of whom is an admin of the platform: no user of another tenant
    -- and no admin of the platform appears, disappears or changes, the sessions of other tenants
    -- stay as they were, and no session comes to give the role of the platform's admins. The
    -- presets must not give that role. The change of a caller's own password, which looks for its
    -- account by address alone, is none of these operations.
    pub history-IsConfined :
        (calls : List Call) (dir : Directory)
        → all (λ call. is_local settings tenant call.caller) calls ≡ true
        → IsConfined settings tenant
            (dir.users, dir.sessions)
            ((history calls dir).users, (history calls dir).sessions)
    unfolding history
    history-IsConfined [] dir local = IsConfined-refl settings tenant (dir.users, dir.sessions)
    history-IsConfined (call ∷ calls) dir local =
        let next = perform call.operation call.caller call.wall call.now dir in
        IsConfined-trans settings tenant (dir.users, dir.sessions) (next.users, next.sessions)
          ((history calls next).users, (history calls next).sessions)
          (perform-IsConfined call.operation call.caller call.wall call.now dir
            (and_left _ _ local))
          (history-IsConfined calls next (and_right (is_local settings tenant call.caller) _ local))

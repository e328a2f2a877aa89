-- ===== src/Tests/Confined.antt =====
-- Operations of the console on managed users at concrete inputs.
use m_gate.Prelude.{List, [], none, refl, some, ◌∷◌}
use m_gate.Console.{is_platform_admin}
use m_gate.Console.Accounts.{Draws, PresetRequest, demo, team, viewer}
use m_gate.Console.Confinement.{IsConfined}
use m_gate.Console.History.{
  Call, PresetsArePlain, create, create_preset, history, history-IsConfined, remove, update,
}
use m_gate.Tests.Accounts.{bob, boss, crypto, directory, disable}
use m_gate.Tests.Fixtures.{catalogs, settings}

presets_plain : PresetsArePlain settings crypto
presets_plain demo = refl
presets_plain viewer = refl
presets_plain team = refl

abbrev draws : Draws
draws = record { password = "drawn-pass"; id = "u4"; rolls = ("a1b2c3", "u5") ∷ [] }

abbrev unnamed : PresetRequest
unnamed = record { email = none; tenant_id = none; label = none; client = none }

abbrev calls : List Call
calls =
    record { caller = boss; operation = create none bob "u2"; wall = 5; now = 5 }
    ∷ record { caller = boss; operation = create (some "beta") bob "u3"; wall = 6; now = 6 }
    ∷ record {
      caller = boss;
      operation = create_preset catalogs team unnamed draws;
      wall = 7;
      now = 7;
    }
    ∷ record { caller = boss; operation = update "u1" disable; wall = 8; now = 8 }
    ∷ record { caller = boss; operation = remove "u2"; wall = 9; now = 9 }
    ∷ []

history-IsConfined_example :
    IsConfined settings "acme"
      (directory.users, directory.sessions)
      (
        (history settings crypto calls directory).users,
        (history settings crypto calls directory).sessions,
      )
unfolding is_platform_admin
history-IsConfined_example =
    history-IsConfined settings crypto "acme" presets_plain calls directory refl

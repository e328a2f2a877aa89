-- ===== src/Tests/SignUps.antt =====
-- Sign-ups at concrete inputs.
use m_gate.Prelude.{
  List, Result, [], clamp, lookup, refl, true, ◌∷◌, ◌≤◌, string_eq, nat_eq, pair_eq,
}
use m_gate.Passwords.{encoded}
use m_gate.Registration.{
  Gateway, Registered, RegistrationError, SignUp, email_taken, register_self_service_user,
  sign_up_draft,
}
use m_gate.Registration.Account.{IsOpened, IsWelcome, register-IsOpened}
use m_gate.Registration.Failure.{IsClean, register-IsClean}
use m_gate.Registration.Throttle.{Attempt, admitted_sign_ups, admitted_sign_ups-le}
use m_gate.Tenant.Tier.{confirmation_unconfirmed, set_tenant_confirmation}
use m_gate.Tests.Accounts.{crypto, directory}
use m_gate.Tests.Fixtures.{empty_metering, settings}
use m_gate.Users.{new_user, public_user}

abbrev gateway : Gateway
gateway = record { directory = directory; metering = empty_metering; attempts = []; ready = [] }

abbrev cleo : SignUp
cleo = record {
  email = "Cleo@example.org";
  password = "long-enough-1";
  client_ip = "10.0.0.9";
  suffix = "0a1b2c";
  user_id = "u7";
  wall = 7200000;
  now = 50;
  provisions = true;
  drops = true;
}

-- The address is taken by another account.
abbrev ann_again : SignUp
ann_again = record cleo { email = "ann@acme.io" }

abbrev welcome : Result RegistrationError Registered × Gateway
unfolding register_self_service_user
welcome = register_self_service_user settings crypto cleo gateway

abbrev registered : Registered
unfolding public_user new_user
registered = record {
  user = public_user "u7" (
      new_user (encoded crypto "long-enough-1") (sign_up_draft settings cleo "cleo@example.org")
        7200000);
  tenant_id = "selfsvc-0a1b2c";
  confirmation = confirmation_unconfirmed;
}

register-IsOpened_example :
    IsWelcome settings crypto cleo gateway
    × IsOpened settings crypto cleo gateway.directory.users welcome.1
unfolding register_self_service_user lookup set_tenant_confirmation registered
register-IsOpened_example = register-IsOpened settings crypto cleo gateway welcome.1 registered refl

abbrev refused_sign_up : Result RegistrationError Registered × Gateway
unfolding register_self_service_user
refused_sign_up = register_self_service_user settings crypto ann_again gateway

register-IsClean_example : IsClean settings crypto ann_again gateway refused_sign_up.1
unfolding register_self_service_user lookup
register-IsClean_example =
    register-IsClean settings crypto ann_again gateway refused_sign_up.1 email_taken refl (λ e. cc)

abbrev attempts_made : List Attempt
attempts_made =
    record { client_ip = "10.0.0.9"; wall = 7200000 }
    ∷ record { client_ip = "10.0.0.8"; wall = 7200500 }
    ∷ record { client_ip = "10.0.0.9"; wall = 7201000 }
    ∷ []

admitted_sign_ups-le_example :
    admitted_sign_ups settings ("10.0.0.9", 7200) attempts_made []
    ≤ clamp settings.self_registration_max_per_ip
admitted_sign_ups-le_example =
    admitted_sign_ups-le settings ("10.0.0.9", 7200) attempts_made [] refl

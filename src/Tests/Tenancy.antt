-- ===== src/Tests/Tenancy.antt =====
-- Requests of a tenant's admin to the endpoints for tenants.
use m_gate.Prelude.{
  List, [], lookup, none, pos, refl, some, true, ◌∷◌, ◌≡◌, string_eq, nat_eq, pair_eq,
}
use m_gate.Console.{Caller, is_platform_admin}
use m_gate.Console.Curated.{IsCurated}
use m_gate.Console.Privileges.{answers-IsCurated}
use m_gate.Console.TenantCalls.{
  TenantCall, answers, confirmation_request, create_request, quota_request, requirements_request,
  tool_policy_request,
}
use m_gate.Console.Tenants.{Control}
use m_gate.Tests.Fixtures.{acme, empty_metering, plane, settings}

abbrev own_admin : Caller
own_admin = record {
  tenant_id = "acme";
  user_id = "boss@acme.io";
  roles = "user" ∷ "admin" ∷ [];
  header_tenant = none;
}

abbrev control : Control
control = record { plane = plane; metering = empty_metering; ready = "acme" ∷ [] }

abbrev requests : List TenantCall
requests =
    record {
      caller = own_admin;
      request = confirmation_request "acme" "confirmed";
      wall = 5;
      now = 5;
    }
    ∷ record {
      caller = own_admin;
      request = tool_policy_request "acme" ("mail/*" ∷ "crm/*" ∷ []) (some (pos 3));
      wall = 6;
      now = 6;
    }
    ∷ record { caller = own_admin; request = tool_policy_request "beta" [] none; wall = 7; now = 7 }
    ∷ record {
      caller = own_admin;
      request = requirements_request "acme" ("requests" ∷ []);
      wall = 8;
      now = 8;
    }
    ∷ record {
      caller = own_admin;
      request = quota_request "acme" (pos 0) (pos 0);
      wall = 9;
      now = 9;
    }
    ∷ record { caller = own_admin; request = create_request none true; wall = 10; now = 10 }
    ∷ []

acme_found : lookup "acme" control.plane.tenants ≡ some acme
unfolding lookup
acme_found = refl

answers-IsCurated_example : IsCurated "acme" control (answers settings requests control)
unfolding is_platform_admin
answers-IsCurated_example = answers-IsCurated settings "acme" requests control acme acme_found refl

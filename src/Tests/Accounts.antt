-- ===== src/Tests/Accounts.antt =====
-- Managed users, the console and the presets at concrete inputs.
use m_gate.Prelude.{
  List, [], all, ap, false, insert, length, lookup, ltb, none, refl, some, suc, true, zero, ℕ, ◌∷◌,
  ◌≡◌, string_eq, nat_eq, pair_eq,
}
use m_gate.Authorization.{decide}
use m_gate.Catalog.{CatalogTool}
use m_gate.Console.{
  Caller, Directory, delete_managed_user, load_managed_user, require_tenant_writable,
  update_managed_user,
}
use m_gate.Console.KillSwitch.{deleted-forward, disabled-refused}
use m_gate.Passwords.{Crypto, encoded, verify_password}
use m_gate.Rbac.{Visit, door, is_data_plane, requires_admin_principal}
use m_gate.Rbac.Door.{is_forward}
use m_gate.Tenant.Cache.{read}
use m_gate.Tenant.Status.{get_tenant_read_only, stored_read_only}
use m_gate.Tenant.Store.{ToolPolicy}
use m_gate.Tests.Fixtures.{plane, send, settings}
use m_gate.Users.{
  Draft, Patch, PublicUser, User, Users, authenticate, create_user, new_user, public_user,
  update_user, updated,
}
use m_gate.Users.Presets.{decide-team_may_call, team_may_call}
use m_gate.Users.Scopes.{derive_safe_scopes, team_user_roles}
use m_gate.Users.SignIn.{authenticate-create_user}
use m_gate.Users.Unique.{UniqueEmails, create, remove, update, writes, writes-UniqueEmails}

abbrev zeros : ℕ → List ℕ
zeros zero = []
zeros (suc n) = 0 ∷ zeros n

-- A derivation that gives as many bytes as it is asked for.
abbrev pub crypto : Crypto
crypto = record {
  pbkdf2_hmac = λ password salt n dklen. zeros dklen;
  token_bytes = λ password. 7 ∷ 255 ∷ [];
}

abbrev pub ann : User
ann = record {
  tenant_id = "acme";
  email = "ann@acme.io";
  password_hash = "secret-pass";
  roles = "user" ∷ "tool:invoke" ∷ [];
  scopes = "mail:send" ∷ [];
  status = some "active";
  self_registered = false;
  label = none;
  client = none;
  created_at = 0;
  updated_at = 0;
  created_by = none;
}

abbrev pub boss : Caller
boss = record {
  tenant_id = "acme";
  user_id = "boss@acme.io";
  roles = "user" ∷ "admin" ∷ [];
  header_tenant = none;
}

abbrev pub directory : Directory
directory = record {
  plane = plane;
  users = ("u1", ann) ∷ [];
  sessions =
      (("acme", "ann@acme.io"), record { status = some "active"; roles = some ann.roles }) ∷ [];
}

abbrev pub bob : Draft
bob = record {
  email = " Bob@acme.io ";
  password = "another-pass";
  tenant_id = "";
  roles = "user" ∷ [];
  scopes = [];
  status = "active";
  created_by = some "boss@acme.io";
  self_registered = false;
  label = none;
  client = none;
}

abbrev pub disable : Patch
disable = record { password = none; roles = none; scopes = none; status = some "disabled" }

nobody : UniqueEmails []
unfolding lookup
nobody i j u v left right same = cc

writes-UniqueEmails_example : UniqueEmails (
    writes crypto
      (create "u2" bob 5 ∷ create "u3" bob 6 ∷ update "u2" disable 7 ∷ remove "u1" ∷ [])
      [])
writes-UniqueEmails_example =
    writes-UniqueEmails crypto
      (create "u2" bob 5 ∷ create "u3" bob 6 ∷ update "u2" disable 7 ∷ remove "u1" ∷ []) [] nobody

-- A request for a tool with the identity of the user, and the token that the user got before.
abbrev visit : Visit
visit = record {
  path = "/mcp";
  method = "POST";
  is_admin_principal = false;
  is_read_only_principal = false;
  admin_auth_via_cookie = false;
  csrf_header = none;
  csrf_cookie = none;
  tenant_id = "acme";
  user_id = "ann@acme.io";
  roles = "user" ∷ "tool:invoke" ∷ [];
}

abbrev disabled_ann : PublicUser
unfolding public_user
disabled_ann = public_user "u1" (updated none disable 9 ann)

abbrev after_disable : Directory
unfolding update_managed_user
after_disable = (update_managed_user settings crypto boss "u1" disable 9 9 directory).1

disabled-refused_example : is_forward (door settings after_disable.sessions visit) ≡ false
unfolding update_managed_user is_data_plane load_managed_user lookup require_tenant_writable
    get_tenant_read_only read stored_read_only update_user
disabled-refused_example =
    disabled-refused settings visit refl crypto boss "u1" 9 9 directory after_disable disable
      disabled_ann "disabled" refl refl refl refl refl refl refl

abbrev after_delete : Directory
unfolding delete_managed_user
after_delete = (delete_managed_user settings boss "u1" 9 directory).1

deleted-forward_example : is_forward (door settings after_delete.sessions visit) ≡ true
unfolding delete_managed_user is_data_plane load_managed_user lookup require_tenant_writable
    get_tenant_read_only read stored_read_only requires_admin_principal
deleted-forward_example =
    deleted-forward settings visit refl crypto boss "u1" 9 9 directory after_delete ann refl refl
      refl refl refl refl refl

-- A catalog with one tool that only reads and one that writes.
abbrev read_mail : CatalogTool
read_mail = record send {
  name = "read";
  scopes = "mail:read" ∷ [];
  metadata = record send.metadata { action_type = some " Read " };
}

abbrev uncurated : ToolPolicy
uncurated = record { allowlist = []; disabled_tools = []; max_tools = 0 }

decide-team_may_call_example :
    (decide read_mail uncurated "mail" "read"
      (derive_safe_scopes (read_mail ∷ send ∷ []))
      team_user_roles).allowed
    ≡ team_may_call (read_mail ∷ send ∷ []) uncurated "mail" "read" read_mail
decide-team_may_call_example =
    decide-team_may_call (read_mail ∷ send ∷ []) uncurated "mail" "read" read_mail

zeros-bytes : (n : ℕ) → all (λ b. ltb b 256) (zeros n) ≡ true
zeros-bytes zero = refl
zeros-bytes (suc n) = zeros-bytes n

length-zeros : (n : ℕ) → length (zeros n) ≡ n
length-zeros zero = refl
length-zeros (suc n) = ap suc (length-zeros n)

abbrev bob_shown : PublicUser
unfolding public_user new_user
bob_shown = public_user "u2" (new_user (encoded crypto bob.password) bob 5)

abbrev with_bob : Users
unfolding new_user
with_bob = insert "u2" (new_user (encoded crypto bob.password) bob 5) directory.users

authenticate-create_user_example :
    authenticate crypto " Bob@acme.io " "another-pass" with_bob ≡ some bob_shown
unfolding create_user lookup bob_shown with_bob insert
authenticate-create_user_example =
    authenticate-create_user crypto "u2" bob 5 directory.users with_bob bob_shown refl refl refl
      (λ n dklen. zeros-bytes dklen) (λ n dklen. length-zeros dklen)

-- A text that is no encoding is refused.
malformed_run : verify_password crypto "secret-pass" "secret-pass" ≡ false
unfolding verify_password
malformed_run = refl

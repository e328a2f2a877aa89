-- ===== src/Users.antt =====
-- services/users.py: the managed users of the control database, and the
-- documents of `session_context` that mirror them for the door.
pub mod Writes
pub mod Unique
pub mod SignIn
pub mod Scopes
pub mod Presets
use m_gate.Prelude.{
  Bool, Dict, List, Option, Result, String, [], delete, err, false, find_and_modify, if◌then◌else◌,
  insert, lookup, lower, none, not, ok, or_default, some, strip, true, ℕ, ◌==◌, ◌>>=◌, ◌||◌, ◌∷◌,
  string_eq, nat_eq, pair_eq,
}
use m_gate.Passwords.{Crypto, encoded, verify_password}
use m_gate.Rbac.{Session}
use m_gate.Tenant.Tier.Caps.{normalized}

-- A document of `users`; `none` is a field that is not set.
pub record User : Type 0 where
  pub tenant_id : String
  pub email : String
  pub password_hash : String
  pub roles : List String
  pub scopes : List String
  pub status : Option String
  pub self_registered : Bool
  pub label : Option String
  pub client : Option String
  pub created_at : ℕ
  pub updated_at : ℕ
  pub created_by : Option String

-- `users` by `_id`.
abbrev pub Users : Type 0
Users = Dict String User

-- `session_context` by tenant and user.
abbrev pub Sessions : Type 0
Sessions = Dict (String × String) Session

-- UserError, its two subclasses, the `ValueError` of an empty password, and the unique `_id`.
pub data UserError : Type 0 where
  email_required user_already_exists user_not_found empty_password duplicate_key : UserError

-- `hash_password`, whose `ValueError` is one of these.
unfoldable pub hash_password : Crypto → String → Result UserError String
unfolding encoded
hash_password crypto password =
    if password == "" then err empty_password else ok (encoded crypto password)

unfoldable pub normalize_email : String → String
unfolding strip lower
normalize_email email = lower (strip email)

-- What the API shows of a user: all but the hash, with the id.
pub record PublicUser : Type 0 where
  pub id : String
  pub tenant_id : String
  pub email : String
  pub roles : List String
  pub scopes : List String
  pub status : String
  pub self_registered : Bool
  pub label : Option String
  pub client : Option String
  pub created_at : ℕ
  pub updated_at : ℕ
  pub created_by : Option String

-- `str(doc.get("status", "active"))`
abbrev pub status_of : User → String
status_of doc = elim doc.status [ none ↦ "active" | some s ↦ s ]

abbrev nonempty : Option String → Option String
nonempty none = none
nonempty (some s) = if s == "" then none else some s

unfoldable pub public_user : String → User → PublicUser
public_user id doc = record {
  id = id;
  tenant_id = doc.tenant_id;
  email = doc.email;
  roles = doc.roles;
  scopes = doc.scopes;
  status = status_of doc;
  self_registered = doc.self_registered;
  label = nonempty doc.label;
  client = nonempty doc.client;
  created_at = doc.created_at;
  updated_at = doc.updated_at;
  created_by = doc.created_by;
}

-- `find_one({"email": normalized})`
unfoldable pub find_by_email : String → Users → Option (String × User)
find_by_email email [] = none
find_by_email email ((id, doc) ∷ rest) =
    if doc.email == email then some (id, doc) else find_by_email email rest

unfoldable pub find_user_by_email : String → Users → Option (String × User)
unfolding normalize_email find_by_email
find_user_by_email email users = find_by_email (normalize_email email) users

-- The arguments of `create_user`.
pub record Draft : Type 0 where
  pub email : String
  pub password : String
  pub tenant_id : String
  pub roles : List String
  pub scopes : List String
  pub status : String
  pub created_by : Option String
  pub self_registered : Bool
  pub label : Option String
  pub client : Option String

-- `label.strip() if isinstance(label, str) and label.strip() else None`
abbrev clean_text : Option String → Option String
unfolding strip
clean_text none = none
clean_text (some s) = nonempty (some (strip s))

unfoldable pub new_user : String → Draft → ℕ → User
unfolding normalize_email clean_text
new_user hash draft wall = record {
  tenant_id = draft.tenant_id;
  email = normalize_email draft.email;
  password_hash = hash;
  roles = draft.roles;
  scopes = draft.scopes;
  status = some draft.status;
  self_registered = draft.self_registered;
  label = clean_text draft.label;
  client = clean_text draft.client;
  created_at = wall;
  updated_at = wall;
  created_by = draft.created_by;
}

-- `insert_one`, which refuses an `_id` that is there.
unfoldable pub insert_one : String → User → Users → Result UserError (PublicUser × Users)
unfolding public_user
insert_one id doc users = elim (lookup id users) [
  | some old ↦ err duplicate_key
  | none ↦ ok (public_user id doc, insert id doc users)
]

-- `id` is `uuid4().hex`.
unfoldable pub create_user :
    Crypto → String → Draft → ℕ → Users → Result UserError (PublicUser × Users)
unfolding normalize_email find_by_email hash_password insert_one
create_user crypto id draft wall users =
    let normalized = normalize_email draft.email in
    if normalized == "" then err email_required else elim (find_by_email normalized users) [
      | some existing ↦ err user_already_exists
      | none ↦ hash_password crypto draft.password >>= λ hash.
          insert_one id (new_user hash draft wall) users
    ]

-- The arguments of `update_user`; `none` leaves a field as it is.
pub record Patch : Type 0 where
  pub password : Option String
  pub roles : Option (List String)
  pub scopes : Option (List String)
  pub status : Option String

abbrev pub given {ℓ} : {A : Type ℓ} → Option A → A → A
given none old = old
given (some new) old = new

abbrev pub set_status : Option String → Option String → Option String
set_status none old = old
set_status (some new) old = some new

abbrev pub updated : Option String → Patch → ℕ → User → User
updated hash patch wall doc = record doc {
  password_hash = given hash doc.password_hash;
  roles = given patch.roles doc.roles;
  scopes = given patch.scopes doc.scopes;
  status = set_status patch.status doc.status;
  updated_at = wall;
}

abbrev pub new_hash : Crypto → Option String → Result UserError (Option String)
unfolding hash_password
new_hash crypto none = ok none
new_hash crypto (some password) = hash_password crypto password >>= λ hash. ok (some hash)

abbrev pub reread : String → Option User × Users → Result UserError (PublicUser × Users)
unfolding public_user
reread id (none, users) = err user_not_found
reread id (some doc, users) = ok (public_user id doc, users)

unfoldable pub update_user :
    Crypto → String → Patch → ℕ → Users → Result UserError (PublicUser × Users)
unfolding new_hash reread
update_user crypto id patch wall users = new_hash crypto patch.password >>= λ hash.
    reread id (find_and_modify id (updated hash patch wall) users)

unfoldable pub sync_session_context : PublicUser → Sessions → Sessions
sync_session_context user sessions =
    if (user.tenant_id == "") || (user.email == "")
    then sessions
    else insert (user.tenant_id, user.email)
        (record { status = some (or_default (some user.status) "active"); roles = some user.roles })
        sessions

unfoldable pub clear_session_context : String → String → Sessions → Sessions
clear_session_context tenant user sessions =
    if (tenant == "") || (user == "") then sessions else delete (tenant, user) sessions

unfoldable pub delete_user : String → Users → Sessions → Bool × Users × Sessions
unfolding clear_session_context
delete_user id users sessions = elim (lookup id users) [
  | none ↦ (false, users, sessions)
  | some doc ↦ (true, delete id users, clear_session_context doc.tenant_id doc.email sessions)
]

unfoldable pub authenticate : Crypto → String → String → Users → Option PublicUser
unfolding find_user_by_email verify_password public_user
authenticate crypto email password users = elim (find_user_by_email email users) [
  | none ↦ none
  | some (id, doc) ↦
      if not (status_of doc == "active")
      then none
      else if not (verify_password crypto password doc.password_hash)
      then none
      else some (public_user id doc)
]

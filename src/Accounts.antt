-- ===== src/Accounts.antt =====
-- app/services/auth_service.py: accounts and their password resets, over the two collections that it
-- keeps. Hashes, random tokens, the ids of new documents and the clock are arguments; the fields that
-- no operation reads are left out.
pub mod Resets
pub mod Reachable
pub mod Session
mod Examples
use control_gate_backend.Prelude.{
  ℕ, zero, suc, String, Bool, true, false, not, ◌+◌, ◌*◌, ◌&&◌, ◌||◌, Option, none, some, List, [],
  ◌∷◌, ◌++◌, map, ltb, leb, ◌==◌, if◌then◌else◌, str_eq, get_or, any, find_one, update_one,
  text_append, is_truthy,
}
use control_gate_backend.Prelude.Dict.{contains}

pub record User : Type 0 where
  pub id : ℕ
  pub email : String
  pub hashed_password : Option String
  pub full_name : Option String
  pub role : Option String
  pub is_active : Bool
  pub oauth : Option (String × String)  -- `oauth_provider` and `oauth_sub`
  pub updated_at : ℕ

pub record PasswordReset : Type 0 where
  pub id : ℕ
  pub user_id : ℕ
  pub token_hash : String
  pub expires_at : ℕ
  pub used_at : Option ℕ

-- The collections `users` and `password_resets`.
pub record Db : Type 0 where
  pub users : List User
  pub password_resets : List PasswordReset

pub data Failure : Type 0 where
  email_taken : Failure  -- `ConflictException`
  invalid_role : Failure  -- `ValueError`
  bad_credentials inactive bad_token : Failure  -- `AuthenticationException`

-- What an operation raises, or the collections after it and its value.
pub data Outcome (A : Type 0) : Type 0 where
  raised : Failure → Outcome A
  returned : Db → A → Outcome A

abbrev pub with_users : List User → Db → Db
with_users us db = record { users = us; password_resets = db.password_resets }

abbrev pub with_resets : List PasswordReset → Db → Db
with_resets rs db = record { users = db.users; password_resets = rs }

-- `find_one({"email": email})`
abbrev pub user_by_email : String → List User → Option User
user_by_email email us = find_one (λ u. str_eq u.email email) us

abbrev pub valid_roles : List String
valid_roles = "admin" ∷ "premium" ∷ "normal" ∷ []

-- `full_name or None`
abbrev pub or_none : Option String → Option String
or_none none = none
or_none (some t) = if str_eq t "" then none else some t

-- `insert_one` of a new user
abbrev pub add_user : User → Db → Db
add_user u db = with_users (db.users ++ u ∷ []) db

abbrev new_user :
    ℕ → String → Option String → Option String → String → Option (String × String) → ℕ → User
new_user id email hash full_name role oauth now = record {
  id = id;
  email = email;
  hashed_password = hash;
  full_name = or_none full_name;
  role = some role;
  is_active = true;
  oauth = oauth;
  updated_at = now;
}

-- `register`, with the hash of the password and the id of the new document
unfoldable pub register : ℕ → ℕ → Db → String → String → Option String → String → Outcome User
register now new_id db email password_hash full_name role =
    let u = new_user new_id email (some password_hash) full_name role none now in
    elim (user_by_email email db.users) [
      | some existing ↦ raised email_taken
      | none ↦ if contains valid_roles role then returned (add_user u db) u else raised invalid_role
    ]

-- `authenticate`
unfoldable pub authenticate : (String → Option String → Bool) → Db → String → String → Outcome User
authenticate verify_password db email password = elim (user_by_email email db.users) [
  | none ↦ raised bad_credentials
  | some u ↦
      if not (verify_password password u.hashed_password)
      then raised bad_credentials
      else if u.is_active
      then returned db u
      else raised inactive
]

-- The role that the token and the public view of a user state.
abbrev pub role_of : User → String
role_of u = get_or u.role "normal"

abbrev link_oauth : String → String → ℕ → User → User
link_oauth provider sub now u = record {
  id = u.id;
  email = u.email;
  hashed_password = u.hashed_password;
  full_name = u.full_name;
  role = u.role;
  is_active = u.is_active;
  oauth = some (provider, sub);
  updated_at = now;
}

-- The body of the two operations below.
unfoldable pub get_or_create : String → ℕ → ℕ → Db → String → Option String → String → Outcome User
get_or_create provider now new_id db email full_name sub =
    let u = new_user new_id email none full_name "normal" (some (provider, sub)) now in
    elim (user_by_email email db.users) [
      | some existing ↦
          returned
            (with_users
              (update_one (λ v. v.id == existing.id) (link_oauth provider sub now) db.users) db)
            (link_oauth provider sub now existing)
      | none ↦ returned (add_user u db) u
    ]

abbrev pub get_or_create_google_user : ℕ → ℕ → Db → String → Option String → String → Outcome User
get_or_create_google_user = get_or_create "google"

abbrev pub get_or_create_github_user : ℕ → ℕ → Db → String → Option String → String → Outcome User
get_or_create_github_user = get_or_create "github"

-- ===== src/Accounts/Examples.antt =====
-- app/services/auth_service.py: a user who registers, resets the password and logs in and out.
use control_gate_backend.Prelude.{
  if◌then◌else◌, leb, ℕ, String, Bool, true, false, ◌≡◌, refl, arith, Option, none, some, [], ◌∷◌,
  str_eq,
}
use control_gate_backend.Accounts.{
  User, Db, raised, returned, bad_credentials, register, authenticate, get_or_create,
}
use control_gate_backend.Accounts.Resets.{request_password_reset, reset_password, set_password}
use control_gate_backend.Accounts.Resets.Flow.{
  reset_password-authenticate, get_or_create-authenticate,
}
use control_gate_backend.Accounts.Reachable.{
  IsStep, IsReachable, start, next, registered, requested, IsConsistent, reachable-IsConsistent,
}
use control_gate_backend.Accounts.Session.{Claims, Sessions}

abbrev ada : User
ada = record {
  id = 1;
  email = "ada@example.org";
  hashed_password = some "h1";
  full_name = none;
  role = some "normal";
  is_active = true;
  oauth = none;
  updated_at = 10;
}

abbrev empty : Db
empty = record { users = []; password_resets = [] }

abbrev one_user : Db
one_user = record { users = ada ∷ []; password_resets = [] }

registers : register 10 1 empty "ada@example.org" "h1" none "normal" ≡ returned one_user ada
unfolding register
registers = refl

abbrev one_user-IsReachable : IsReachable one_user
one_user-IsReachable =
    next empty one_user start
      (registered 10 1 empty one_user "ada@example.org" "h1" none "normal" ada refl registers)

abbrev asked : Db
asked = record {
  users = ada ∷ [];
  password_resets =
      record { id = 7; user_id = 1; token_hash = "t"; expires_at = 1820; used_at = none } ∷ [];
}

asks : request_password_reset 30 20 7 one_user "ada@example.org" "t" ≡ asked
unfolding request_password_reset
asks = refl

abbrev asked-IsStep :
    IsStep one_user (request_password_reset 30 20 7 one_user "ada@example.org" "t")
asked-IsStep = requested 30 20 7 one_user "ada@example.org" "t" refl refl

asked-IsReachable : IsReachable asked
unfolding request_password_reset
asked-IsReachable = next one_user asked one_user-IsReachable asked-IsStep

abbrev renewed : Db
renewed = record {
  users = set_password "h2" 30 ada ∷ [];
  password_resets =
      record { id = 7; user_id = 1; token_hash = "t"; expires_at = 1820; used_at = some 30 } ∷ [];
}

-- A password is its own hash.
abbrev verify_password : String → Option String → Bool
verify_password password none = false
verify_password password (some hash) = str_eq hash password

reachable-IsConsistent_example : IsConsistent asked
reachable-IsConsistent_example = reachable-IsConsistent asked asked-IsReachable

reset_password-authenticate_example :
    (db' : Db) × (reset_password 30
        (request_password_reset 30 20 7 one_user "ada@example.org" "t")
        "t"
        "h2"
      ≡ returned db' tt)
    × (authenticate verify_password db' "ada@example.org" "h2"
        ≡ returned db' (set_password "h2" 30 ada))
reset_password-authenticate_example =
    reset_password-authenticate verify_password 30 20 30 7 one_user "ada@example.org" "t" "h2" "h2"
      ada one_user-IsReachable refl refl refl (omega arith) refl

abbrev octo : User
octo = record {
  id = 2;
  email = "octo@example.org";
  hashed_password = none;
  full_name = none;
  role = some "normal";
  is_active = true;
  oauth = some ("github", "42");
  updated_at = 50;
}

abbrev two_users : Db
two_users = record { users = ada ∷ octo ∷ []; password_resets = [] }

joins : get_or_create "github" 50 2 one_user "octo@example.org" none "42" ≡ returned two_users octo
unfolding get_or_create
joins = refl

get_or_create-authenticate_example :
    authenticate verify_password two_users "octo@example.org" "h1" ≡ raised bad_credentials
get_or_create-authenticate_example =
    get_or_create-authenticate verify_password "github" 50 2 one_user two_users "octo@example.org"
      none "42" octo "h1" refl refl joins

abbrev claims : String → Claims
claims jti = record { jti = some jti; sub = some "1"; exp = some 900 }

-- Tokens whose text is their id, and which expire at 900.
abbrev decode : ℕ → String → Option Claims
decode now token = if leb now 900 then some (claims token) else none

abbrev sessions : Sessions
sessions = record { users = ada ∷ []; token_revocations = [] }

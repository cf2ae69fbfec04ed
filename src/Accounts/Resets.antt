-- ===== src/Accounts/Resets.antt =====
-- app/services/auth_service.py: the password resets.
pub mod Single
pub mod Flow
use control_gate_backend.Prelude.{
  ℕ, String, Bool, true, false, not, ◌+◌, ◌*◌, ◌&&◌, Option, none, some, List, [], ◌∷◌, ◌++◌, ltb,
  ◌==◌, if◌then◌else◌, str_eq, find_one, update_one, text_append, is_some,
}
use control_gate_backend.Accounts.{
  User, PasswordReset, Db, Failure, Outcome, raised, returned, bad_token, with_users, with_resets,
  user_by_email,
}

-- `_hash_reset_token`, over SHA-256
abbrev pub hash_reset_token : (String → String) → String → String → String
hash_reset_token sha256 jwt_secret token = sha256 (text_append token jwt_secret)

abbrev new_reset : ℕ → ℕ → String → ℕ → PasswordReset
new_reset id user_id token_hash expires_at = record {
  id = id;
  user_id = user_id;
  token_hash = token_hash;
  expires_at = expires_at;
  used_at = none;
}

-- `request_password_reset` up to the mail that it sends, with the hash of its random token
unfoldable pub request_password_reset : ℕ → ℕ → ℕ → Db → String → String → Db
request_password_reset expire_minutes now new_id db email token_hash =
    elim (user_by_email email db.users) [
      | none ↦ db
      | some u ↦
          with_resets
            (db.password_resets
              ++ new_reset new_id u.id token_hash (now + expire_minutes * 60) ∷ [])
            db
    ]

-- The query of the two operations below.
abbrev pub is_usable : ℕ → String → PasswordReset → Bool
is_usable now token_hash r =
    str_eq r.token_hash token_hash && not (is_some r.used_at) && ltb now r.expires_at

abbrev pub usable_reset : ℕ → String → Db → Option PasswordReset
usable_reset now token_hash db = find_one (is_usable now token_hash) db.password_resets

abbrev pub set_password : String → ℕ → User → User
set_password hash now u = record {
  id = u.id;
  email = u.email;
  hashed_password = some hash;
  full_name = u.full_name;
  role = u.role;
  is_active = u.is_active;
  oauth = u.oauth;
  updated_at = now;
}

abbrev pub mark_used : ℕ → PasswordReset → PasswordReset
mark_used now r = record {
  id = r.id;
  user_id = r.user_id;
  token_hash = r.token_hash;
  expires_at = r.expires_at;
  used_at = some now;
}

-- the two writes of `reset_password`
abbrev pub after_reset : ℕ → String → PasswordReset → Db → Db
after_reset now password_hash r db = record {
  users = update_one (λ u. u.id == r.user_id) (set_password password_hash now) db.users;
  password_resets = update_one (λ s. s.id == r.id) (mark_used now) db.password_resets;
}

-- `reset_password`, with the hashes of the token and of the new password
unfoldable pub reset_password : ℕ → Db → String → String → Outcome Unit
reset_password now db token_hash password_hash = elim (usable_reset now token_hash db) [
  | none ↦ raised bad_token
  | some r ↦ returned (after_reset now password_hash r db) tt
]

-- `validate_reset_token`
unfoldable pub validate_reset_token : ℕ → Db → String → Bool
validate_reset_token now db token_hash = is_some (usable_reset now token_hash db)

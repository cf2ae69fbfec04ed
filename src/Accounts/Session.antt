-- ===== src/Accounts/Session.antt =====
-- app/api/deps.py and the route `logout` of app/api/routes/auth.py: who a bearer token
-- speaks for. Decoding a token and parsing an object id are libraries, and arguments here.
pub mod Lasting
use control_gate_backend.Prelude.{
  ℕ, String, Bool, true, false, ◌≡◌, Option, none, some, List, [], ◌∷◌, ◌++◌, ◌==◌, if◌then◌else◌,
  str_eq, find_one, any, filter, ltb, arith, refl, eq_iff, any-append, Bool-cases, inl, inr,
}
use control_gate_backend.Prelude.Dict.{contains}
use control_gate_backend.Accounts.{User}

-- What the code reads of a decoded token.
pub record Claims : Type 0 where
  pub jti : Option String
  pub sub : Option String
  pub exp : Option ℕ

-- The answers of `get_current_user`, each with its status 401.
pub data Refusal : Type 0 where
  not_authenticated invalid_token revoked invalid_payload user_not_found account_inactive : Refusal

pub data Caller : Type 0 where
  refused : Refusal → Caller
  accepted : User → Caller

-- One document of `token_revocations`, by the second at which it expires.
pub record Revocation : Type 0 where
  pub jti : String
  pub expires_at : ℕ

-- The collections that a session reads.
pub record Sessions : Type 0 where
  pub users : List User
  pub token_revocations : List Revocation

-- the truth of a text that may be missing
abbrev present : Option String → Option String
present none = none
present (some t) = if str_eq t "" then none else some t

abbrev pub is_revoked : List Revocation → Option String → Bool
is_revoked revocations none = false
is_revoked revocations (some j) = any (λ r. str_eq r.jti j) revocations

abbrev of_user : Option User → Caller
of_user none = refused user_not_found
of_user (some u) = if u.is_active then accepted u else refused account_inactive

abbrev of_id : List User → Option ℕ → Caller
of_id us none = refused invalid_payload
of_id us (some id) = of_user (find_one (λ u. u.id == id) us)

abbrev of_sub : (String → Option ℕ) → List User → Option String → Caller
of_sub to_object_id us none = refused invalid_payload
of_sub to_object_id us (some s) = of_id us (to_object_id s)

abbrev of_claims : (String → Option ℕ) → Sessions → Claims → Caller
of_claims to_object_id db c =
    if is_revoked db.token_revocations (present c.jti)
    then refused revoked
    else of_sub to_object_id db.users (present c.sub)

-- `update_one` by the `jti`, with `upsert`
upsert_revocation : String → ℕ → List Revocation → List Revocation
upsert_revocation j expires_at [] = record { jti = j; expires_at = expires_at } ∷ []
upsert_revocation j expires_at (r ∷ rs) =
    if str_eq r.jti j
    then record { jti = r.jti; expires_at = expires_at } ∷ rs
    else r ∷ upsert_revocation j expires_at rs

abbrev revoke : String → ℕ → Sessions → Sessions
revoke j expires_at db = record {
  users = db.users;
  token_revocations = upsert_revocation j expires_at db.token_revocations;
}

-- The index on `expires_at` with `expireAfterSeconds=0`: what the database deletes at a time.
expire : ℕ → Sessions → Sessions
expire now db = record {
  users = db.users;
  token_revocations = filter (λ r. ltb now r.expires_at) db.token_revocations;
}

-- `datetime.fromtimestamp`, which raises on a number out of its range, is `from_timestamp`; `stored`
-- says whether the write goes through. Both errors end in `except Exception: pass`.
module _ (from_timestamp : ℕ → Option ℕ) where
  revoke_expiring : Bool → String → ℕ → Sessions → Sessions
  unfolding upsert_revocation
  revoke_expiring stored j e db = elim (from_timestamp e) [
    | none ↦ db
    | some expires_at ↦ if stored then revoke j expires_at db else db
  ]

  revoke_claims : Bool → Claims → Sessions → Sessions
  unfolding revoke_expiring
  revoke_claims stored c db = elim (present c.jti) [
    | none ↦ db
    | some j ↦ elim c.exp [
      | none ↦ db
      | some e ↦ if e == 0 then db else revoke_expiring stored j e db
    ]
  ]

-- What may happen to the collections between two requests.
pub data Event : Type 0 where
  logged_out : ℕ → ℕ → Bool → Option String → Event
  expired : ℕ → Event
  users_changed : List User → Event

-- `decode_token` reads the clock, since it refuses an expired token.
module _ (decode_token : ℕ → String → Option Claims) (to_object_id : String → Option ℕ) where
  -- `get_current_user`
  unfoldable pub get_current_user : ℕ → Sessions → Option String → Caller
  get_current_user now db none = refused not_authenticated
  get_current_user now db (some token) = elim (decode_token now token) [
    | none ↦ refused invalid_token
    | some c ↦ of_claims to_object_id db c
  ]

module _ (decode_token : ℕ → String → Option Claims) (to_object_id : String → Option ℕ)
    (from_timestamp : ℕ → Option ℕ) where
  -- `logout`, which first needs a user, and decodes the token again at `later`
  pub logout : ℕ → ℕ → Bool → Sessions → Option String → Sessions × Caller
  unfolding get_current_user revoke_claims
  logout now later stored db none = (db, refused not_authenticated)
  logout now later stored db (some token) =
      elim (get_current_user decode_token to_object_id now db (some token)) [
        | refused r ↦ (db, refused r)
        | accepted u ↦ elim (decode_token later token) [
          | none ↦ (db, accepted u)
          | some c ↦ (revoke_claims from_timestamp stored c db, accepted u)
        ]
      ]

  happen : Event → Sessions → Sessions
  unfolding logout expire
  happen (logged_out now later stored token) db = (logout now later stored db token).0
  happen (expired now) db = expire now db
  happen (users_changed users) db = record {
    users = users;
    token_revocations = db.token_revocations;
  }

  pub happen_all : List Event → Sessions → Sessions
  unfolding happen
  happen_all [] db = db
  happen_all (event ∷ events) db = happen_all events (happen event db)

-- ===== src/Accounts/Resets/Flow.antt =====
-- app/services/auth_service.py: a reset that is asked for, used in time, and followed by a login.
use control_gate_backend.Prelude.{
  ℕ, String, Bool, true, false, ◌≡◌, ◌<◌, ◌+◌, ◌*◌, Option, none, some, List, [], ◌∷◌, ◌++◌, ◌==◌,
  str_eq, eq_iff, find_one, update_one, arith, refl, sym, Bool-cases, inl, inr,
}
use control_gate_backend.Accounts.{
  User, PasswordReset, Db, raised, returned, bad_credentials, user_by_email, authenticate,
  get_or_create, add_user, new_user,
}
use control_gate_backend.Accounts.Resets.{
  new_reset, request_password_reset, reset_password, is_usable, set_password, after_reset,
}
use control_gate_backend.Accounts.Reachable.{
  has_user_id, has_token, AreDistinctUsers, IsReachable, reachable-IsConsistent,
}

-- A token that no reset has is found where it is added.
find-added :
    (now : ℕ) (hash : String) (rs : List PasswordReset) (r : PasswordReset)
    → has_token hash rs ≡ false
    → is_usable now hash r ≡ true
    → find_one (is_usable now hash) (rs ++ r ∷ []) ≡ some r
find-added now hash [] r h k = rw k refl
find-added now hash (s ∷ rs) r h k = ground (arith, find-added now hash rs r)

user-has_id :
    (email : String) (us : List User) (u : User)
    → user_by_email email us ≡ some u
    → has_user_id u.id us ≡ true
user-has_id email [] u h = absurd cc
user-has_id email (v ∷ us) u h = elim (Bool-cases (str_eq v.email email)) [
  | inl e ↦
      let got : some v ≡ some u = rw e at h in let same : v ≡ u = cc in rw (sym same) (ground arith)
  | inr e ↦ ground (arith, user-has_id email us u (rw e at h))
]

apart_user :
    (i j : ℕ) (us : List User)
    → has_user_id i us ≡ false
    → has_user_id j us ≡ true
    → (i == j) ≡ false
apart_user i j [] h k = absurd cc
apart_user i j (u ∷ us) h k = ground (arith, apart_user i j us)

-- The user with the address has the new password.
find-set_password :
    (now : ℕ) (email hash : String) (us : List User) (u : User)
    → AreDistinctUsers us
    → user_by_email email us ≡ some u
    → user_by_email email (update_one (λ v. v.id == u.id) (set_password hash now) us)
      ≡ some (set_password hash now u)
find-set_password now email hash [] u d h = absurd cc
find-set_password now email hash (v ∷ us) u (id_v, email_v, d) h =
    elim (Bool-cases (str_eq v.email email)) [
      | inl e ↦
          let got : some v ≡ some u = rw e at h in
          let same : v ≡ u = cc in
          let hit : (v.id == v.id) ≡ true = ground arith in rw (sym same) (rw hit (rw e refl))
      | inr e ↦
          let found : user_by_email email us ≡ some u = rw e at h in
          let miss = apart_user v.id u.id us id_v (user-has_id email us u found) in
          rw miss (rw e (find-set_password now email hash us u d found))
    ]

-- Where the operations reached the state, an active user who asks for a reset and uses its new token in
-- time can log in with the new password: `reset_password` returns, and `authenticate` then returns the
-- user. `verify_password` is assumed to accept the new password against its hash.
pub reset_password-authenticate :
    (verify_password : String → Option String → Bool) (minutes now later id : ℕ) (db : Db)
    (email token_hash password_hash password : String) (u : User)
    → IsReachable db
    → user_by_email email db.users ≡ some u
    → u.is_active ≡ true
    → has_token token_hash db.password_resets ≡ false
    → later < now + minutes * 60
    → verify_password password (some password_hash) ≡ true
    → (db' : Db) × (reset_password later
          (request_password_reset minutes now id db email token_hash)
          token_hash
          password_hash
        ≡ returned db' tt)
      × (authenticate verify_password db' email password
          ≡ returned db' (set_password password_hash later u))
unfolding reset_password request_password_reset authenticate
reset_password-authenticate verify_password minutes now later id db email token_hash password_hash
      password u reach known active new in_time verified =
    let r = new_reset id u.id token_hash (now + minutes * 60) in
    let db1 : Db = record { users = db.users; password_resets = db.password_resets ++ r ∷ [] } in
    let asked : request_password_reset minutes now id db email token_hash ≡ db1 =
      rw (request_password_reset, known) refl in
    let usable : is_usable later token_hash r ≡ true =
      ground (arith, eq_iff token_hash token_hash) in
    let found = find-added later token_hash db.password_resets r new usable in
    let db2 = after_reset later password_hash r db1 in
    let distinct = reachable-IsConsistent db reach in
    let owner = find-set_password later email password_hash db.users u distinct.users known in
    (
      db2,
      rw asked (rw (reset_password, found) refl),
      rw (authenticate, owner) (rw (verified, active) refl),
    )

find-last :
    (email : String) (us : List User) (u : User)
    → user_by_email email us ≡ none
    → str_eq u.email email ≡ true
    → user_by_email email (us ++ u ∷ []) ≡ some u
find-last email [] u h k = rw k refl
find-last email (v ∷ us) u h k = ground (arith, find-last email us u)

-- An account that an OAuth login creates has no password: where `verify_password` accepts nothing
-- against a missing hash, `authenticate` raises for it whatever the password.
pub get_or_create-authenticate :
    (verify_password : String → Option String → Bool) (provider : String) (now id : ℕ) (db db' : Db)
    (email : String) (name : Option String) (sub : String) (u : User) (password : String)
    → verify_password password none ≡ false
    → user_by_email email db.users ≡ none
    → get_or_create provider now id db email name sub ≡ returned db' u
    → authenticate verify_password db' email password ≡ raised bad_credentials
unfolding get_or_create authenticate
get_or_create-authenticate verify_password provider now id db db' email name sub u password refused
      unknown done =
    let v = new_user id email none name "normal" (some (provider, sub)) now in
    let made : returned (add_user v db) v ≡ returned db' u = rw (get_or_create, unknown) at done in
    let at_end : add_user v db ≡ db' = cc in
    let found = find-last email db.users v unknown (ground (arith, eq_iff email email)) in
    rw (sym at_end) (rw (authenticate, found) (rw refused refl))

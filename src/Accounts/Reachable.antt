-- ===== src/Accounts/Reachable.antt =====
-- app/services/auth_service.py: the collections that the operations reach, and what holds of them.
use control_gate_backend.Prelude.{
  ℕ, String, Bool, false, ◌≡◌, Option, List, [], ◌∷◌, ◌++◌, ◌==◌, str_eq, eq_iff, any, update_one,
  find_one-none, any-update_one, ◌∙◌, arith, refl, Option-cases, Bool-cases, inl, inr, any-append,
}
use control_gate_backend.Prelude.Dict.{contains}
use control_gate_backend.Accounts.{
  User, PasswordReset, Db, Outcome, raised, returned, user_by_email, register, get_or_create,
  link_oauth, valid_roles,
}
use control_gate_backend.Accounts.Resets.{
  request_password_reset, reset_password, usable_reset, set_password, mark_used,
}

abbrev pub has_user_id : ℕ → List User → Bool
has_user_id id us = any (λ u. u.id == id) us

abbrev pub has_reset_id : ℕ → List PasswordReset → Bool
has_reset_id id rs = any (λ r. r.id == id) rs

abbrev pub has_token : String → List PasswordReset → Bool
has_token hash rs = any (λ r. str_eq r.token_hash hash) rs

-- One step: an operation that returns, with ids and a token that no document has.
pub data IsStep : Db → Db → Type 0 where
  registered :
      (now id : ℕ) (db db' : Db) (email hash : String) (name : Option String) (role : String)
      (u : User)
      → has_user_id id db.users ≡ false
      → register now id db email hash name role ≡ returned db' u
      → IsStep db db'
  joined :
      (provider : String) (now id : ℕ) (db db' : Db) (email : String) (name : Option String)
      (sub : String) (u : User)
      → has_user_id id db.users ≡ false
      → get_or_create provider now id db email name sub ≡ returned db' u
      → IsStep db db'
  requested :
      (minutes now id : ℕ) (db : Db) (email token_hash : String)
      → has_reset_id id db.password_resets ≡ false
      → has_token token_hash db.password_resets ≡ false
      → IsStep db (request_password_reset minutes now id db email token_hash)
  reset :
      (now : ℕ) (db db' : Db) (token_hash password_hash : String)
      → reset_password now db token_hash password_hash ≡ returned db' tt
      → IsStep db db'

pub data IsReachable : Db → Type 0 where
  start : IsReachable (record { users = []; password_resets = [] })
  next : (db db' : Db) → IsReachable db → IsStep db db' → IsReachable db'

-- No two users have one id or one e-mail address.
abbrev pub AreDistinctUsers : List User → Type 0
AreDistinctUsers [] = Unit
AreDistinctUsers (u ∷ us) =
    (has_user_id u.id us ≡ false)
    × (any (λ v. str_eq v.email u.email) us ≡ false)
    × AreDistinctUsers us

-- No two resets have one id or one token.
abbrev pub AreDistinctResets : List PasswordReset → Type 0
AreDistinctResets [] = Unit
AreDistinctResets (r ∷ rs) =
    (has_reset_id r.id rs ≡ false) × (has_token r.token_hash rs ≡ false) × AreDistinctResets rs

add-AreDistinctUsers :
    (us : List User) (u : User)
    → AreDistinctUsers us
    → has_user_id u.id us ≡ false
    → any (λ v. str_eq v.email u.email) us ≡ false
    → AreDistinctUsers (us ++ u ∷ [])
add-AreDistinctUsers [] u d h k = (refl, refl, tt)
add-AreDistinctUsers (v ∷ us) u (id_v, email_v, d) h k = (
  ground (arith, any-append (λ (w : User). w.id == v.id) us (u ∷ [])),
  ground (
    arith,
    any-append (λ (w : User). str_eq w.email v.email) us (u ∷ []),
    eq_iff u.email v.email,
    eq_iff v.email u.email,
  ),
  add-AreDistinctUsers us u d (ground arith) (ground arith),
)

update-AreDistinctUsers :
    (p : User → Bool) (f : User → User)
    → ((u : User) → (f u).id ≡ u.id)
    → ((u : User) → (f u).email ≡ u.email)
    → (us : List User) → AreDistinctUsers us
    → AreDistinctUsers (update_one p f us)
update-AreDistinctUsers p f same_id same_email [] d = tt
update-AreDistinctUsers p f same_id same_email (u ∷ us) (id_u, email_u, d) =
    elim (Bool-cases (p u)) [
      | inl e ↦ rw (e, same_id u, same_email u) (id_u, email_u, d)
      | inr e ↦ rw e (
        any-update_one (λ (v : User). v.id == u.id) p f (λ v. rw (same_id v) refl) us ∙ id_u,
        any-update_one (λ (v : User). str_eq v.email u.email) p f (λ v. rw (same_email v) refl) us
            ∙ email_u,
        update-AreDistinctUsers p f same_id same_email us d,
      )
    ]

add-AreDistinctResets :
    (rs : List PasswordReset) (r : PasswordReset)
    → AreDistinctResets rs
    → has_reset_id r.id rs ≡ false
    → has_token r.token_hash rs ≡ false
    → AreDistinctResets (rs ++ r ∷ [])
add-AreDistinctResets [] r d h k = (refl, refl, tt)
add-AreDistinctResets (s ∷ rs) r (id_s, token_s, d) h k = (
  ground (arith, any-append (λ (w : PasswordReset). w.id == s.id) rs (r ∷ [])),
  ground (
    arith,
    any-append (λ (w : PasswordReset). str_eq w.token_hash s.token_hash) rs (r ∷ []),
    eq_iff r.token_hash s.token_hash,
    eq_iff s.token_hash r.token_hash,
  ),
  add-AreDistinctResets rs r d (ground arith) (ground arith),
)

mark-AreDistinctResets :
    (p : PasswordReset → Bool) (now : ℕ) (rs : List PasswordReset)
    → AreDistinctResets rs
    → AreDistinctResets (update_one p (mark_used now) rs)
mark-AreDistinctResets p now [] d = tt
mark-AreDistinctResets p now (r ∷ rs) (id_r, token_r, d) = elim (Bool-cases (p r)) [
  | inl e ↦ rw e (id_r, token_r, d)
  | inr e ↦ rw e (
    any-update_one (λ (s : PasswordReset). s.id == r.id) p (mark_used now) (λ s. refl) rs ∙ id_r,
    any-update_one (λ (s : PasswordReset). str_eq s.token_hash r.token_hash) p (mark_used now)
          (λ s. refl) rs
        ∙ token_r,
    mark-AreDistinctResets p now rs d,
  )
]

pub record IsConsistent (db : Db) : Type 0 where
  pub users : AreDistinctUsers db.users
  pub resets : AreDistinctResets db.password_resets

-- The collections after an operation, where it returns.
abbrev Leaves : {A : Type 0} → (Db → Type 0) → Outcome A → Type 0
Leaves P (raised e) = Unit
Leaves P (returned db a) = P db

register-IsConsistent :
    (now id : ℕ) (db : Db) (email hash : String) (name : Option String) (role : String)
    → has_user_id id db.users ≡ false
    → IsConsistent db
    → Leaves IsConsistent (register now id db email hash name role)
unfolding register
register-IsConsistent now id db email hash name role fresh c =
    elim (Option-cases (user_by_email email db.users)) [
      | inr (u, e) ↦ rw (Leaves, register, e) tt
      | inl e ↦
          let new = find_one-none (λ (u : User). str_eq u.email email) db.users e in
          elim (Bool-cases (contains valid_roles role)) [
            | inr k ↦ rw (Leaves, register, e, k) tt
            | inl k ↦
                rw (Leaves, register, e, k)
                  (record {
                    users = add-AreDistinctUsers db.users _ c.users fresh new;
                    resets = c.resets;
                  })
          ]
    ]

get_or_create-IsConsistent :
    (provider : String) (now id : ℕ) (db : Db) (email : String) (name : Option String)
    (sub : String)
    → has_user_id id db.users ≡ false
    → IsConsistent db
    → Leaves IsConsistent (get_or_create provider now id db email name sub)
unfolding get_or_create
get_or_create-IsConsistent provider now id db email name sub fresh c =
    elim (Option-cases (user_by_email email db.users)) [
      | inr (u, e) ↦
          rw (Leaves, get_or_create, e)
            (record {
              users =
                  update-AreDistinctUsers (λ v. v.id == u.id) (link_oauth provider sub now)
                    (λ v. refl) (λ v. refl) db.users c.users;
              resets = c.resets;
            })
      | inl e ↦
          let new = find_one-none (λ (u : User). str_eq u.email email) db.users e in
          rw (Leaves, get_or_create, e)
            (record {
              users = add-AreDistinctUsers db.users _ c.users fresh new;
              resets = c.resets;
            })
    ]

request_password_reset-IsConsistent :
    (minutes now id : ℕ) (db : Db) (email token_hash : String)
    → has_reset_id id db.password_resets ≡ false
    → has_token token_hash db.password_resets ≡ false
    → IsConsistent db
    → IsConsistent (request_password_reset minutes now id db email token_hash)
unfolding request_password_reset
request_password_reset-IsConsistent minutes now id db email token_hash fresh new c =
    elim (Option-cases (user_by_email email db.users)) [
      | inl e ↦ rw (request_password_reset, e) c
      | inr (u, e) ↦
          rw (request_password_reset, e)
            (record {
              users = c.users;
              resets = add-AreDistinctResets db.password_resets _ c.resets fresh new;
            })
    ]

reset_password-IsConsistent :
    (now : ℕ) (db : Db) (token_hash password_hash : String)
    → IsConsistent db
    → Leaves IsConsistent (reset_password now db token_hash password_hash)
unfolding reset_password
reset_password-IsConsistent now db token_hash password_hash c =
    elim (Option-cases (usable_reset now token_hash db)) [
      | inl e ↦ rw (Leaves, reset_password, e) tt
      | inr (r, e) ↦
          rw (Leaves, reset_password, e)
            (record {
              users =
                  update-AreDistinctUsers (λ u. u.id == r.user_id) (set_password password_hash now)
                    (λ u. refl) (λ u. refl) db.users c.users;
              resets = mark-AreDistinctResets (λ s. s.id == r.id) now db.password_resets c.resets;
            })
    ]

step-IsConsistent : (db db' : Db) → IsStep db db' → IsConsistent db → IsConsistent db'
step-IsConsistent db _ (registered now id _ db' email hash name role u fresh e) c =
    rw e at (register-IsConsistent now id db email hash name role fresh c)
step-IsConsistent db _ (joined provider now id _ db' email name sub u fresh e) c =
    rw e at (get_or_create-IsConsistent provider now id db email name sub fresh c)
step-IsConsistent db _ (requested minutes now id _ email token_hash fresh new) c =
    request_password_reset-IsConsistent minutes now id db email token_hash fresh new c
step-IsConsistent db _ (reset now _ db' token_hash password_hash e) c =
    rw e at (reset_password-IsConsistent now db token_hash password_hash c)

-- In every state that the operations reach, no two users share an id or an e-mail address, and no two
-- resets an id or a token.
pub reachable-IsConsistent : (db : Db) → IsReachable db → IsConsistent db
reachable-IsConsistent _ start = record { users = tt; resets = tt }
reachable-IsConsistent _ (next db db' r s) =
    step-IsConsistent db db' s (reachable-IsConsistent db r)

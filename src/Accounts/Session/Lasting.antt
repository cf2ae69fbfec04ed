-- ===== src/Accounts/Session/Lasting.antt =====
-- app/api/deps.py and app/api/routes/auth.py: how long a logout lasts.
use control_gate_backend.Prelude.{
  ℕ, String, Bool, true, false, ◌≡◌, ◌≤◌, ◌&&◌, Option, some, ◌==◌, str_eq, any, leb, refl,
}
use control_gate_backend.Accounts.Session.{
  Claims, invalid_token, revoked, Caller, refused, Revocation, Sessions, present, Event, logged_out,
  expired, users_changed,
}

-- The token is refused: as revoked, or as one that no longer decodes.
abbrev pub is_out : Caller → Bool
is_out (refused revoked) = true
is_out (refused invalid_token) = true
is_out _ = false

-- The documents that the events delete had expired by the time.
abbrev pub is_by : ℕ → Event → Bool
is_by time (logged_out now later stored token) = true
is_by time (expired now) = leb now time
is_by time (users_changed users) = true

-- The revocation of `j` until `e` is stored.
abbrev is_kept : String → ℕ → Revocation → Bool
is_kept j e r = str_eq r.jti j && (r.expires_at == e)

-- What is assumed of the library that decodes tokens: what it finds in a token does not change, and
-- it refuses a token after its expiry; and of the tokens: those that share an id share the expiry.
module _ (decode_token : ℕ → String → Option Claims) (to_object_id : String → Option ℕ)
    (from_timestamp : ℕ → Option ℕ)
    (fixed : (m n : ℕ) (token : String) (c d : Claims)
      → decode_token m token ≡ some c
      → decode_token n token ≡ some d
      → d ≡ c)
    (timely : (n : ℕ) (token : String) (c : Claims) (e : ℕ)
      → decode_token n token ≡ some c
      → c.exp ≡ some e
      → n ≤ e)
    (j : String) (e : ℕ) (not_empty : str_eq j "" ≡ false) (not_zero : (e == 0) ≡ false)
    (in_range : from_timestamp e ≡ some e)
    (one_expiry : (n : ℕ) (token : String) (c : Claims)
      → decode_token n token ≡ some c
      → c.jti ≡ some j
      → c.exp ≡ some e) where
  abbrev IsKept : Sessions → Type 0
  IsKept db = any (is_kept j e) db.token_revocations ≡ true

  present_kept : present (some j) ≡ some j
  present_kept = rw not_empty refl

-- ===== src/RateLimit/Examples.antt =====
-- app/core/rate_limit.py: the limiter at concrete requests.
use control_gate_backend.Prelude.{ℕ, ◌≡◌, ◌≤◌, refl, some, List, [], ◌∷◌, arith, max}
use control_gate_backend.RateLimit.{Limiter, check_key}
use control_gate_backend.RateLimit.Window.{recent}
use control_gate_backend.RateLimit.Client.{
  forwarded_chain, resolve_client_ip, resolve_client_ip-sent,
}
use control_gate_backend.RateLimit.Trace.{Call}
use control_gate_backend.RateLimit.Bound.{fresh, serve, limit_holds}

abbrev login : ℕ → Call
login now = record { key = "login:a@b.c:1.2.3.4"; limit = 2; window = 900; now = now }

abbrev reset : ℕ → Call
reset now = record { key = "reset-password:1.2.3.4"; limit = 10; window = 900; now = now }

abbrev logins : List Call
logins = login 0 ∷ reset 5 ∷ login 10 ∷ login 20 ∷ login 901 ∷ []

-- The third login is refused, and the fourth comes after the first has left the window.
logins_served :
    (serve "login:a@b.c:1.2.3.4" 900 (omega arith) 2 logins fresh []).1 ≡ 0 ∷ 10 ∷ 901 ∷ []
unfolding check_key control_gate_backend.RateLimit.Trace.admitted_by
logins_served = refl

limit_holds_example :
    recent 900 901 (serve "login:a@b.c:1.2.3.4" 900 (omega arith) 2 logins fresh []).1 ≤ max 1 2
limit_holds_example =
    limit_holds "login:a@b.c:1.2.3.4" 900 (omega arith) 2 logins
      (
        omega arith,
        (λ _. (refl, refl)),
        (
          omega arith,
          (λ h. cc),
          (
            omega arith,
            (λ _. (refl, refl)),
            (omega arith, (λ _. (refl, refl)), (omega arith, (λ _. (refl, refl)), tt)),
          ),
        ),
      )
      901 (omega arith)

-- A client that sends a header of its own through one proxy is counted under what it sent.
resolve_client_ip-sent_example :
    resolve_client_ip 1
      (record { forwarded_for = some "9.9.9.9, 203.0.113.7"; peer = some "10.0.0.1" })
    ≡ "9.9.9.9"
unfolding forwarded_chain
resolve_client_ip-sent_example =
    resolve_client_ip-sent "9.9.9.9, 203.0.113.7" (some "10.0.0.1") [] "9.9.9.9"
      ("203.0.113.7" ∷ []) refl refl (omega arith)

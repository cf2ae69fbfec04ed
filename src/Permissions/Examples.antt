-- ===== src/Permissions/Examples.antt =====
-- app/core/permissions.py: six scans of one user on one day.
use control_gate_backend.Prelude.{ℕ, ◌+◌, String, true, ◌≤◌, refl, Option, some, List, [], ◌∷◌}
use control_gate_backend.Permissions.{User, Moment, Request, start_all}
use control_gate_backend.Permissions.Quota.{count_on, AreOwn, quota_holds}

abbrev as_object : String → Option String
as_object id = some id

abbrev start : ℕ → Request as_object
start second = record {
  user = record { id = "65f0"; role = some "normal" };
  now = record { day = 20000; second = second };
  days_later = 0;
  second_later = second + 1;
  is_valid = true;
}

abbrev requests : List (Request as_object)
requests = start 1 ∷ start 2 ∷ start 3 ∷ start 4 ∷ start 5 ∷ start 6 ∷ []

requests-AreOwn : AreOwn as_object "65f0" 5 requests
unfolding control_gate_backend.Permissions.limit_of
requests-AreOwn =
    ((λ e. refl), ((λ e. refl), ((λ e. refl), ((λ e. refl), ((λ e. refl), ((λ e. refl), tt))))))

quota_holds_example : count_on "65f0" 20000 (start_all as_object requests []) ≤ 5
quota_holds_example = quota_holds as_object "65f0" 5 requests 20000 requests-AreOwn

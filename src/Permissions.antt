-- ===== src/Permissions.antt =====
-- app/core/permissions.py: roles, ownership and the scan quota, and the part of `start_scan`
-- (app/api/routes/scans.py) and `ScanService.start` that the quota guards.
pub mod Quota
mod Examples
use control_gate_backend.Prelude.{
  ℕ, String, Bool, true, false, not, ◌+◌, ◌&&◌, ◌||◌, Option, none, some, List, [], ◌∷◌, ◌++◌, ltb,
  leb, ◌==◌, if◌then◌else◌, any, filter, length, str_eq, get_or,
}

-- A user document; `role` is `none` where it has no role.
pub record User : Type 0 where
  pub id : String
  pub role : Option String

abbrev is_text : String → Option String → Bool
is_text t none = false
is_text t (some s) = str_eq s t

-- `is_admin`, `is_premium`, `is_normal`
abbrev pub is_admin : User → Bool
is_admin user = is_text "admin" user.role

abbrev pub is_premium : User → Bool
is_premium user = is_text "premium" user.role || is_text "admin" user.role

abbrev pub is_normal : User → Bool
is_normal user =
    is_text "normal" user.role || is_text "premium" user.role || is_text "admin" user.role

-- `can_access_resource`
pub can_access_resource : User → String → Bool
can_access_resource user resource_owner_id =
    if is_admin user then true else str_eq user.id resource_owner_id

-- The answer of a guarded endpoint.
pub data Access : Type 0 where
  unauthenticated unauthorized granted : Access

-- `require_role`, before it calls the endpoint
pub require_role : List String → Option User → Access
require_role allowed_roles none = unauthenticated
require_role allowed_roles (some user) =
    if any (λ r. is_text r user.role) allowed_roles then granted else unauthorized

-- `SCAN_QUOTA.get(role)`: no limit for an admin, nor for a role that is not in the table
abbrev scan_quota : String → Option ℕ
scan_quota role =
    if str_eq role "normal" then some 5 else if str_eq role "premium" then some 50 else none

-- the `limit` of `check_scan_quota`
pub limit_of : User → Option ℕ
limit_of user = scan_quota (get_or user.role "normal")

-- A moment, by its day in UTC.
pub record Moment : Type 0 where
  pub day : ℕ
  pub second : ℕ

-- The `user_id` of a scan: a text, or the hexadecimal form of an object id.
pub data UserId : Type 0 where
  text object : String → UserId

pub record Scan : Type 0 where
  pub user_id : UserId
  pub created_at : Moment

abbrev pub is_object : Option String → UserId → Bool
is_object none i = false
is_object (some o) (text t) = false
is_object (some o) (object p) = str_eq p o

abbrev pub is_id_text : String → UserId → Bool
is_id_text t (text s) = str_eq s t
is_id_text t (object p) = false

-- The object id that a text stands for comes from the driver, and is an argument.
module _ (to_object_id : String → Option String) where
  -- `count_documents`: the user's scans since midnight
  pub scans_today : User → Moment → List Scan → ℕ
  scans_today user now scans = length (
      filter
        (λ s.
          (is_id_text user.id s.user_id || is_object (to_object_id user.id) s.user_id)
          && leb now.day s.created_at.day)
        scans)

  -- `check_scan_quota`: whether it returns
  pub check_scan_quota : User → Moment → List Scan → Bool
  unfolding scans_today limit_of
  check_scan_quota user now scans = elim (limit_of user) [
    | none ↦ true
    | some limit ↦ ltb (scans_today user now scans) limit
  ]

  -- A request to start a scan: `now` is when the quota is checked, and the insertion reads the clock
  -- again, the given number of days later; `is_valid` says that the checks behind the quota pass.
  pub record Request : Type 0 where
    pub user : User
    pub now : Moment
    pub days_later : ℕ
    pub second_later : ℕ
    pub is_valid : Bool

  -- `created_at` of the new document
  abbrev pub insertion : Request → Moment
  insertion r = record { day = r.now.day + r.days_later; second = r.second_later }

  -- `insert_one(scan_doc)`, unless the user's id is no object id
  insert_scan : Option String → Moment → List Scan → List Scan
  insert_scan none now scans = scans
  insert_scan (some o) now scans = scans ++ record { user_id = object o; created_at = now } ∷ []

  -- `start_scan`: the collection of scans after the request
  pub start_scan : Request → List Scan → List Scan
  unfolding check_scan_quota insert_scan
  start_scan r scans =
      if not (check_scan_quota r.user r.now scans)
      then scans
      else if not r.is_valid
      then scans
      else insert_scan (to_object_id r.user.id) (insertion r) scans

  pub start_all : List Request → List Scan → List Scan
  unfolding start_scan
  start_all [] scans = scans
  start_all (r ∷ rs) scans = start_all rs (start_scan r scans)

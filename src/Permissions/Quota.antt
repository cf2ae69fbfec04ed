-- ===== src/Permissions/Quota.antt =====
-- app/core/permissions.py: what the scan quota promises over any sequence of requests.
use control_gate_backend.Prelude.{
  ℕ, String, Bool, true, ◌≡◌, ◌≤◌, ◌<◌, refl, ap, ◌+◌, ◌&&◌, ◌||◌, Option, none, some, List, [],
  ◌∷◌, ◌++◌, arith, ltb, leb, ◌==◌, if◌then◌else◌, filter, length, str_eq, eq_iff, Bool-cases, inl,
  inr,
}
use control_gate_backend.Permissions.{
  Moment, object, Scan, is_object, is_id_text, limit_of, scans_today, check_scan_quota, Request,
  insertion, insert_scan, start_scan, start_all,
}

-- the scans of an owner that were created on a day
abbrev pub count_on : String → ℕ → List Scan → ℕ
count_on o day scans =
    length (filter (λ s. is_object (some o) s.user_id && s.created_at.day == day) scans)

count-append :
    (p : Scan → Bool) (xs : List Scan) (x : Scan)
    → length (filter p (xs ++ x ∷ [])) ≡ length (filter p xs) + (if p x then 1 else 0)
count-append p [] x = ground arith
count-append p (y ∷ ys) x = ground (arith, count-append p ys x)

-- the scans that the quota counts
abbrev quota_count : Option String → String → Moment → List Scan → ℕ
quota_count found t now scans = length (
    filter
      (λ s. (is_id_text t s.user_id || is_object found s.user_id) && leb now.day s.created_at.day)
      scans)

-- The scans of a day are among those that the quota counts on that day or before.
count_within :
    (o t : String) (now : Moment) (day : ℕ) (scans : List Scan)
    → now.day ≤ day
    → count_on o day scans ≤ quota_count (some o) t now scans
count_within o t now day [] h = omega arith
count_within o t now day (s ∷ scans) h = ground (arith, count_within o t now day scans h)

module _ (to_object_id : String → Option String) (o : String) (limit : ℕ) where
  -- Every request of the owner `o` is under the limit.
  abbrev pub IsOwn : Request to_object_id → Type 0
  IsOwn r = to_object_id r.user.id ≡ some o → limit_of r.user ≡ some limit

  abbrev pub AreOwn : List (Request to_object_id) → Type 0
  AreOwn [] = Unit
  AreOwn (r ∷ rs) = IsOwn r × AreOwn rs

  insert-count :
      (p : String) (now : Moment) (day : ℕ) (scans : List Scan)
      → count_on o day (insert_scan to_object_id (some p) now scans)
        ≡ count_on o day scans + (if str_eq p o && now.day == day then 1 else 0)
  unfolding insert_scan
  insert-count p now day scans =
      count-append (λ s. is_object (some o) s.user_id && s.created_at.day == day) scans
        (record { user_id = object p; created_at = now })

  -- An owner whose request passes has room for one more scan on that day.
  room :
      (r : Request to_object_id) (scans : List Scan)
      → IsOwn r
      → to_object_id r.user.id ≡ some o
      → check_scan_quota to_object_id r.user r.now scans ≡ true
      → count_on o (insertion to_object_id r).day scans < limit
  unfolding check_scan_quota scans_today
  room r scans own e passed =
      let counted =
        count_within o r.user.id r.now (insertion to_object_id r).day scans (omega arith) in
      let bound = own e in
      let test : ltb (scans_today to_object_id r.user r.now scans) limit ≡ true =
        rw (check_scan_quota, bound) at passed in
      let same : scans_today to_object_id r.user r.now scans
          ≡ quota_count (some o) r.user.id r.now scans =
        ap (λ x. quota_count x r.user.id r.now scans) e in
      ground (arith, counted, test, same)

  insert-within :
      (r : Request to_object_id) (day : ℕ) (scans : List Scan) (found : Option String)
      → to_object_id r.user.id ≡ found
      → IsOwn r
      → check_scan_quota to_object_id r.user r.now scans ≡ true
      → count_on o day scans ≤ limit
      → count_on o day (insert_scan to_object_id found (insertion to_object_id r) scans) ≤ limit
  unfolding insert_scan
  insert-within r day scans none e own passed h = h
  insert-within r day scans (some p) e own passed h =
      let more = insert-count p (insertion to_object_id r) day scans in
      elim (Bool-cases (str_eq p o)) [
        | inr other ↦ ground (arith, more)
        | inl mine ↦ elim (Bool-cases ((insertion to_object_id r).day == day)) [
          | inr other ↦ ground (arith, more)
          | inl today ↦
              let same = (eq_iff p o).0 mine in
              let left = room r scans own (rw same at e) passed in
              let here : (insertion to_object_id r).day ≡ day = ground arith in
              let left' : count_on o day scans < limit = rw here at left in
              ground (arith, more, left')
        ]
      ]

  start-within :
      (r : Request to_object_id) (day : ℕ) (scans : List Scan)
      → IsOwn r
      → count_on o day scans ≤ limit
      → count_on o day (start_scan to_object_id r scans) ≤ limit
  unfolding start_scan
  start-within r day scans own h =
      elim (Bool-cases (check_scan_quota to_object_id r.user r.now scans)) [
        | inr full ↦ rw (start_scan, full) h
        | inl passed ↦ elim (Bool-cases r.is_valid) [
          | inr bad ↦ rw (start_scan, passed, bad) h
          | inl good ↦
              rw (start_scan, passed, good)
                (insert-within r day scans (to_object_id r.user.id) refl own passed h)
        ]
      ]

  start_all-within :
      (rs : List (Request to_object_id)) (day : ℕ) (scans : List Scan)
      → AreOwn rs
      → count_on o day scans ≤ limit
      → count_on o day (start_all to_object_id rs scans) ≤ limit
  unfolding start_all
  start_all-within [] day scans own h = h
  start_all-within (r ∷ rs) day scans (own, rest) h =
      start_all-within rs day (start_scan to_object_id r scans) rest
        (start-within r day scans own h)

  -- Over any sequence of requests of all users, one after the other, no day ever has more scans of
  -- an owner than the limit of the owner's role.
  pub quota_holds :
      (rs : List (Request to_object_id)) (day : ℕ)
      → AreOwn rs
      → count_on o day (start_all to_object_id rs []) ≤ limit
  quota_holds rs day own = start_all-within rs day [] own (omega arith)

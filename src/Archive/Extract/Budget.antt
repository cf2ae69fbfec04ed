-- ===== src/Archive/Extract/Budget.antt =====
-- app/core/archive.py: how many bytes an extraction writes.
use control_gate_backend.Prelude.{
  ℕ, zero, suc, String, Bool, true, false, not, ◌&&◌, ◌||◌, ◌≡◌, ◌≤◌, refl, ap, ◌+◌, ◌-◌, Option,
  none, some, List, [], ◌∷◌, arith, if◌then◌else◌, filter, ltb, leb, Bool-cases, Option-cases, inl,
  inr,
}
use control_gate_backend.Archive.Paths.{Components, path_eq, parent, safe_destination}
use control_gate_backend.Archive.Extract.{
  File, Disk, ZipMember, TarMember, Reader, is_directory, mkdir, unlink, write_file, copy_chunks,
  can_open, close_copy, copy_within_budget, copy_member, make_member, zip_step, tar_stream,
  tar_step, each_member, extract_members, extract_zip, extract_tar, extract_by, reader_of,
  safe_extract_archive, max_extracted_size,
}
use control_gate_backend.Archive.Extract.Frame.{mkdir-files}

-- The sizes of a stream's reads, from the first that finds nothing or raises on: their sum, and
-- whether it raised.
abbrev pub stream_size : List (Option ℕ) → ℕ
stream_size [] = 0
stream_size (none ∷ chunks) = 0
stream_size (some zero ∷ chunks) = 0
stream_size (some (suc n) ∷ chunks) = suc n + stream_size chunks

abbrev pub is_readable : List (Option ℕ) → Bool
is_readable [] = true
is_readable (none ∷ chunks) = false
is_readable (some zero ∷ chunks) = true
is_readable (some (suc n) ∷ chunks) = is_readable chunks

-- The stream can be read to its end, and holds at most `budget` bytes.
abbrev pub fits : List (Option ℕ) → ℕ → Bool
fits chunks budget = is_readable chunks && leb (stream_size chunks) budget

copy_chunks_lem :
    (chunks : List (Option ℕ)) (budget written : ℕ)
    → written ≤ budget
    → copy_chunks chunks budget written ≡ (
        if is_readable chunks && leb (written + stream_size chunks) budget
        then some (written + stream_size chunks)
        else none)
unfolding copy_chunks
copy_chunks_lem [] budget written h = ground arith
copy_chunks_lem (none ∷ chunks) budget written h = ground arith
copy_chunks_lem (some zero ∷ chunks) budget written h = ground arith
copy_chunks_lem (some (suc n) ∷ chunks) budget written h =
    elim (Bool-cases (ltb budget (written + suc n))) [
      | inl over ↦ rw over (ground arith)
      | inr below ↦
          let more = copy_chunks_lem chunks budget (written + suc n) (ground arith) in
          let same : written + suc n + stream_size chunks ≡ written + (suc n + stream_size chunks) =
            omega arith in
          rw below (rw same at more)
    ]

copy_chunks_start :
    (chunks : List (Option ℕ)) (budget : ℕ)
    → copy_chunks chunks budget 0 ≡ (if fits chunks budget then some (stream_size chunks) else none)
copy_chunks_start chunks budget =
    let start : 0 + stream_size chunks ≡ stream_size chunks = omega arith in
    rw start at (copy_chunks_lem chunks budget 0 (omega arith))

pub copy_within_budget-exact :
    (chunks : List (Option ℕ)) (target : Components) (budget : ℕ) (disk : Disk)
    → copy_within_budget chunks target budget disk ≡ (
        if is_directory disk target || not (is_directory disk (parent target))
        then (disk, none)
        else if fits chunks budget
        then (write_file target (stream_size chunks) disk, some (stream_size chunks))
        else (unlink target disk, none))
unfolding copy_within_budget close_copy can_open
copy_within_budget-exact chunks target budget disk = elim (Bool-cases (fits chunks budget)) [
  | inl e ↦
      rw (copy_chunks_start chunks budget, e)
        (opens (write_file target (stream_size chunks) disk, some (stream_size chunks)))
  | inr e ↦ rw (copy_chunks_start chunks budget, e) (opens (unlink target disk, none))
]
  where
    opens :
        (r : Disk × Option ℕ)
        → (if not (is_directory disk target) && is_directory disk (parent target)
            then r
            else (disk, none))
          ≡ (if is_directory disk target || not (is_directory disk (parent target))
              then (disk, none)
              else r)
    opens r = ground arith

abbrev pub sum_sizes : List File → ℕ
sum_sizes [] = 0
sum_sizes (f ∷ fs) = f.size + sum_sizes fs

unlink-size :
    (target : Components) (fs : List File)
    → sum_sizes (filter (λ f. not (path_eq f.path target)) fs) ≤ sum_sizes fs
unlink-size target [] = omega arith
unlink-size target (f ∷ fs) = ground (arith, unlink-size target fs)

-- What one member may do to the disk: an error adds no byte, and otherwise the bytes added are at
-- most those that are counted, which stay within the limit.
abbrev pub IsPaid : ℕ → Disk → Disk × Option ℕ → Type 0
IsPaid total disk (disk', none) = sum_sizes disk'.files ≤ sum_sizes disk.files
IsPaid total disk (disk', some n) =
    (sum_sizes disk'.files ≤ sum_sizes disk.files + n) × (total + n ≤ max_extracted_size)

IsPaid-same :
    (total : ℕ) (disk made : Disk)
    → made.files ≡ disk.files
    → (r : Disk × Option ℕ) → IsPaid total made r
    → IsPaid total disk r
IsPaid-same total disk made e (d, none) h = let same = ap sum_sizes e in omega arith
IsPaid-same total disk made e (d, some n) h =
    let same = ap sum_sizes e in let fewer = h.0 in (omega arith, h.1)

ap-IsPaid :
    (total : ℕ) (disk : Disk) (r : Disk × Option ℕ) (added : Option ℕ)
    → r.1 ≡ added
    → IsPaid total disk r
    → IsPaid total disk (r.0, added)
ap-IsPaid total disk (d, n) added e h = rw e at h

copy-IsPaid :
    (chunks : List (Option ℕ)) (target : Components) (total : ℕ) (disk : Disk)
    → total ≤ max_extracted_size
    → IsPaid total disk (copy_within_budget chunks target (max_extracted_size - total) disk)
unfolding write_file unlink
copy-IsPaid chunks target total disk h =
    let fewer = unlink-size target disk.files in
    let exact = copy_within_budget-exact chunks target (max_extracted_size - total) disk in
    elim (Bool-cases (is_directory disk target || not (is_directory disk (parent target)))) [
      | inl e ↦ rw (exact, e) (omega arith)
      | inr e ↦ elim (Bool-cases (fits chunks (max_extracted_size - total))) [
        | inl within ↦ rw (exact, e, within) (ground (arith, fewer), ground arith)
        | inr over ↦ rw (exact, e, over) (ground (arith, fewer))
      ]
    ]

module _ (total : ℕ) (disk : Disk) (small : total ≤ max_extracted_size) where
  -- An error, and a step that writes no file, is paid for.
  nothing-IsPaid : (made : Disk) → made.files ≡ disk.files → IsPaid total disk (made, some 0)
  nothing-IsPaid made e = rw e (omega arith, omega arith)

  copy_member-IsPaid :
      (chunks : List (Option ℕ)) (target : Components)
      → IsPaid total disk (copy_member chunks target total disk)
  unfolding copy_member
  copy_member-IsPaid chunks target = elim (Option-cases (mkdir (parent target) disk)) [
    | inl e ↦ rw (copy_member, e) (omega arith)
    | inr (made, e) ↦
        rw (copy_member, e)
          (IsPaid-same total disk made (mkdir-files (parent target) disk made e)
            (copy_within_budget chunks target (max_extracted_size - total) made)
            (copy-IsPaid chunks target total made small))
  ]

  make_member-IsPaid : (target : Components) → IsPaid total disk (make_member target disk)
  unfolding make_member
  make_member-IsPaid target = elim (Option-cases (mkdir target disk)) [
    | inl e ↦ rw (make_member, e) (omega arith)
    | inr (made, e) ↦ rw (make_member, e) (nothing-IsPaid made (mkdir-files target disk made e))
  ]

  tar_stream-IsPaid :
      (stream : Option (List (Option ℕ))) (target : Components)
      → IsPaid total disk (tar_stream stream target total disk)
  unfolding tar_stream
  tar_stream-IsPaid none target = elim (Option-cases (mkdir (parent target) disk)) [
    | inl e ↦ rw (tar_stream, e) (omega arith)
    | inr (made, e) ↦
        rw (tar_stream, e) (nothing-IsPaid made (mkdir-files (parent target) disk made e))
  ]
  tar_stream-IsPaid (some chunks) target = copy_member-IsPaid chunks target

  if-IsPaid :
      (b : Bool) (x y : Disk × Option ℕ)
      → IsPaid total disk x
      → IsPaid total disk y
      → IsPaid total disk (if b then x else y)
  if-IsPaid true x y hx hy = hx
  if-IsPaid false x y hx hy = hy

  refused-IsPaid : IsPaid total disk (disk, none)
  refused-IsPaid = omega arith

  zip_step-IsPaid :
      (dir : Components) (info : ZipMember) → IsPaid total disk (zip_step dir info total disk)
  unfolding zip_step
  zip_step-IsPaid dir info = elim (Option-cases (safe_destination dir info.filename)) [
    | inl e ↦
        rw (zip_step, e)
          (if-IsPaid info.is_symlink (disk, none) (disk, none) refused-IsPaid refused-IsPaid)
    | inr (target, e) ↦
        rw (zip_step, e)
          (if-IsPaid info.is_symlink (disk, none)
            (if info.is_dir
              then make_member target disk
              else copy_member info.chunks target total disk)
            refused-IsPaid
            (if-IsPaid info.is_dir (make_member target disk)
              (copy_member info.chunks target total disk) (make_member-IsPaid target)
              (copy_member-IsPaid info.chunks target)))
  ]

  tar_step-IsPaid :
      (dir : Components) (member : TarMember) → IsPaid total disk (tar_step dir member total disk)
  unfolding tar_step
  tar_step-IsPaid dir member = elim (Option-cases (safe_destination dir member.name)) [
    | inl e ↦
        rw (tar_step, e)
          (if-IsPaid member.is_link (disk, none) (disk, none) refused-IsPaid refused-IsPaid)
    | inr (target, e) ↦
        rw (tar_step, e)
          (if-IsPaid member.is_link (disk, none)
            (if member.is_dir
              then make_member target disk
              else if not member.is_file
              then (disk, some 0)
              else tar_stream member.stream target total disk)
            refused-IsPaid
            (if-IsPaid member.is_dir (make_member target disk)
              (if not member.is_file
                then (disk, some 0)
                else tar_stream member.stream target total disk)
              (make_member-IsPaid target)
              (if-IsPaid (not member.is_file) (disk, some 0)
                (tar_stream member.stream target total disk) (nothing-IsPaid disk refl)
                (tar_stream-IsPaid member.stream target))))
  ]

module _ {Member : Type 0} (step : Member → ℕ → Disk → Disk × Option ℕ)
    (pays : (total : ℕ) (disk : Disk)
      → total ≤ max_extracted_size
      → (m : Member) → IsPaid total disk (step m total disk)) where
  each_member-size :
      (ms : List Member) (total : ℕ) (disk : Disk)
      → total ≤ max_extracted_size
      → sum_sizes (each_member step ms total disk).0.files + total
        ≤ sum_sizes disk.files + max_extracted_size
  unfolding each_member
  each_member-size [] total disk h = omega arith
  each_member-size (m ∷ ms) total disk h = elim (Option-cases (step m total disk).1) [
    | inl e ↦
        let paid : IsPaid total disk ((step m total disk).0, none) =
          ap-IsPaid total disk (step m total disk) _ e (pays total disk h m) in
        rw (each_member, e) (omega arith)
    | inr (n, e) ↦
        let paid : IsPaid total disk ((step m total disk).0, some n) =
          ap-IsPaid total disk (step m total disk) _ e (pays total disk h m) in
        let rest = each_member-size ms (total + n) (step m total disk).0 paid.1 in
        let head = paid.0 in rw (each_member, e) (omega arith)
  ]

  extract_members-size :
      (ms : List Member) (disk : Disk)
      → sum_sizes (extract_members step ms disk).0.files ≤ sum_sizes disk.files + max_extracted_size
  unfolding extract_members
  extract_members-size ms disk =
      let all = each_member-size ms 0 disk (omega arith) in ground (arith, all)

extract_by-size :
    (reader : Reader) (dir : Components) (infos : Option (List ZipMember))
    (members : Option (List TarMember)) (disk : Disk)
    → sum_sizes (extract_by reader dir infos members disk).0.files
      ≤ sum_sizes disk.files + max_extracted_size
unfolding extract_by extract_zip extract_tar
extract_by-size Reader.zip dir none members disk = omega arith
extract_by-size Reader.zip dir (some infos) members disk =
    extract_members-size (zip_step dir) (λ total disk h m. zip_step-IsPaid total disk h dir m) infos
      disk
extract_by-size Reader.tar dir infos none disk = omega arith
extract_by-size Reader.tar dir infos (some members) disk =
    extract_members-size (tar_step dir) (λ total disk h m. tar_step-IsPaid total disk h dir m)
      members disk
extract_by-size Reader.unsupported dir infos members disk = omega arith

-- An extraction adds at most 500 MiB to the disk, whatever sizes the archive declares and also
-- where an error ends it.
pub safe_extract_archive-size :
    (name : String) (dir : Components) (infos : Option (List ZipMember))
    (members : Option (List TarMember)) (disk : Disk)
    → sum_sizes (safe_extract_archive name dir infos members disk).0.files
      ≤ sum_sizes disk.files + max_extracted_size
unfolding safe_extract_archive
safe_extract_archive-size name dir infos members disk = elim (Option-cases (mkdir dir disk)) [
  | inl e ↦ rw (safe_extract_archive, e) (omega arith)
  | inr (made, e) ↦
      let bound = extract_by-size (reader_of name) dir infos members made in
      let same = ap sum_sizes (mkdir-files dir disk made e) in
      rw (safe_extract_archive, e) (omega arith)
]

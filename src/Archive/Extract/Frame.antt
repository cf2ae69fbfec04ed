-- ===== src/Archive/Extract/Frame.antt =====
-- app/core/archive.py: what an extraction leaves alone.
use control_gate_backend.Prelude.{
  ℕ, String, true, not, ◌≡◌, refl, ◌∙◌, ap, ◌+◌, ◌-◌, Option, none, some, List, [], ◌∷◌, arith,
  filter, Bool-cases, Option-cases, inl, inr,
}
use control_gate_backend.Archive.Paths.{
  Components, path_eq, is_within, parent, safe_destination, path_eq-true, safe_destination-within,
}
use control_gate_backend.Archive.Extract.{
  File, Disk, ZipMember, TarMember, Reader, mkdir, unlink, write_file, copy_chunks, can_open,
  close_copy, copy_within_budget, copy_member, make_member, zip_step, tar_stream, tar_step,
  each_member, extract_members, extract_zip, extract_tar, extract_by, reader_of,
  safe_extract_archive, max_extracted_size,
}

-- the files that lie outside a directory
abbrev pub files_outside : Components → Disk → List File
files_outside dir disk = filter (λ f. not (is_within dir f.path)) disk.files

unlink-outside :
    (dir target : Components) (fs : List File)
    → is_within dir target ≡ true
    → filter (λ f. not (is_within dir f.path)) (filter (λ f. not (path_eq f.path target)) fs)
      ≡ filter (λ f. not (is_within dir f.path)) fs
unlink-outside dir target [] h = refl
unlink-outside dir target (f ∷ fs) h = elim (Bool-cases (path_eq f.path target)) [
  | inl same ↦
      let inside : is_within dir f.path ≡ true = rw (path_eq-true f.path target same) h in
      ground (arith, unlink-outside dir target fs h)
  | inr other ↦ ground (arith, unlink-outside dir target fs h)
]

close_copy-outside :
    (dir target : Components) (copied : Option ℕ) (disk : Disk)
    → is_within dir target ≡ true
    → files_outside dir (close_copy target copied disk).0 ≡ files_outside dir disk
unfolding close_copy unlink write_file
close_copy-outside dir target none disk h = unlink-outside dir target disk.files h
close_copy-outside dir target (some n) disk h =
    ground (arith, unlink-outside dir target disk.files h)

copy-outside :
    (dir target : Components) (chunks : List (Option ℕ)) (budget : ℕ) (disk : Disk)
    → is_within dir target ≡ true
    → files_outside dir (copy_within_budget chunks target budget disk).0 ≡ files_outside dir disk
unfolding copy_within_budget
copy-outside dir target chunks budget disk h = elim (Bool-cases (can_open disk target)) [
  | inl e ↦ rw e (close_copy-outside dir target (copy_chunks chunks budget 0) disk h)
  | inr e ↦ rw e refl
]

-- A new directory changes no file.
pub mkdir-files :
    (path : Components) (disk made : Disk) → mkdir path disk ≡ some made → made.files ≡ disk.files
unfolding mkdir
mkdir-files path disk made h = ground arith

copy_member-outside :
    (dir target : Components) (chunks : List (Option ℕ)) (total : ℕ) (disk : Disk)
    → is_within dir target ≡ true
    → files_outside dir (copy_member chunks target total disk).0 ≡ files_outside dir disk
unfolding copy_member
copy_member-outside dir target chunks total disk h =
    elim (Option-cases (mkdir (parent target) disk)) [
      | inl e ↦ rw (copy_member, e) refl
      | inr (made, e) ↦
          rw (copy_member, e)
            (copy-outside dir target chunks (max_extracted_size - total) made h
              ∙ ap (λ fs. filter (λ f. not (is_within dir f.path)) fs)
                  (mkdir-files (parent target) disk made e))
    ]

make_member-outside :
    (dir target : Components) (disk : Disk)
    → files_outside dir (make_member target disk).0 ≡ files_outside dir disk
unfolding make_member
make_member-outside dir target disk = elim (Option-cases (mkdir target disk)) [
  | inl e ↦ rw (make_member, e) refl
  | inr (made, e) ↦ rw (make_member, e, mkdir-files target disk made e) refl
]

zip_step-outside :
    (dir : Components) (info : ZipMember) (total : ℕ) (disk : Disk)
    → files_outside dir (zip_step dir info total disk).0 ≡ files_outside dir disk
unfolding zip_step
zip_step-outside dir info total disk = elim (Option-cases (safe_destination dir info.filename)) [
  | inl e ↦ rw (zip_step, e) (ground arith)
  | inr (target, e) ↦
      let inside = safe_destination-within dir target info.filename e in
      let made = make_member-outside dir target disk in
      let copied = copy_member-outside dir target info.chunks total disk inside in
      rw (zip_step, e) (ground (arith, made, copied))
]

tar_stream-outside :
    (dir target : Components) (stream : Option (List (Option ℕ))) (total : ℕ) (disk : Disk)
    → is_within dir target ≡ true
    → files_outside dir (tar_stream stream target total disk).0 ≡ files_outside dir disk
unfolding tar_stream
tar_stream-outside dir target none total disk h = elim (Option-cases (mkdir (parent target) disk)) [
  | inl e ↦ rw (tar_stream, e) refl
  | inr (made, e) ↦ rw (tar_stream, e, mkdir-files (parent target) disk made e) refl
]
tar_stream-outside dir target (some chunks) total disk h =
    copy_member-outside dir target chunks total disk h

tar_step-outside :
    (dir : Components) (member : TarMember) (total : ℕ) (disk : Disk)
    → files_outside dir (tar_step dir member total disk).0 ≡ files_outside dir disk
unfolding tar_step
tar_step-outside dir member total disk = elim (Option-cases (safe_destination dir member.name)) [
  | inl e ↦ rw (tar_step, e) (ground arith)
  | inr (target, e) ↦
      let inside = safe_destination-within dir target member.name e in
      let made = make_member-outside dir target disk in
      let copied = tar_stream-outside dir target member.stream total disk inside in
      rw (tar_step, e) (ground (arith, made, copied))
]

module _ {Member : Type 0} (step : Member → ℕ → Disk → Disk × Option ℕ) (dir : Components)
    (keeps : (m : Member) (total : ℕ) (disk : Disk)
      → files_outside dir (step m total disk).0 ≡ files_outside dir disk) where
  each_member-outside :
      (ms : List Member) (total : ℕ) (disk : Disk)
      → files_outside dir (each_member step ms total disk).0 ≡ files_outside dir disk
  unfolding each_member
  each_member-outside [] total disk = refl
  each_member-outside (m ∷ ms) total disk = elim (Option-cases (step m total disk).1) [
    | inl e ↦ rw (each_member, e) (keeps m total disk)
    | inr (n, e) ↦
        rw (each_member, e)
          (each_member-outside ms (total + n) (step m total disk).0 ∙ keeps m total disk)
  ]

  extract_members-outside :
      (ms : List Member) (disk : Disk)
      → files_outside dir (extract_members step ms disk).0 ≡ files_outside dir disk
  unfolding extract_members
  extract_members-outside ms disk = ground (arith, each_member-outside ms 0 disk)

extract_by-outside :
    (reader : Reader) (dir : Components) (infos : Option (List ZipMember))
    (members : Option (List TarMember)) (disk : Disk)
    → files_outside dir (extract_by reader dir infos members disk).0 ≡ files_outside dir disk
unfolding extract_by extract_zip extract_tar
extract_by-outside Reader.zip dir none members disk = refl
extract_by-outside Reader.zip dir (some infos) members disk =
    extract_members-outside (zip_step dir) dir (zip_step-outside dir) infos disk
extract_by-outside Reader.tar dir infos none disk = refl
extract_by-outside Reader.tar dir infos (some members) disk =
    extract_members-outside (tar_step dir) dir (tar_step-outside dir) members disk
extract_by-outside Reader.unsupported dir infos members disk = refl

-- No archive, whatever its members are called, changes, adds or deletes a file outside the
-- extraction directory, and neither does an extraction that an error ends.
pub safe_extract_archive-outside :
    (name : String) (dir : Components) (infos : Option (List ZipMember))
    (members : Option (List TarMember)) (disk : Disk)
    → files_outside dir (safe_extract_archive name dir infos members disk).0
      ≡ files_outside dir disk
unfolding safe_extract_archive
safe_extract_archive-outside name dir infos members disk = elim (Option-cases (mkdir dir disk)) [
  | inl e ↦ rw (safe_extract_archive, e) refl
  | inr (made, e) ↦
      rw (safe_extract_archive, e)
        (extract_by-outside (reader_of name) dir infos members made
          ∙ ap (λ fs. filter (λ f. not (is_within dir f.path)) fs) (mkdir-files dir disk made e))
]

-- ===== src/Archive/Extract.antt =====
-- app/core/archive.py: the extraction of zip and tar archives under a budget of bytes. What zipfile
-- and tarfile read of an archive is an argument: its members, and the lengths of the chunks that a
-- member's stream yields, `none` where a read raises. A file is the number of its bytes.
pub mod Frame
pub mod Budget
use control_gate_backend.Prelude.{
  ℕ, zero, suc, String, Bool, true, false, not, ◌*◌, ◌+◌, ◌-◌, ◌&&◌, ◌||◌, Option, none, some, List,
  [], ◌∷◌, if◌then◌else◌, ltb, leb, any, filter, length, str_eq,
}
use control_gate_backend.Archive.Paths.{Components, path_eq, is_within, parent, safe_destination}

abbrev pub max_archive_members : ℕ
max_archive_members = 10000

abbrev pub max_extracted_size : ℕ
max_extracted_size = 500 * 1024 * 1024

-- A regular file and its length.
pub record File : Type 0 where
  pub path : Components
  pub size : ℕ

pub record Disk : Type 0 where
  pub files : List File
  pub dirs : List Components

-- `ZipInfo`, with the link test of `_is_zip_symlink` already read from its attributes.
pub record ZipMember : Type 0 where
  pub filename : String
  pub is_symlink : Bool
  pub is_dir : Bool
  pub chunks : List (Option ℕ)

-- the tests of `TarInfo`, and `extractfile(member)`
pub record TarMember : Type 0 where
  pub name : String
  pub is_link : Bool  -- issym() or islnk() or isdev()
  pub is_dir : Bool
  pub is_file : Bool
  pub stream : Option (List (Option ℕ))

-- A path is a directory if it was made, or something lies below it.
unfoldable pub is_directory : Disk → Components → Bool
is_directory disk path =
    any (λ d. is_within path d) disk.dirs
    || any (λ f. is_within path f.path && not (path_eq path f.path)) disk.files

-- `path.mkdir(parents=True, exist_ok=True)`, which raises where a file stands in the way
unfoldable pub mkdir : Components → Disk → Option Disk
unfolding is_directory
mkdir path disk =
    if is_directory disk path
    then some disk
    else if any (λ f. is_within f.path path) disk.files
    then none
    else some (record disk { dirs = path ∷ disk.dirs })

-- `target.unlink(missing_ok=True)`
unfoldable pub unlink : Components → Disk → Disk
unlink target disk = record disk { files = filter (λ f. not (path_eq f.path target)) disk.files }

-- the file after the writes
unfoldable pub write_file : Components → ℕ → Disk → Disk
unfolding unlink
write_file target written disk = record disk {
  files = record { path = target; size = written } ∷ (unlink target disk).files;
}

-- The loop of `_copy_within_budget`, over the reads of the stream, of which one may raise: the bytes
-- written, or `none` once they exceed the budget or a read raises.
unfoldable pub copy_chunks : List (Option ℕ) → ℕ → ℕ → Option ℕ
copy_chunks [] budget written = some written
copy_chunks (none ∷ chunks) budget written = none
copy_chunks (some zero ∷ chunks) budget written = some written
copy_chunks (some (suc n) ∷ chunks) budget written =
    let rest = copy_chunks chunks budget (written + suc n) in
    if ltb budget (written + suc n) then none else rest

-- the disk after the loop, without the partial file where it raised
unfoldable pub close_copy : Components → Option ℕ → Disk → Disk × Option ℕ
unfolding unlink write_file
close_copy target none disk = (unlink target disk, none)
close_copy target (some written) disk = (write_file target written disk, some written)

-- `target.open("wb")` does not raise: the path is no directory, and its parent is one.
unfoldable pub can_open : Disk → Components → Bool
unfolding is_directory
can_open disk target = not (is_directory disk target) && is_directory disk (parent target)

-- `_copy_within_budget`: the disk, and the bytes written unless it raised
unfoldable pub copy_within_budget : List (Option ℕ) → Components → ℕ → Disk → Disk × Option ℕ
unfolding can_open copy_chunks close_copy
copy_within_budget chunks target budget_remaining disk =
    if can_open disk target
    then close_copy target (copy_chunks chunks budget_remaining 0) disk
    else (disk, none)

-- one regular member: its parent directory, and its copy
unfoldable pub copy_member : List (Option ℕ) → Components → ℕ → Disk → Disk × Option ℕ
unfolding mkdir copy_within_budget
copy_member chunks target total_size disk = elim (mkdir (parent target) disk) [
  | none ↦ (disk, none)
  | some made ↦ copy_within_budget chunks target (max_extracted_size - total_size) made
]

-- one directory member, which adds nothing to the total
unfoldable pub make_member : Components → Disk → Disk × Option ℕ
unfolding mkdir
make_member target disk = elim (mkdir target disk) [
  | none ↦ (disk, none)
  | some made ↦ (made, some 0)
]

-- the body of the loop of `_extract_zip`: what it adds to the total
unfoldable pub zip_step : Components → ZipMember → ℕ → Disk → Disk × Option ℕ
unfolding safe_destination copy_member make_member
zip_step dest_dir info total_size disk =
    if info.is_symlink then (disk, none) else elim (safe_destination dest_dir info.filename) [
      | none ↦ (disk, none)
      | some target ↦
          if info.is_dir
          then make_member target disk
          else copy_member info.chunks target total_size disk
    ]

unfoldable pub tar_stream : Option (List (Option ℕ)) → Components → ℕ → Disk → Disk × Option ℕ
unfolding mkdir copy_member
tar_stream none target total_size disk = elim (mkdir (parent target) disk) [
  | none ↦ (disk, none)
  | some made ↦ (made, some 0)
]
tar_stream (some chunks) target total_size disk = copy_member chunks target total_size disk

-- the body of the loop of `_extract_tar`
unfoldable pub tar_step : Components → TarMember → ℕ → Disk → Disk × Option ℕ
unfolding safe_destination make_member tar_stream
tar_step dest_dir member total_size disk =
    if member.is_link then (disk, none) else elim (safe_destination dest_dir member.name) [
      | none ↦ (disk, none)
      | some target ↦
          if member.is_dir
          then make_member target disk
          else if not member.is_file
          then (disk, some 0)
          else tar_stream member.stream target total_size disk
    ]

-- The loop over the members, which the first error ends: the disk, and whether all went well.
module _ {Member : Type 0} (step : Member → ℕ → Disk → Disk × Option ℕ) where
  unfoldable pub each_member : List Member → ℕ → Disk → Disk × Bool
  each_member [] total_size disk = (disk, true)
  each_member (m ∷ ms) total_size disk =
      let (disk', added) = step m total_size disk in
      elim added [ none ↦ (disk', false) | some n ↦ each_member ms (total_size + n) disk' ]

  -- the count of the members, and the loop
  unfoldable pub extract_members : List Member → Disk → Disk × Bool
  unfolding each_member
  extract_members ms disk =
      if ltb max_archive_members (length ms) then (disk, false) else each_member ms 0 disk

pub data Reader : Type 0 where
  zip tar unsupported : Reader

unfoldable pub ends_with : String → String → Bool
ends_with suffix String.[] = str_eq suffix ""
ends_with suffix (String.◌∷◌ c s) = str_eq suffix (String.◌∷◌ c s) || ends_with suffix s

-- `archive_path.suffix.lower() == suffix`: a leading dot starts no suffix.
unfoldable pub has_suffix : String → String → Bool
unfolding ends_with
has_suffix suffix name = ends_with suffix name && not (str_eq suffix name)

-- the reader for an archive, by its name in lower case
unfoldable pub reader_of : String → Reader
unfolding has_suffix ends_with
reader_of name =
    if has_suffix ".zip" name
    then Reader.zip
    else if ends_with ".tar.gz" name || (has_suffix ".gz" name || has_suffix ".tgz" name)
    then Reader.tar
    else if has_suffix ".tar" name
    then Reader.tar
    else Reader.unsupported

-- `_extract_zip` and `_extract_tar`; `none` is an archive that the reader cannot open.
unfoldable pub extract_zip : Components → Option (List ZipMember) → Disk → Disk × Bool
unfolding extract_members zip_step
extract_zip dest_dir none disk = (disk, false)
extract_zip dest_dir (some infos) disk = extract_members (zip_step dest_dir) infos disk

unfoldable pub extract_tar : Components → Option (List TarMember) → Disk → Disk × Bool
unfolding extract_members tar_step
extract_tar dest_dir none disk = (disk, false)
extract_tar dest_dir (some members) disk = extract_members (tar_step dest_dir) members disk

unfoldable pub extract_by :
    Reader → Components → Option (List ZipMember) → Option (List TarMember) → Disk → Disk × Bool
unfolding extract_zip extract_tar
extract_by Reader.zip dest_dir infos members disk = extract_zip dest_dir infos disk
extract_by Reader.tar dest_dir infos members disk = extract_tar dest_dir members disk
extract_by Reader.unsupported dest_dir infos members disk = (disk, false)

-- `safe_extract_archive`, with what each reader finds in the archive
unfoldable pub safe_extract_archive :
    String → Components → Option (List ZipMember) → Option (List TarMember) → Disk → Disk × Bool
unfolding mkdir extract_by reader_of
safe_extract_archive name dest_dir infos members disk = elim (mkdir dest_dir disk) [
  | none ↦ (disk, false)
  | some made ↦ extract_by (reader_of name) dest_dir infos members made
]

-- ===== src/Archive/Examples.antt =====
-- app/core/archive.py: a zip archive with a member that climbs out of the extraction directory.
use control_gate_backend.Prelude.{String, false, ◌≡◌, ◌≤◌, refl, ◌+◌, none, some, List, [], ◌∷◌}
use control_gate_backend.Archive.Paths.{Components}
use control_gate_backend.Archive.Extract.{
  File, Disk, ZipMember, safe_extract_archive, max_extracted_size,
}
use control_gate_backend.Archive.Extract.Frame.{files_outside, safe_extract_archive-outside}
use control_gate_backend.Archive.Extract.Budget.{sum_sizes, safe_extract_archive-size}

abbrev dir : Components
dir = "srv" ∷ "scan" ∷ []

abbrev passwords : File
passwords = record { path = "etc" ∷ "passwd" ∷ []; size = 900 }

abbrev disk : Disk
disk = record { files = passwords ∷ []; dirs = [] }

abbrev member : String → ZipMember
member name = record {
  filename = name;
  is_symlink = false;
  is_dir = false;
  chunks = some 40 ∷ some 2 ∷ [];
}

abbrev infos : List ZipMember
infos = member "src/app.py" ∷ member "../../etc/passwd" ∷ []

-- The first member is written, and the second ends the extraction.
extract_stops : safe_extract_archive "upload.zip" dir (some infos) none disk ≡ (
  record {
    files = record { path = "srv" ∷ "scan" ∷ "src" ∷ "app.py" ∷ []; size = 42 } ∷ passwords ∷ [];
    dirs = ("srv" ∷ "scan" ∷ "src" ∷ []) ∷ dir ∷ [];
  },
  false,
)
unfolding safe_extract_archive
extract_stops = refl

safe_extract_archive-outside_example :
    files_outside dir (safe_extract_archive "upload.zip" dir (some infos) none disk).0
    ≡ passwords ∷ []
safe_extract_archive-outside_example =
    safe_extract_archive-outside "upload.zip" dir (some infos) none disk

safe_extract_archive-size_example :
    sum_sizes (safe_extract_archive "upload.zip" dir (some infos) none disk).0.files
    ≤ 900 + max_extracted_size
safe_extract_archive-size_example =
    safe_extract_archive-size "upload.zip" dir (some infos) none disk

-- The read that raises takes the file away again.
abbrev scan : Disk
scan = record { files = passwords ∷ []; dirs = dir ∷ [] }

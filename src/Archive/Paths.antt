-- ===== src/Archive/Paths.antt =====
-- app/core/archive.py: `_safe_destination`, on the paths of a POSIX system without links. A resolved
-- path is the list of its components below the root.
use Prim.Native.Char.{code}
use control_gate_backend.Prelude.{
  String, Bool, true, false, not, ◌≡◌, refl, ◌&&◌, ◌||◌, Option, none, some, List, [], ◌∷◌, ◌++◌,
  arith, ◌==◌, if◌then◌else◌, is_truthy, str_eq, eq_iff,
}

abbrev pub Components : Type 0
Components = List String

abbrev pub path_eq : Components → Components → Bool
path_eq [] [] = true
path_eq [] (q ∷ qs) = false
path_eq (p ∷ ps) [] = false
path_eq (p ∷ ps) (q ∷ qs) = str_eq p q && path_eq ps qs

-- `p == q or p in q.parents`
abbrev pub is_within : Components → Components → Bool
is_within [] q = true
is_within (p ∷ ps) [] = false
is_within (p ∷ ps) (q ∷ qs) = str_eq p q && is_within ps qs

-- `p.parent`; the root is its own parent
unfoldable pub parent : Components → Components
parent [] = []
parent (p ∷ []) = []
parent (p ∷ q ∷ ps) = p ∷ parent (q ∷ ps)

put_first : String → List String → List String
put_first c [] = c ∷ []
put_first c (part ∷ parts) = text_cons c part ∷ parts
  where
    text_cons : String → String → String
    text_cons String.[] part = part
    text_cons (String.◌∷◌ x s) part = String.◌∷◌ x part

-- the components of a member's name
unfoldable pub split_name : String → List String
unfolding put_first
split_name String.[] = "" ∷ []
split_name (String.◌∷◌ c s) =
    let rest = split_name s in
    if code c == b'/' then "" ∷ rest else put_first (String.◌∷◌ c "") rest

-- `"\x00" in member_name`
unfoldable pub has_nul : String → Bool
has_nul String.[] = false
has_nul (String.◌∷◌ c s) = code c == 0 || has_nul s

-- `member_path.is_absolute()`
unfoldable pub is_absolute : String → Bool
is_absolute String.[] = false
is_absolute (String.◌∷◌ c s) = code c == b'/'

-- `(dest_root / member_path).resolve()`
unfoldable pub resolve : Components → List String → Components
unfolding parent
resolve base [] = base
resolve base (part ∷ parts) =
    let stay = resolve base parts in
    let up = resolve (parent base) parts in
    let down = resolve (base ++ part ∷ []) parts in
    if str_eq part "" || str_eq part "." then stay else if str_eq part ".." then up else down

-- `_safe_destination`, where `none` is a `ValueError`
unfoldable pub safe_destination : Components → String → Option Components
unfolding split_name has_nul is_absolute resolve
safe_destination dest_root member_name =
    let target = resolve dest_root (split_name member_name) in
    if not (is_truthy (some member_name)) || has_nul member_name
    then none
    else if is_absolute member_name
    then none
    else if not (is_within dest_root target)
    then none
    else some target

pub path_eq-true : (p q : Components) → path_eq p q ≡ true → p ≡ q
path_eq-true [] [] h = refl
path_eq-true [] (q ∷ qs) h = cc
path_eq-true (p ∷ ps) [] h = cc
path_eq-true (p ∷ ps) (q ∷ qs) h = ground (arith, eq_iff p q, path_eq-true ps qs)

-- A destination that is accepted lies within the extraction directory.
pub safe_destination-within :
    (dest_root target : Components) (member_name : String)
    → safe_destination dest_root member_name ≡ some target
    → is_within dest_root target ≡ true
unfolding safe_destination
safe_destination-within dest_root target member_name h = ground arith

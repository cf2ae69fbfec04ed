-- ===== src/Pipeline/Cluster.antt =====
-- `_normalize_sink`, `_same_finding` and `_cluster_by_same_finding` of semantic_engine/pipeline.py, on
-- ASCII text. The items are of any type that has a location and a sink label.
pub mod Pairs
pub mod Groups
pub mod Correct
use control_gate_backend.Prelude.{
  ℕ, zero, suc, String, Bool, true, false, not, ◌&&◌, ◌||◌, Option, none, some, List, [], ◌∷◌, ◌++◌,
  map, leb, ◌==◌, if◌then◌else◌, str_eq, length, get_or, get_elem?, is_cons,
}
use control_gate_backend.Prelude.Texts.{
  Text, codes_of, lower, is_space, is_word_code, strip_front, strip_back, starts_with, same_text,
}
use control_gate_backend.Pipeline.Forest.{Parents, find, union_all}

-- The keys of a location that the pipeline reads; a key may be missing, and `None` is `{}`.
pub record Location : Type 0 where
  pub file : Option String
  pub start_line : Option ℕ
  pub end_line : Option ℕ

-- What `_same_finding` reads of an item.
pub record Place : Type 0 where
  pub location : Location
  pub sink_label : Option Text

-- `[a-zA-Z_]`
abbrev pub starts_name : ℕ → Bool
starts_name c = (leb b'a' c && leb c b'z') || (leb b'A' c && leb c b'Z') || c == b'_'

-- `[\w.]`
abbrev pub continues_name : ℕ → Bool
continues_name c = is_word_code c || c == b'.'

abbrev pub take_name : Text → Text
take_name [] = []
take_name (c ∷ cs) = let rest = take_name cs in if continues_name c then c ∷ rest else []

-- `\s*\(`
abbrev pub opens_call : Text → Bool
opens_call text = starts_with (b'(' ∷ []) (strip_front is_space text)

-- `_SINK_CALL_RE.search`, its first group: after a name, `[\w.]*` leaves no shorter match.
unfoldable pub callee_of : Text → Option Text
callee_of [] = none
callee_of (c ∷ cs) =
    let later = callee_of cs in
    if starts_name c && opens_call (strip_front continues_name cs)
    then some (c ∷ take_name cs)
    else later

abbrev pub is_call_mark : ℕ → Bool
is_call_mark c = c == b'(' || c == b')' || c == b';'

abbrev pub drop_prefix : Text → Text → Text
drop_prefix [] text = text
drop_prefix (p ∷ ps) [] = []
drop_prefix (p ∷ ps) (c ∷ cs) = drop_prefix ps cs

-- `re.sub(r'^(?:self|this)\.', '', text)`
abbrev pub drop_receiver : Text → Text
drop_receiver text =
    if starts_with (codes_of "self.") text || starts_with (codes_of "this.") text
    then drop_prefix (codes_of "self.") text
    else text

abbrev pub strip_lower : Text → Text
strip_lower label = lower (strip_back is_space (strip_front is_space label))

-- `_normalize_sink`
unfoldable pub normalize_sink : Option Text → Text
unfolding callee_of
normalize_sink none = []
normalize_sink (some label) =
    let low = strip_lower label in
    let plain = strip_back is_call_mark low in
    if is_cons label then drop_receiver (get_or (callee_of low) plain) else []

-- the keys of `a.location or {}` with their defaults
abbrev pub file_of : Place → Option String
file_of a = a.location.file

abbrev pub start_of : Place → ℕ
start_of a = get_or a.location.start_line 0

abbrev pub end_of : Place → ℕ
end_of a = get_or a.location.end_line 0

abbrev pub same_file : Option String → Option String → Bool
same_file none none = true
same_file none (some g) = false
same_file (some f) none = false
same_file (some f) (some g) = str_eq f g

-- `_same_finding`
unfoldable pub same_finding : Place → Place → Bool
unfolding normalize_sink
same_finding a b =
    same_file (file_of a) (file_of b)
    && leb (start_of a) (end_of b)
    && leb (start_of b) (end_of a)
    && same_text (normalize_sink a.sink_label) (normalize_sink b.sink_label)

-- `by_file[file].append(idx)`
abbrev pub Buckets : Type 0
Buckets = List (Option String × List ℕ)

unfoldable pub add_index : Option String → ℕ → Buckets → Buckets
add_index f i [] = (f, i ∷ []) ∷ []
add_index f i ((g, is) ∷ rest) =
    let later = add_index f i rest in
    if same_file g f then (g, is ++ i ∷ []) ∷ rest else (g, is) ∷ later

-- the pairs `(indices[a], indices[b])` for `a < b`
unfoldable pub pairs_of : List ℕ → List (ℕ × ℕ)
pairs_of [] = []
pairs_of (i ∷ is) = map (λ j. (i, j)) is ++ pairs_of is

unfoldable pub bucket_pairs : Buckets → List (ℕ × ℕ)
unfolding pairs_of
bucket_pairs [] = []
bucket_pairs ((f, is) ∷ rest) = pairs_of is ++ bucket_pairs rest

module _ {A : Type 0} where
  -- `clusters[root].append(item)`
  unfoldable pub add_item : ℕ → A → List (ℕ × List A) → List (ℕ × List A)
  add_item r x [] = (r, x ∷ []) ∷ []
  add_item r x ((k, xs) ∷ rest) =
      let later = add_item r x rest in if k == r then (k, xs ++ x ∷ []) ∷ rest else (k, xs) ∷ later

  -- the loop that fills `clusters`, from the index of its first item
  unfoldable pub collect : ℕ → Parents → ℕ → List A → List (ℕ × List A) → List (ℕ × List A)
  unfolding add_item find
  collect fuel p idx [] clusters = clusters
  collect fuel p idx (x ∷ xs) clusters =
      let (p', r) = find fuel p idx in collect fuel p' (suc idx) xs (add_item r x clusters)

module _ {A : Type 0} (place : A → Place) where
  -- the loop that fills `by_file`
  unfoldable pub bucket_items : ℕ → List A → Buckets → Buckets
  unfolding add_index
  bucket_items idx [] buckets = buckets
  bucket_items idx (x ∷ xs) buckets =
      bucket_items (suc idx) xs (add_index (file_of (place x)) idx buckets)

  abbrev pub same_items : Option A → Option A → Bool
  same_items none y = false
  same_items (some x) none = false
  same_items (some x) (some y) = same_finding (place x) (place y)

  -- `_same_finding(items[i], items[j])`
  abbrev pub same_at : List A → ℕ → ℕ → Bool
  same_at items i j = same_items (get_elem? items i) (get_elem? items j)

  abbrev pub pairs_in : List A → List (ℕ × ℕ)
  pairs_in items = bucket_pairs (bucket_items 0 items [])

  -- `_cluster_by_same_finding`; a tree is never higher than the number of its unions
  unfoldable pub cluster_by_same_finding : List A → List (List A)
  unfolding collect union_all bucket_items bucket_pairs same_finding
  cluster_by_same_finding items =
      let fuel = suc (length (pairs_in items)) in
      let parent = union_all fuel (same_at items) (pairs_in items) (λ i. i) in
      map (λ (e : ℕ × List A). e.1) (collect fuel parent 0 items [])

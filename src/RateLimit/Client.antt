-- ===== src/RateLimit/Client.antt =====
-- app/core/rate_limit.py: the client address that a request is counted under.
use Prim.Native.Char.{code}
use control_gate_backend.Prelude.{
  ℕ, String, Bool, true, not, ◌-◌, ◌≡◌, ◌≤◌, ◌<◌, ◌⊎◌, refl, ◌&&◌, ◌||◌, Option, none, some, List,
  [], ◌∷◌, ◌++◌, map, arith, leb, ltb, ◌==◌, if◌then◌else◌, get_or, is_truthy, filter, length,
  length-append, get_elem?, text_append,
}
use control_gate_backend.RateLimit.{Limiter, check_key}

-- What the limiter reads of a request: the header "x-forwarded-for" and the socket's peer.
pub record Request : Type 0 where
  pub forwarded_for : Option String
  pub peer : Option String

-- `str.isspace` on ASCII
is_space : ℕ → Bool
is_space c = c == b' ' || (leb 9 c && leb c 13) || (leb 28 c && leb c 31)

strip_left : String → String
unfolding is_space
strip_left String.[] = ""
strip_left (String.◌∷◌ c s) =
    let rest = strip_left s in if is_space (code c) then rest else String.◌∷◌ c s

strip_right : String → String
unfolding is_space
strip_right String.[] = ""
strip_right (String.◌∷◌ c s) =
    let rest = strip_right s in
    if is_space (code c) && not (is_truthy (some rest)) then "" else String.◌∷◌ c rest

push_first : String → List String → List String
push_first c [] = c ∷ []
push_first c (part ∷ parts) = text_append c part ∷ parts

-- `text.split(",")`
split_commas : String → List String
unfolding push_first
split_commas String.[] = "" ∷ []
split_commas (String.◌∷◌ c s) =
    let rest = split_commas s in
    if code c == b',' then "" ∷ rest else push_first (String.◌∷◌ c "") rest

-- `[part.strip() for part in forwarded_for.split(",") if part.strip()]`
unfoldable pub forwarded_chain : String → List String
unfolding split_commas strip_left strip_right
forwarded_chain text =
    filter (λ part. is_truthy (some part))
      (map (λ part. strip_right (strip_left part)) (split_commas text))

abbrev peer_of : Option String → String
peer_of p = get_or p "unknown"

-- `index = len(chain) - 1 - hop_count`, and the entry at a valid index
pub chain_entry : ℕ → List String → Option String
chain_entry hop_count chain =
    if ltb hop_count (length chain) then get_elem? chain (length chain - 1 - hop_count) else none

from_chain : ℕ → Option String → Option String → Option String
unfolding forwarded_chain chain_entry
from_chain hop_count none peer = none
from_chain hop_count (some text) peer =
    if is_truthy (some text) then chain_entry hop_count (forwarded_chain text) else none

-- `_resolve_client_ip`
pub resolve_client_ip : ℕ → Request → String
unfolding from_chain
resolve_client_ip hop_count r =
    if ltb 0 hop_count
    then get_or (from_chain hop_count r.forwarded_for r.peer) (peer_of r.peer)
    else peer_of r.peer

-- `check_rate_limit`: the key is `f"{bucket}:{host}"`
pub check_rate_limit : ℕ → Request → String → ℕ → ℕ → ℕ → Limiter → Limiter × Bool
unfolding resolve_client_ip
check_rate_limit hop_count r bucket limit window now s =
    check_key (text_append bucket (text_append ":" (resolve_client_ip hop_count r))) limit window
      now s

get_elem?-append :
    (left right : List String) (x : String) → get_elem? (left ++ x ∷ right) (length left) ≡ some x
get_elem?-append [] right x = refl
get_elem?-append (y ∷ left) right x = get_elem?-append left right x

-- The address that a chain gives is the one just left of the rightmost `hop_count` entries.
pub chain_entry_lem :
    (left right : List String) (x : String)
    → chain_entry (length right) (left ++ x ∷ right) ≡ some x
unfolding chain_entry
chain_entry_lem left right x =
    let e = length-append left (x ∷ right) in
    let index : length (left ++ x ∷ right) - 1 - length right ≡ length left = omega (arith, e) in
    let long : length right < length (left ++ x ∷ right) = omega (arith, e) in
    rw index (ground (arith, get_elem?-append left right x))

-- A chain that is too short has no entry to give.
beyond : (n : ℕ) (chain : List String) → length chain ≤ n → chain_entry n chain ≡ none
unfolding chain_entry
beyond n chain short = ground arith

-- With `hop_count` trusted proxies, of which each appends one entry, the counted address is the last
-- entry that was in the header before them, so whoever sends a header of one entry chooses it.
pub resolve_client_ip-sent :
    (text : String) (peer : Option String) (sent : List String) (x : String)
    (appended : List String)
    → forwarded_chain text ≡ sent ++ x ∷ appended
    → is_truthy (some text) ≡ true
    → 0 < length appended
    → resolve_client_ip (length appended) (record { forwarded_for = some text; peer = peer }) ≡ x
unfolding resolve_client_ip
resolve_client_ip-sent text peer sent x appended e full some_hop =
    ground (arith, chain_entry_lem sent appended x)

-- A chain that is no longer than the number of trusted proxies, and any header where none is
-- trusted, leaves the socket's peer as the counted address.
pub resolve_client_ip-peer :
    (hop_count : ℕ) (text : String) (peer : Option String)
    → (hop_count ≡ 0) ⊎ (length (forwarded_chain text) ≤ hop_count)
    → resolve_client_ip hop_count (record { forwarded_for = some text; peer = peer })
      ≡ get_or peer "unknown"
unfolding resolve_client_ip
resolve_client_ip-peer hop_count text peer h =
    ground (arith, beyond hop_count (forwarded_chain text))

-- ===== src/Network.antt =====
-- app/core/network.py: which URLs a scan or a clone may reach. The parts of a URL (urlsplit), the
-- classes of an address (ipaddress) and name resolution (getaddrinfo) come from Python's library and
-- are arguments; the environment's opt-out is the flag `allow_private`.
pub mod Guard
mod Examples
use control_gate_backend.Prelude.{
  ℕ, String, Bool, true, false, not, ◌+◌, ◌&&◌, ◌||◌, Option, none, some, List, [], ◌∷◌, ◌==◌, leb,
  if◌then◌else◌, all, any, is_cons, is_truthy, get_or, str_eq,
}
use control_gate_backend.Prelude.Texts.{
  Text, codes_of, same_text, lower, is_space, strip_front, strip_back, ends_with,
}

-- A host name, by its code points.
abbrev pub Host : Type 0
Host = Text

abbrev is_bracket : ℕ → Bool
is_bracket c = c == b'[' || c == b']'

-- `host.strip().strip("[]").lower().rstrip(".")`
pub normalize : Host → Host
normalize host =
    let bare = strip_back is_space (strip_front is_space host) in
    strip_back (λ c. c == b'.') (lower (strip_back is_bracket (strip_front is_bracket bare)))

-- `normalized in _LOCAL_HOSTNAMES or normalized.endswith(".localhost")`
pub is_local : Host → Bool
is_local host =
    same_text host (codes_of "localhost")
    || same_text host (codes_of "localhost.localdomain")
    || ends_with (codes_of ".localhost") host

-- the properties of an `ip_address`
pub record Address : Type 0 where
  pub is_private : Bool
  pub is_loopback : Bool
  pub is_link_local : Bool
  pub is_multicast : Bool
  pub is_reserved : Bool
  pub is_unspecified : Bool

-- the condition of `_reject_private_ip`
abbrev pub is_rejected : Address → Bool
is_rejected ip =
    ip.is_private || ip.is_loopback || ip.is_link_local || ip.is_multicast || ip.is_reserved
    || ip.is_unspecified

-- The outcome of `_reject_private_ip`.
pub data IpCheck : Type 0 where
  accepted rejected not_an_address : IpCheck

abbrev pub class_of : Option Address → IpCheck
class_of none = not_an_address
class_of (some ip) = if is_rejected ip then rejected else accepted

abbrev pub is_accepted : IpCheck → Bool
is_accepted accepted = true
is_accepted rejected = false
is_accepted not_an_address = false

-- What `urlsplit` finds in a URL.
pub record Parts : Type 0 where
  pub scheme : String
  pub hostname : Option String
  pub username : Option String
  pub password : Option String

module _ (ip_address : Host → Option Address) (getaddrinfo : Host → Option (List Host)) where
  pub reject_private_ip : Host → IpCheck
  reject_private_ip text = class_of (ip_address text)

  -- the loop over the resolved addresses, in which every error is raised
  check_resolved : Option (List Host) → Bool
  unfolding reject_private_ip
  check_resolved none = false
  check_resolved (some infos) = all (λ a. is_accepted (reject_private_ip a)) infos

  -- `_validate_public_host`: whether it returns
  pub validate_public_host : Bool → Bool → Host → Bool
  unfolding normalize is_local reject_private_ip check_resolved
  validate_public_host allow_private resolve host =
      let normalized = normalize host in
      if not (is_cons normalized)
      then false
      else if allow_private
      then true
      else if is_local normalized
      then false
      else elim (reject_private_ip normalized) [
        | accepted ↦ true
        | rejected ↦ false
        | not_an_address ↦ if not resolve then true else check_resolved (getaddrinfo normalized)
      ]

  -- `validate_public_http_url`: whether it returns the URL
  pub validate_public_http_url : Bool → Bool → Bool → Parts → Bool
  unfolding validate_public_host
  validate_public_http_url allow_private allow_http resolve parts =
      if not (str_eq parts.scheme "https" || (allow_http && str_eq parts.scheme "http"))
      then false
      else if not (is_truthy parts.hostname)
      then false
      else if is_truthy parts.username || is_truthy parts.password
      then false
      else validate_public_host allow_private resolve (codes_of (get_or parts.hostname ""))

  -- `validate_public_git_url`
  pub validate_public_git_url : Bool → Parts → Bool
  unfolding validate_public_http_url
  validate_public_git_url allow_private parts =
      validate_public_http_url allow_private false true parts

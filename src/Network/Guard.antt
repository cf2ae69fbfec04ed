-- ===== src/Network/Guard.antt =====
-- app/core/network.py: what an accepted URL can reach.
use control_gate_backend.Prelude.{
  Bool, true, false, not, ◌≡◌, refl, sym, ◌∙◌, ◌&&◌, ◌||◌, Option, none, some, List, [], ◌∷◌, arith,
  all, is_truthy, get_or, str_eq, Option-cases, inl, inr,
}
use control_gate_backend.Prelude.Texts.{codes_of}
use control_gate_backend.Network.{
  Host, normalize, is_local, Address, is_rejected, Parts, reject_private_ip, is_accepted, class_of,
  check_resolved, validate_public_host, validate_public_http_url, validate_public_git_url,
}

module _ (ip_address : Host → Option Address) (getaddrinfo : Host → Option (List Host)) where
  -- An address, and in none of the six special classes.
  abbrev pub is_public : Option Address → Bool
  is_public none = false
  is_public (some ip) =
      not ip.is_private
      && not ip.is_loopback
      && not ip.is_link_local
      && not ip.is_multicast
      && not ip.is_reserved
      && not ip.is_unspecified

  -- The addresses that a connection to a host may go to: the host itself where it is an address,
  -- and what it resolves to otherwise.
  abbrev pub resolved : Option (List Host) → List Host
  resolved none = []
  resolved (some hosts) = hosts

  abbrev literal_or : Option Address → Host → List Host
  literal_or none host = resolved (getaddrinfo host)
  literal_or (some ip) host = host ∷ []

  abbrev pub reached : Host → List Host
  reached host = literal_or (ip_address host) host

  class-is_public : (o : Option Address) → is_accepted (class_of o) ≡ is_public o
  class-is_public none = refl
  class-is_public (some ip) = ground arith

  all-is_public :
      (hosts : List Host)
      → all (λ a. is_accepted (class_of (ip_address a))) hosts
        ≡ all (λ a. is_public (ip_address a)) hosts
  all-is_public [] = refl
  all-is_public (a ∷ hosts) = ground (arith, class-is_public (ip_address a), all-is_public hosts)

  check_resolved-is_public :
      (found : Option (List Host))
      → check_resolved ip_address getaddrinfo found ≡ true
      → all (λ a. is_public (ip_address a)) (resolved found) ≡ true
  unfolding check_resolved reject_private_ip
  check_resolved-is_public none h = refl
  check_resolved-is_public (some hosts) h = sym (all-is_public hosts) ∙ h

  abbrev AllPublic : List Host → Type 0
  AllPublic hosts = all (λ a. is_public (ip_address a)) hosts ≡ true

  validate_host-AllPublic :
      (host : Host)
      → validate_public_host ip_address getaddrinfo false true host ≡ true
      → AllPublic (reached (normalize host)) × (is_local (normalize host) ≡ false)
  unfolding validate_public_host reject_private_ip
  validate_host-AllPublic host h = elim (Option-cases (ip_address (normalize host))) [
    | inl e ↦
        let looked_up : check_resolved ip_address getaddrinfo (getaddrinfo (normalize host))
            ≡ true =
          ground arith in
        let public = check_resolved-is_public (getaddrinfo (normalize host)) looked_up in
        (rw e public, ground arith)
    | inr (ip, e) ↦
        let known : is_rejected ip ≡ false = ground arith in
        let public : is_public (some ip) ≡ true = ground arith in
        (rw (e, e) (ground arith), ground arith)
  ]

  -- An accepted repository URL, where private targets are not opted in, has the scheme https and no
  -- credentials, names no local host, and every address that it stands for, literally or as
  -- resolved at the check, is an address that `ipaddress` finds neither private, loopback,
  -- link-local, multicast, reserved nor unspecified.
  pub validate_public_git_url-AllPublic :
      (parts : Parts)
      → validate_public_git_url ip_address getaddrinfo false parts ≡ true
      → let host = normalize (codes_of (get_or parts.hostname "")) in
        (all (λ a. is_public (ip_address a)) (reached host) ≡ true)
        × (is_local host ≡ false)
        × (str_eq parts.scheme "https" ≡ true)
        × ((is_truthy parts.username || is_truthy parts.password) ≡ false)
  unfolding validate_public_git_url validate_public_http_url
  validate_public_git_url-AllPublic parts h =
      let inner : validate_public_host ip_address getaddrinfo false true
            (codes_of (get_or parts.hostname ""))
          ≡ true =
        ground arith in
      let (public, named) = validate_host-AllPublic (codes_of (get_or parts.hostname "")) inner in
      (public, named, ground arith, ground arith)

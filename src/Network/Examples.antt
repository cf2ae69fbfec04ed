-- ===== src/Network/Examples.antt =====
-- app/core/network.py: a repository URL whose host resolves to one public address.
use control_gate_backend.Prelude.{true, false, ◌≡◌, refl, Option, none, some, List, [], ◌∷◌, all}
use control_gate_backend.Prelude.Texts.{codes_of}
use control_gate_backend.Network.{
  Host, normalize, is_local, Address, Parts, reject_private_ip, check_resolved,
  validate_public_host, validate_public_http_url, validate_public_git_url,
}
use control_gate_backend.Network.Guard.{is_public, reached, validate_public_git_url-AllPublic}

-- One address, written with one code point.
abbrev ip_address : Host → Option Address
ip_address [] = none
ip_address (c ∷ []) = some (record {
  is_private = false;
  is_loopback = false;
  is_link_local = false;
  is_multicast = false;
  is_reserved = false;
  is_unspecified = false;
})
ip_address (c ∷ d ∷ cs) = none

abbrev getaddrinfo : Host → Option (List Host)
getaddrinfo host = some ((8 ∷ []) ∷ [])

abbrev parts : Parts
parts = record {
  scheme = "https";
  hostname = some "Git.example.org.";
  username = none;
  password = none;
}

parts_accepted : validate_public_git_url ip_address getaddrinfo false parts ≡ true
unfolding validate_public_git_url validate_public_http_url validate_public_host normalize is_local
    reject_private_ip check_resolved
parts_accepted = refl

validate_public_git_url-AllPublic_example :
    all
      (λ a. is_public ip_address getaddrinfo (ip_address a))
      (reached ip_address getaddrinfo (normalize (codes_of "Git.example.org.")))
    ≡ true
validate_public_git_url-AllPublic_example =
    (validate_public_git_url-AllPublic ip_address getaddrinfo parts parts_accepted).0

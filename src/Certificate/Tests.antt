-- ===== src/Certificate/Tests.antt =====
-- Runs of the host names.
use libpalmsocket.Base.{
  refl, Bool, ◌↔◌, ◌⊎◌, ℕ, ◌-◌, ◌≡◌, true, false, ltb, ◌&&◌, if◌then◌else◌, some, none, [], ◌∷◌,
}
use libpalmsocket.Errors.{no_error}
use libpalmsocket.Hostname.{check_cert_host_name_match, match_loop, skip_label}
use libpalmsocket.Inet.{InetSys, mismatch, ok, ipaddr_from_string}
use libpalmsocket.Errors.{success}
use libpalmsocket.Certificate.{
  verify_in_subj_alt_name, Cert, dns_name, verify_hostname, name_matches,
}
use libpalmsocket.Certificate.Names.{alt_names_of}
use libpalmsocket.Certificate.Hosts.{Any, Counts, Matches, IsCommon, IsAddress, verify_hostname_iff}

abbrev upper : ℕ → ℕ
upper c = if ltb 96 c && ltb c 123 then c - 32 else c

-- A system to which no name is an address
abbrev no_addresses : InetSys
no_addresses = record {
  inet_pton = λ f s. mismatch;
  fcntl_getfl = λ fd. ok 2;
  or_nonblock = λ flags. 2050;
  fcntl_setfl = λ fd flags. success;
  connect = λ fd a. success;
}

-- A certificate with the alternative name "b" and the common name "a"
abbrev two_names : Cert
two_names = record {
  has_extensions = true;
  alt_names = some (none ∷ some (dns_name true (98 ∷ [])) ∷ []);
  common_names = some (some (97 ∷ []) ∷ []);
}

a_run : verify_hostname upper no_addresses (some (97 ∷ [])) (some two_names) 0 0 ≡ (no_error, false)
unfolding verify_hostname verify_in_subj_alt_name name_matches check_cert_host_name_match match_loop
    skip_label ipaddr_from_string
a_run = refl

a_is_name : IsAddress upper no_addresses 97 [] 0 none
unfolding ipaddr_from_string
a_is_name = refl

-- the host "a"
verify_hostname_iff_example :
    (b : Bool) × (verify_hostname upper no_addresses (some (97 ∷ [])) (some two_names) 0 0
      ≡ (no_error, b))
    × ((b ≡ true) ↔ (
        Any (Matches upper no_addresses 97 [] 0 none) (alt_names_of two_names)
        ⊎ ((Any (Counts upper no_addresses 97 [] 0 none) (alt_names_of two_names) → ⊥)
            × Any (IsCommon upper no_addresses 97 [] 0 none) (some (97 ∷ []) ∷ []))))
verify_hostname_iff_example =
    verify_hostname_iff upper no_addresses 97 [] 0 refl none two_names a_is_name

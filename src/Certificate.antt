-- ===== src/Certificate.antt =====
-- The host names of src/psl_openssl_utils.c: whether a certificate, by its subject alternative names or
-- else by the common names of its subject, is for a host. OpenSSL's structures are their fields.
pub mod Names
pub mod Hosts
mod Tests
use libpalmsocket.Base.{
  ℕ, suc, Bool, true, false, not, ◌&&◌, ◌||◌, Option, none, some, List, [], ◌∷◌, ltb, ◌==◌, length,
  if◌then◌else◌,
}
use libpalmsocket.Errors.{PslError, no_error, inval, is_error}
use libpalmsocket.Inet.{InetSys, Family, ipaddr_from_string}
use libpalmsocket.Hostname.{check_cert_host_name_match}

-- `GENERAL_NAME`: a DNS name, and whether it is an IA5 string; an address; or another kind.
pub data GeneralName : Type 0 where
  dns_name : Bool → List ℕ → GeneralName
  ip_address : List ℕ → GeneralName
  other_name : GeneralName

-- `X509`: whether it has extensions, its alternative names, some of which may be NULL, and the common
-- names of its subject, `none` for one whose entry, data or UTF-8 text is not to be had.
pub record Cert : Type 0 where
  pub has_extensions : Bool
  pub alt_names : Option (List (Option GeneralName))
  pub common_names : Option (List (Option (List ℕ)))

-- `INET6_ADDRSTRLEN` of the system
abbrev pub inet6_addrstrlen : ℕ
inet6_addrstrlen = 46

-- equal lengths and `memcmp`
abbrev pub eq_bytes : List ℕ → List ℕ → Bool
eq_bytes [] [] = true
eq_bytes [] (y ∷ ys) = false
eq_bytes (x ∷ xs) [] = false
eq_bytes (x ∷ xs) (y ∷ ys) = (x == y) && eq_bytes xs ys

abbrev pub has_nul : List ℕ → Bool
has_nul [] = false
has_nul (x ∷ xs) = (x == 0) || has_nul xs

-- `!pslerr && gotMatch`
abbrev pub got : PslError × Option Bool → Bool
got (e, some true) = not (is_error e)
got (e, some false) = false
got (e, none) = false

module _ (toupper : ℕ → ℕ) (sys : InetSys) (hn : List ℕ) (name_match_opts : ℕ) where
  -- `PmSockX509CheckCertHostNameMatch` with fuel for the whole of the host's name
  unfoldable pub name_matches : List ℕ → Bool
  unfolding check_cert_host_name_match
  name_matches s =
      got (check_cert_host_name_match toupper (suc (length hn)) (some s) (some hn) name_match_opts)

  -- The address that the host is, if it is one: then the addresses of the certificate count, else its
  -- DNS names. `none` is a name that does not count; else whether it matches.
  abbrev pub entry : Option (List ℕ) → GeneralName → Option Bool
  entry none (dns_name ia5 s) = if ia5 then some (name_matches s) else none
  entry (some a) (ip_address s) = some (eq_bytes a s)
  entry _ _ = none

  -- What follows from a name; `go` goes on with the names after it.
  abbrev pub san_by : (Bool → Bool × Bool) → Bool → Option Bool → Bool × Bool
  san_by go saw none = go saw
  san_by go saw (some true) = (true, true)
  san_by go saw (some false) = go true

  -- The loop over the alternative names: `gotMatch`, and `*pSawRelevantSanEntry`, which `saw` is so far.
  unfoldable pub san_loop : Option (List ℕ) → List (Option GeneralName) → Bool → Bool × Bool
  unfolding name_matches
  san_loop a [] saw = (false, saw)
  san_loop a (none ∷ xs) saw = san_loop a xs saw
  san_loop a (some g ∷ xs) saw = san_by (λ s. san_loop a xs s) saw (entry a g)

  abbrev pub in_alt_names : Option (List ℕ) → Option (List (Option GeneralName)) → Bool × Bool
  in_alt_names a none = (false, false)
  in_alt_names a (some names) = san_loop a names false

  -- `verify_hostname_in_subj_alt_name`
  unfoldable pub verify_in_subj_alt_name : Option (List ℕ) → Cert → Bool × Bool
  unfolding san_loop
  verify_in_subj_alt_name a cert =
      if cert.has_extensions then in_alt_names a cert.alt_names else (false, false)

  abbrev pub parsed_as : List ℕ → Option (Family × List ℕ) → Bool
  parsed_as a none = false
  parsed_as a (some (f, b)) = eq_bytes a b

  -- Whether one common name matches.
  abbrev pub common_name : Option (List ℕ) → List ℕ → Bool
  common_name none s = name_matches s
  common_name (some a) s =
      if ltb (length s) inet6_addrstrlen && not (has_nul s)
      then parsed_as a (ipaddr_from_string sys (some s))
      else false

  unfoldable pub cn_loop : Option (List ℕ) → List (Option (List ℕ)) → Bool
  unfolding name_matches ipaddr_from_string
  cn_loop a [] = false
  cn_loop a (none ∷ xs) = cn_loop a xs
  cn_loop a (some s ∷ xs) = let rest = cn_loop a xs in if common_name a s then true else rest

  -- `verify_hostname_in_common_name`
  unfoldable pub verify_in_common_name : Option (List ℕ) → Cert → Bool
  unfolding cn_loop
  verify_in_common_name a cert = elim cert.common_names [ none ↦ false | some xs ↦ cn_loop a xs ]

  -- the address that the host is
  abbrev pub address_of : Option (Family × List ℕ) → Option (List ℕ)
  address_of none = none
  address_of (some (f, b)) = some b

  abbrev pub host_address : Option (List ℕ)
  host_address = address_of (ipaddr_from_string sys (some hn))

  abbrev pub else_common_name : Cert → Bool × Bool → PslError × Bool
  else_common_name cert (true, saw) = (no_error, true)
  else_common_name cert (false, true) = (no_error, false)
  else_common_name cert (false, false) = (no_error, verify_in_common_name host_address cert)

-- `PmSockOpensslVerifyHostname`: the error and `*pMatchRes`. NULL is `none`.
unfoldable pub verify_hostname :
    (ℕ → ℕ) → InetSys → Option (List ℕ) → Option Cert → ℕ → ℕ → PslError × Bool
unfolding verify_in_subj_alt_name verify_in_common_name ipaddr_from_string
verify_hostname toupper sys (some (h ∷ hs)) (some cert) verify_opts opts =
    if verify_opts == 0
    then else_common_name toupper sys (h ∷ hs) opts cert (
        verify_in_subj_alt_name toupper sys (h ∷ hs) opts (host_address toupper sys (h ∷ hs) opts)
          cert)
    else (inval, false)
verify_hostname toupper sys _ _ verify_opts opts = (inval, false)

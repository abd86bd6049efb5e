-- ===== src/Inet.antt =====
-- src/psl_inet_utils.c: socket addresses, and the calls that set up a socket.
-- The results of the system calls are the parameter `Sys`. Texts are lists of bytes.
pub mod Laws
mod Tests
use libpalmsocket.Base.{
  ℕ, ◌%◌, ◌^◌, ◌≡◌, ◌≢◌, Bool, true, false, Option, none, some, List, [], ◌∷◌, ℤ, if◌then◌else◌,
}
use libpalmsocket.Errors.{
  PslError, no_error, bad_serv_addr, socket_config, Errno, success, einval, einprogress,
  pslerror_from_errno, pslerror_from_connect_errno,
}

pub data Family : Type 0 where
  af_unspec af_inet af_inet6 : Family
  af_other : ℕ → Family

-- What `inet_pton` gives: an address (1), that the text is none of the family (0), or an error (-1).
pub data Pton : Type 0 where
  parsed : List ℕ → Pton
  mismatch : Pton
  pton_failed : Errno → Pton

-- INADDR_ANY or in6addr_any, or the bytes of an address
pub data Address : Type 0 where
  any_address : Address
  address : List ℕ → Address

-- `PslInetGenericSockAddr`; the port is what `htons` takes of it.
pub record SockAddr : Type 0 where
  pub family : Family
  pub port : ℕ
  pub addr : Address

-- The result of a call that gives a value or fails with an `errno`.
pub data Outcome {ℓ} (A : Type ℓ) : Type ℓ where
  ok : A → Outcome A
  err : Errno → Outcome A

-- The system calls as this module makes them.
pub record InetSys : Type 0 where
  pub inet_pton : Family → List ℕ → Pton
  pub fcntl_getfl : ℤ → Outcome ℕ
  pub or_nonblock : ℕ → ℕ
  pub fcntl_setfl : ℤ → ℕ → Errno
  pub connect : ℤ → SockAddr → Errno

-- EINVAL is what `psl_inet_make_sock_addr` returns for an address that it cannot use.
module _ (sys : InetSys) where
  open sys use {inet_pton, fcntl_getfl, or_nonblock, fcntl_setfl, connect}

  abbrev second_try : Pton → Option (Family × List ℕ)
  second_try (parsed a) = some (af_inet6, a)
  second_try mismatch = none
  second_try (pton_failed _) = none

  abbrev first_try : List ℕ → Pton → Option (Family × List ℕ)
  first_try hn (parsed a) = some (af_inet, a)
  first_try hn mismatch = second_try (inet_pton af_inet6 hn)
  first_try hn (pton_failed _) = second_try (inet_pton af_inet6 hn)

  -- `psl_inet_ipaddr_from_string`; NULL is `none`.
  unfoldable pub ipaddr_from_string : Option (List ℕ) → Option (Family × List ℕ)
  ipaddr_from_string none = none
  ipaddr_from_string (some []) = none
  ipaddr_from_string (some (c ∷ cs)) = first_try (c ∷ cs) (inet_pton af_inet (c ∷ cs))

  -- `psl_inet_is_hostname_ip_address`
  unfoldable pub is_hostname_ip_address : Option (List ℕ) → Bool
  unfolding ipaddr_from_string
  is_hostname_ip_address hn = elim (ipaddr_from_string hn) [ none ↦ false | some _ ↦ true ]

  abbrev filled : Family → ℕ → Address → SockAddr
  filled f port a = record { family = f; port = port % 2 ^ 16; addr = a }

  abbrev from_pton : Family → ℕ → Pton → Outcome SockAddr
  from_pton f port (parsed a) = ok (filled f port (address a))
  from_pton f port mismatch = err einval
  from_pton f port (pton_failed e) = err e

  -- the end of `psl_inet_make_sock_addr` for a family that is known
  abbrev for_family : Family → Option (List ℕ) → ℕ → Outcome SockAddr
  for_family f none port = ok (filled f port any_address)
  for_family f (some s) port = from_pton f port (inet_pton f s)

  abbrev resolved : ℕ → Option (Family × List ℕ) → Outcome SockAddr
  resolved port none = err einval
  resolved port (some (f, a)) = ok (filled f port (address a))

  -- `psl_inet_make_sock_addr`
  unfoldable pub make_sock_addr : Family → Option (List ℕ) → ℕ → Outcome SockAddr
  unfolding ipaddr_from_string
  make_sock_addr af_inet s port = for_family af_inet s port
  make_sock_addr af_inet6 s port = for_family af_inet6 s port
  make_sock_addr af_unspec s port = resolved port (ipaddr_from_string s)
  make_sock_addr (af_other _) s port = err einval

  abbrev set_flags : ℤ → Outcome ℕ → PslError
  set_flags fd (err e) = pslerror_from_errno e socket_config
  set_flags fd (ok flags) = elim (fcntl_setfl fd (or_nonblock flags)) [
    | success ↦ no_error
    | e ↦ pslerror_from_errno e socket_config
  ]

  -- `psl_inet_make_fd_non_blocking`; a call that succeeds has the `errno` `success` here.
  unfoldable pub make_fd_non_blocking : ℤ → PslError
  make_fd_non_blocking fd = set_flags fd (fcntl_getfl fd)

  abbrev connected : Errno → PslError
  connected success = no_error
  connected einprogress = no_error
  connected e = pslerror_from_connect_errno e

  abbrev connect_to : ℤ → Outcome SockAddr → PslError
  connect_to s (err _) = bad_serv_addr
  connect_to s (ok server) = connected (connect s server)

  -- `psl_inet_connect_sock`
  unfoldable pub connect_sock : ℤ → Family → Option (List ℕ) → ℕ → PslError
  unfolding make_sock_addr
  connect_sock s f addr port = connect_to s (make_sock_addr f addr port)

-- ===== src/Inet/Laws.antt =====
-- What src/psl_inet_utils.c promises of the addresses that it makes and of its error codes.
use libpalmsocket.Base.{ℕ, ◌^◌, ◌<◌, ◌≡◌, ◌⊎◌, Option, none, some, List, [], ◌∷◌, ℤ, arith, refl}
use libpalmsocket.Errors.{no_error, Errno, success, einprogress, pslerror_from_connect_errno}
use libpalmsocket.Inet.{
  Family, af_unspec, af_inet, af_inet6, af_other, parsed, SockAddr, Address, any_address, address,
  Outcome, ok, err, InetSys, connected, connect_to, make_sock_addr, connect_sock,
}

abbrev pub bytes_of : Address → List ℕ
bytes_of any_address = []
bytes_of (address bytes) = bytes

module _ (sys : InetSys) where
  -- The address stands for the text: the wildcard for none, and otherwise what `inet_pton` reads from it
  -- in the address's family.
  abbrev pub Reads : Option (List ℕ) → SockAddr → Type 0
  Reads none a = a.addr ≡ any_address
  Reads (some s) a =
      (a.addr ≡ address (bytes_of a.addr)) × (sys.inet_pton a.family s ≡ parsed (bytes_of a.addr))

  -- Every address that is made is of IPv4 or IPv6, of the family asked for unless that was AF_UNSPEC, and
  -- has a port of 16 bits. Without a text it is the wildcard, and with one it has the bytes that
  -- `inet_pton` reads from the text in that family.
  pub make_sock_addr_lem :
      (f : Family) (text : Option (List ℕ)) (port : ℕ) {a : SockAddr}
      → make_sock_addr sys f text port ≡ ok a
      → ((a.family ≡ af_inet) ⊎ (a.family ≡ af_inet6))
        × ((f ≡ af_unspec) ⊎ (a.family ≡ f))
        × (a.port < 2 ^ 16)
        × Reads text a
  unfolding make_sock_addr
  make_sock_addr_lem af_inet none port e = ground arith
  make_sock_addr_lem af_inet (some s) port e = ground arith
  make_sock_addr_lem af_inet6 none port e = ground arith
  make_sock_addr_lem af_inet6 (some s) port e = ground arith
  make_sock_addr_lem af_unspec none port e = ground arith
  make_sock_addr_lem af_unspec (some []) port e = ground arith
  make_sock_addr_lem af_unspec (some (c ∷ cs)) port e = ground arith
  make_sock_addr_lem (af_other n) text port e = ground arith

  not_success : (e : Errno) → connected sys e ≡ no_error → (e ≡ success) ⊎ (e ≡ einprogress)
  unfolding pslerror_from_connect_errno
  not_success e h = ground arith

  from_outcome :
      (s : ℤ) (o : Outcome SockAddr)
      → connect_to sys s o ≡ no_error
      → (a : SockAddr) × (o ≡ ok a)
        × ((sys.connect s a ≡ success) ⊎ (sys.connect s a ≡ einprogress))
  from_outcome s (ok a) h = (a, refl, not_success (sys.connect s a) h)
  from_outcome s (err e) h = ground arith

  -- A connection attempt that reports no error was made, to an address made for the server's text, and
  -- `connect` succeeded or is in progress.
  pub connect_sock_lem :
      (s : ℤ) (f : Family) (text : Option (List ℕ)) (port : ℕ)
      → connect_sock sys s f text port ≡ no_error
      → (a : SockAddr) × (make_sock_addr sys f text port ≡ ok a)
        × ((sys.connect s a ≡ success) ⊎ (sys.connect s a ≡ einprogress))
  unfolding connect_sock
  connect_sock_lem s f text port e = from_outcome s (make_sock_addr sys f text port) e

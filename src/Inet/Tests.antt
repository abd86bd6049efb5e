-- ===== src/Inet/Tests.antt =====
-- Runs of the socket addresses of src/psl_inet_utils.c.
use libpalmsocket.Base.{ℕ, ◌<◌, ◌^◌, ◌≡◌, ◌⊎◌, refl, some, List, [], ◌∷◌, pos}
use libpalmsocket.Errors.{no_error, success, einprogress}
use libpalmsocket.Inet.{
  Family, af_unspec, af_inet, af_inet6, Pton, parsed, mismatch, SockAddr, address, ok, InetSys,
  make_sock_addr, connect_sock, ipaddr_from_string,
}
use libpalmsocket.Inet.Laws.{Reads, make_sock_addr_lem}

-- Only IPv6 reads a text, and a connection takes a while.
abbrev pton6 : Family → List ℕ → Pton
pton6 af_inet6 s = parsed s
pton6 _ s = mismatch

abbrev slow : InetSys
slow = record {
  inet_pton = pton6;
  fcntl_getfl = λ fd. ok 2;
  or_nonblock = λ flags. 2050;
  fcntl_setfl = λ fd flags. success;
  connect = λ fd a. einprogress;
}

abbrev text : List ℕ
text = 58 ∷ 58 ∷ 49 ∷ []

-- the port is cut to 16 bits
abbrev loopback : SockAddr
loopback = record { family = af_inet6; port = 443; addr = address text }

loopback_run : make_sock_addr slow af_unspec (some text) 65979 ≡ ok loopback
unfolding make_sock_addr ipaddr_from_string
loopback_run = refl

make_sock_addr_lem_example :
    ((af_inet6 ≡ af_inet) ⊎ (af_inet6 ≡ af_inet6))
    × ((af_unspec ≡ af_unspec) ⊎ (af_inet6 ≡ af_unspec))
    × (443 < 2 ^ 16)
    × Reads slow (some text) loopback
make_sock_addr_lem_example = make_sock_addr_lem slow af_unspec (some text) 65979 loopback_run

in_progress : connect_sock slow (pos 7) af_unspec (some text) 443 ≡ no_error
unfolding connect_sock make_sock_addr ipaddr_from_string
in_progress = refl

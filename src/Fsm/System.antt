-- ===== src/Fsm/System.antt =====
-- What the plaintext states of src/psl_channel_fsm_plain.c call outside the library.
use libpalmsocket.Base.{ℕ, Bool, List, ℤ}
use libpalmsocket.Errors.{PslError, Errno}
use libpalmsocket.Inet.{Family, SockAddr, Outcome, InetSys}
use libpalmsocket.Fsm.Types.{HostAddrInfo}

-- The calls of the system and of the host lookup, as the plaintext states make them. A call that gives
-- only an `errno` gives `success` where it succeeds.
pub record Sys : Type 0 where
  pub inet : InetSys
  pub has_cloexec : Bool
  pub socket_cloexec : Family → Outcome ℕ
  pub socket_plain : Family → Outcome ℕ
  pub set_reuse_addr : ℤ → Errno
  pub bind : ℤ → SockAddr → Errno
  pub get_so_error : ℤ → Outcome Errno
  pub shutdown : ℤ → ℕ → Errno
  pub reads : ℤ → ℕ → List (Outcome ℕ)
  pub writes : ℤ → ℕ → List (Outcome ℕ)
  pub inet_ntop : Family → List ℕ → Outcome (List ℕ)
  pub lookup_new : HostAddrInfo → PslError
  pub lookup_start : HostAddrInfo → PslError

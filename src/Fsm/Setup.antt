-- ===== src/Fsm/Setup.antt =====
-- Setting a channel up: the INIT state of src/psl_channel_fsm_main.c.
use libpalmsocket.Base.{
  ◌≡◌, ◌⊎◌, refl, true, false, Bool-cases, inl, inr, some, List, [], ◌∷◌, is_nonneg, if◌then◌else◌,
  arith,
}
use libpalmsocket.Errors.{bad_serv_addr}
use libpalmsocket.Inet.{af_unspec}
use libpalmsocket.Fsm.Types.{
  Status, success, error, not_handled, plain_conn, plain_lookup, ConnectArgs, is_crypto_conn_kind,
  plain_conn_arg, plain_lookup_arg, BeginArg, connect, Event, user, Fsm, Call, ssl_ctx_ref,
}
use libpalmsocket.Fsm.Transitions.{ref_ctx}
use libpalmsocket.Fsm.Ready.{IsReady, going, goto_plain_conn_lem, goto_plain_lookup_lem}
use libpalmsocket.Fsm.Main.{is_unspec, init_handler}

-- A channel before it connects has a descriptor of the user, or addresses, but not both.
pub record IsSetup (f : Fsm) : Type 0 where
  pub exclusive :
      (is_nonneg f.fd ≡ false)
      ⊎ ((is_unspec f.settings.server_addr.addr_family ≡ true)
          × (is_unspec f.settings.bind_addr.addr_family ≡ true))
  pub provided : is_nonneg f.fd ≡ f.settings.fd_is_user_provided

-- Whatever event the INIT state answers, settings that are consistent stay so: a descriptor of the user
-- excludes addresses, and is the only descriptor.
pub init_handler-IsSetup :
    (e : Event) (f : Fsm) {g : Fsm} {s : Status}
    → IsSetup f
    → init_handler e f ≡ some (g, s)
    → IsSetup g
unfolding init_handler
init_handler-IsSetup e f v h = ground arith

-- An event that INIT passes on to its parent has changed nothing.
pub init_handler_passes :
    (e : Event) (f : Fsm) {g : Fsm} → init_handler e f ≡ some (g, not_handled) → g ≡ f
unfolding init_handler
init_handler_passes e f h = ground arith

-- The calls with a reference to the SSL context taken exactly if the connection is to be encrypted
abbrev pub ref_taken : ConnectArgs → Fsm → List Call
ref_taken a f = if is_crypto_conn_kind a.conn_kind then ssl_ctx_ref a.ssl_ctx ∷ f.calls else f.calls

-- The arguments of a connection over the user's descriptor: no address counts.
abbrev pub over_fd : ConnectArgs → BeginArg
over_fd a = plain_conn_arg a (record { family = af_unspec; addr = [] })

-- There is nothing to connect to: an error, and no transition.
unfoldable pub NoTarget : Fsm → Fsm → Status → Type 0
NoTarget f g s =
    (is_nonneg f.fd ≡ false)
    × (is_unspec f.settings.server_addr.addr_family ≡ true)
    × (g ≡ record f { last_error = bad_serv_addr })
    × (s ≡ error)

-- The user's descriptor is to be connected.
unfoldable pub FdTarget : ConnectArgs → Fsm → Fsm → Status → Type 0
FdTarget a f g s =
    (is_nonneg f.fd ≡ true)
    × (g.target ≡ some plain_conn)
    × (g.begin_arg ≡ some (plain_conn, over_fd a))
    × (g.calls ≡ ref_taken a f)
    × (s ≡ success)

-- The server's address is to be looked up.
unfoldable pub ServerTarget : ConnectArgs → Fsm → Fsm → Status → Type 0
ServerTarget a f g s =
    (is_nonneg f.fd ≡ false)
    × (is_unspec f.settings.server_addr.addr_family ≡ false)
    × (g.target ≡ some plain_lookup)
    × (g.begin_arg ≡ some (plain_lookup, plain_lookup_arg a))
    × (g.calls ≡ ref_taken a f)
    × (s ≡ success)

init_connect_fd :
    (a : ConnectArgs) (f : Fsm)
    → IsReady f
    → is_nonneg f.fd ≡ true
    → init_handler (user (connect a)) f
      ≡ some (going plain_conn (some (over_fd a)) (ref_ctx a f), success)
unfolding init_handler
init_connect_fd a f r h =
    rw (h, goto_plain_conn_lem a (record { family = af_unspec; addr = [] }) f r) (ground arith)

init_connect_server :
    (a : ConnectArgs) (f : Fsm)
    → IsReady f
    → is_nonneg f.fd ≡ false
    → is_unspec f.settings.server_addr.addr_family ≡ false
    → init_handler (user (connect a)) f
      ≡ some (going plain_lookup (some (plain_lookup_arg a)) (ref_ctx a f), success)
unfolding init_handler
init_connect_server a f r h s = rw (h, s, goto_plain_lookup_lem a f r) refl

-- CONNECT in the INIT state fails no assertion where a transition may begin. With nothing to connect to it
-- is an error and only the last error changes; with a descriptor the next state is CONN and with only a
-- server's address it is LOOKUP, each with the connection's arguments waiting for it and, if the
-- connection is to be encrypted, a reference to the SSL context taken for it.
pub init_connect_lem :
    (a : ConnectArgs) (f : Fsm)
    → IsReady f
    → (g : Fsm) × (s : Status) × (init_handler (user (connect a)) f ≡ some (g, s))
      × (NoTarget f g s ⊎ (FdTarget a f g s ⊎ ServerTarget a f g s))
unfolding init_handler NoTarget FdTarget ServerTarget
init_connect_lem a f r = elim (Bool-cases (is_nonneg f.fd)) [
  | inl fd ↦ (
    going plain_conn (some (over_fd a)) (ref_ctx a f),
    success,
    init_connect_fd a f r fd,
    inr (inl (fd, refl, refl, refl, refl)),
  )
  | inr no_fd ↦ elim (Bool-cases (is_unspec f.settings.server_addr.addr_family)) [
    | inl none_set ↦ (
      record f { last_error = bad_serv_addr },
      error,
      ground arith,
      inl (no_fd, none_set, refl, refl),
    )
    | inr set ↦ (
      going plain_lookup (some (plain_lookup_arg a)) (ref_ctx a f),
      success,
      init_connect_server a f r no_fd set,
      inr (inr (no_fd, set, refl, refl, refl, refl)),
    )
  ]
]

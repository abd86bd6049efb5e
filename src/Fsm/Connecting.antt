-- ===== src/Fsm/Connecting.antt =====
-- How a connection is made: the CONN state of src/psl_channel_fsm_plain.c.
use libpalmsocket.Base.{
  sym, true-false, List, ◌∙◌, ℕ, ◌≡◌, ◌≢◌, ◌⊎◌, inl, inr, refl, true, false, Bool-cases, if-true,
  none, some, [], ◌∷◌, pos, eq_ℤ, ◌>>=◌, if◌then◌else◌, arith,
}
use libpalmsocket.Errors.{PslError, no_error, is_error, Errno, socket, pslerror_from_connect_errno}
use libpalmsocket.Inet.{Outcome, ok, err, make_fd_non_blocking, connect_sock}
use libpalmsocket.FdWatch.{Watch, reset}
use libpalmsocket.FdWatch.Conditions.{only_out, nothing, has_failure}
use libpalmsocket.FdWatch.Table.{PollRec}
use libpalmsocket.Fsm.Types.{
  Status, success, error, plain_fail, plain_tcp, crypto_conn, ConnectArgs, AddrText,
  is_plain_conn_kind, is_crypto_conn_kind, no_cb, plain_fail_arg, crypto_conn_arg, user, fd_watch,
  Fsm, ssl_ctx_ref,
}
use libpalmsocket.Fsm.Transitions.{
  log, reset_watch, sched_completion, set_last_error, goto_plain_fail, goto_plain_tcp,
  goto_crypto_conn, begin_transition,
}
use libpalmsocket.Fsm.Conn.{plain_conn_handler, connect_error, sched_if_due, leave_conn}
use libpalmsocket.Fsm.Sockets.{config_made, config_sock, make_sock}
use libpalmsocket.Fsm.System.{Sys}
use libpalmsocket.Fsm.Ready.{IsReady, going}

-- The failure waits for a timer of 0 ms on a watch without descriptors.
abbrev pub ReportsFailure : Fsm → Watch → Type 0
ReportsFailure g w =
    (is_error g.conn_error ≡ true)
    × (w.desc_table ≡ [])
    × (w.timeout_millisec ≡ some 0)
    × (w.restart_timer ≡ true)

-- The watch waits, without a timeout, for the channel's descriptor alone to become writeable.
abbrev pub AwaitsWriteable : Fsm → Watch → Type 0
AwaitsWriteable g w =
    (g.conn_error ≡ no_error)
    × (w.desc_table
        ≡ record { fd = g.fd; events = only_out; revents = nothing; poll_added = false } ∷ [])
    × (w.timeout_millisec ≡ none)

no_other : (e : PslError) → is_error e ≡ false → e ≡ no_error
no_other e h = ground arith

-- What starting a connection came to: the user's descriptor is made non-blocking; or a socket cannot be
-- had; or it cannot be configured; or it is the channel's, and is connected to the address and the port.
abbrev pub Started : Sys → AddrText → Fsm → Fsm → Type 0
Started sys text f g =
    ((f.settings.fd_is_user_provided ≡ true)
      × (g.fd ≡ f.fd)
      × (g.conn_error ≡ make_fd_non_blocking sys.inet f.fd))
    ⊎ ((f.settings.fd_is_user_provided ≡ false)
        × (((e : Errno) × (make_sock sys text.family ≡ err e)
              × (g.fd ≡ f.fd)
              × (g.conn_error ≡ socket))
            ⊎ ((s : ℕ) × (make_sock sys text.family ≡ ok s)
                × (((is_error (config_sock sys f.settings (pos s)) ≡ true)
                      × (g.fd ≡ f.fd)
                      × (g.conn_error ≡ config_sock sys f.settings (pos s)))
                    ⊎ ((is_error (config_sock sys f.settings (pos s)) ≡ false)
                        × (g.fd ≡ pos s)
                        × (g.conn_error
                            ≡ connect_sock sys.inet (pos s) text.family (some text.addr)
                                f.settings.server_addr.port))))))

-- what `start_connect` makes of a socket of its own
abbrev connected_by : Sys → Fsm → Outcome ℕ → Fsm
connected_by sys f m =
    let (g, e) = config_made sys m f in
    record g {
      conn_error =
          if is_error e
          then e
          else connect_sock sys.inet g.fd g.conn_addr.family (some g.conn_addr.addr)
              g.settings.server_addr.port;
    }

-- The connection is made: the next state is TCP, with the completion scheduled, or CRYPTO_CONN, with the
-- connection's arguments waiting for it and a reference to the SSL context for them.
unfoldable pub Established : ConnectArgs → Fsm → Fsm → Type 0
Established a f g =
    ((is_plain_conn_kind a.conn_kind ≡ true)
      × (g.target ≡ some plain_tcp)
      × (g.completion ≡ record { cb = a.cb; psl_err = no_error; switching_to_crypto = false }))
    ⊎ ((is_plain_conn_kind a.conn_kind ≡ false)
        × (g.target ≡ some crypto_conn)
        × (g.begin_arg ≡ some (crypto_conn, crypto_conn_arg a))
        × (g.calls ≡ ssl_ctx_ref a.ssl_ctx ∷ f.calls)
        × (g.completion.cb ≡ no_cb))

-- The connection failed: the next state is FAIL, and it, the channel's last error and the completion
-- that is scheduled all have the one error.
unfoldable pub FailedWith : PslError → ConnectArgs → Fsm → Type 0
FailedWith e a g =
    (is_error e ≡ true)
    × (g.target ≡ some plain_fail)
    × (g.begin_arg ≡ some (plain_fail, plain_fail_arg e))
    × (g.last_error ≡ e)
    × (g.completion
        ≡ record { cb = a.cb; psl_err = e; switching_to_crypto = is_crypto_conn_kind a.conn_kind })

-- What the callback of the watch sets up before FD_WATCH
pub record IsWatching (f : Fsm) : Type 0 where
  pub in_cb : f.in_fd_watch_cb ≡ true
  pub none_due : f.completion.cb ≡ no_cb
  pub ready : IsReady f

abbrev due : Fsm → Fsm
due f = record f {
  completion = record {
    cb = f.conn_args.cb;
    psl_err = f.conn_error;
    switching_to_crypto = is_crypto_conn_kind f.conn_args.conn_kind;
  };
}

left :
    (sys : Sys) (f : Fsm)
    → IsWatching f
    → (g : Fsm) × (s : Status) × ((sched_if_due sys f >>= leave_conn sys) ≡ some (g, s))
      × (((s ≡ error) × FailedWith f.conn_error f.conn_args g)
          ⊎ ((s ≡ success) × (f.conn_error ≡ no_error) × Established f.conn_args f g))
unfolding sched_completion set_last_error goto_plain_fail goto_plain_tcp goto_crypto_conn
    begin_transition Established FailedWith
left sys f v = elim (Bool-cases (is_error f.conn_error)) [
  | inl bad ↦ (
    going plain_fail (some (plain_fail_arg f.conn_error))
        (record (due f) { last_error = f.conn_error }),
    error,
    ground arith,
    inl (refl, (bad, refl, refl, refl, refl)),
  )
  | inr good ↦ elim (Bool-cases (is_plain_conn_kind f.conn_args.conn_kind)) [
    | inl plain ↦ (
      going plain_tcp none (due f),
      success,
      ground arith,
      inr (refl, no_other f.conn_error good, inl (plain, refl, ground arith)),
    )
    | inr crypto ↦ (
      going crypto_conn (some (crypto_conn_arg f.conn_args))
          (log (ssl_ctx_ref f.conn_args.ssl_ctx) f),
      success,
      ground arith,
      inr (refl, no_other f.conn_error good, inr (crypto, refl, refl, refl, v.none_due)),
    )
  ]
]

-- The connection's status when its watch fires: the failure that is reported, or what the socket and the
-- poll say.
abbrev pub status_of : Sys → List PollRec → Fsm → PslError
status_of sys (r ∷ []) f = if is_error f.conn_error then f.conn_error else connect_error sys r f
status_of sys _ f = f.conn_error

reported :
    (sys : Sys) (recs : List PollRec) (f : Fsm)
    → is_error f.conn_error ≡ true
    → status_of sys recs f ≡ f.conn_error
reported sys [] f bad = refl
reported sys (r ∷ []) f bad = if-true _ bad
reported sys (r ∷ q ∷ qs) f bad = refl

-- FD_WATCH in the CONN state, as the callback of a channel with a watch brings it while no completion is
-- scheduled and no transition is requested, fails no assertion: whether a failure is reported, with
-- whatever records or none, or the channel's descriptor alone is ready. On an error the next state is
-- FAIL, with the error kept as the channel's last, in the state's argument and in the completion that is
-- scheduled; otherwise the next state is TCP, with the completion scheduled, or CRYPTO_CONN, without one
-- but with a reference to the SSL context.
pub fd_watch_lem :
    (sys : Sys) (recs : List PollRec) (f : Fsm) (w : Watch)
    → f.watch ≡ some w
    → IsWatching f
    → (is_error f.conn_error ≡ true) ⊎ ((r : PollRec) × (recs ≡ r ∷ []) × (eq_ℤ r.fd f.fd ≡ true))
    → (g : Fsm) × (s : Status) × (plain_conn_handler sys (user (fd_watch recs)) f ≡ some (g, s))
      × (((s ≡ error) × FailedWith (status_of sys recs f) f.conn_args g)
          ⊎ ((s ≡ success) × (status_of sys recs f ≡ no_error) × Established f.conn_args f g))
unfolding plain_conn_handler reset_watch Established
fd_watch_lem sys recs f w h v cause = elim (Bool-cases (is_error f.conn_error)) [
  | inl bad ↦
      rw (reported sys recs f bad, h, bad)
        (left sys (record f { watch = some (reset w) })
          (record {
            in_cb = v.in_cb;
            none_due = v.none_due;
            ready = record { dispatching = v.ready.dispatching; no_request = v.ready.no_request };
          }))
  | inr good ↦ elim cause [
    | inl bad ↦ absurd (true-false (sym bad ∙ good))
    | inr (r, one, same) ↦
        rw (one, h, good, same)
          (left sys (record f { watch = some (reset w); conn_error = connect_error sys r f })
            (record {
              in_cb = v.in_cb;
              none_due = v.none_due;
              ready = record { dispatching = v.ready.dispatching; no_request = v.ready.no_request };
            }))
  ]
]

-- A connection over a socket of the channel's own is found good exactly if its SO_ERROR is 0 and the
-- poll indicates that it is writeable and no failure.
pub connect_error_lem :
    (sys : Sys) (r : PollRec) (f : Fsm)
    → f.settings.fd_is_user_provided ≡ false
    → ((connect_error sys r f ≡ no_error)
        × (sys.get_so_error f.fd ≡ ok Errno.success)
        × (r.ind_events.io_out ≡ true)
        × (has_failure r.ind_events ≡ false))
      ⊎ ((is_error (connect_error sys r f) ≡ true)
          × ((sys.get_so_error f.fd ≢ ok Errno.success)
              ⊎ ((r.ind_events.io_out ≡ false) ⊎ (has_failure r.ind_events ≡ true))))
unfolding pslerror_from_connect_errno
connect_error_lem sys r f own = ground arith

-- ===== src/Crypto/Renegotiate.antt =====
-- Renegotiation: crypto_do_renegotiate of src/psl_channel_fsm_crypto.c. `none` is a failed assertion.
use libpalmsocket.Base.{
  ℕ, Bool, true, false, not, ◌&&◌, ◌||◌, Option, some, ltb, if◌then◌else◌, ◌>>=◌,
}
use libpalmsocket.Errors.{PslError, is_error}
use libpalmsocket.Crypto.Types.{io_pending}
use libpalmsocket.Crypto.Read.{total_input_bytes_ready}
use libpalmsocket.Crypto.Watching.{only_in, update_watch}
use libpalmsocket.Crypto.Machine.{
  RenegPhase, reneg_init, reneg_flush_out, reneg_request_hello, reneg_handshake, reneg_done,
  Machine, OpensslCtl, on_io, io_of, reset_cond,
}
use libpalmsocket.Crypto.Handshake.{
  is_server, do_ssl_handshake, start_renegotiation, do_reneg_wait_handshake,
}

abbrev pub is_init : RenegPhase → Bool
is_init reneg_init = true
is_init _ = false

abbrev pub is_flush_out : RenegPhase → Bool
is_flush_out reneg_flush_out = true
is_flush_out _ = false

abbrev pub is_request_hello : RenegPhase → Bool
is_request_hello reneg_request_hello = true
is_request_hello _ = false

abbrev pub is_handshake : RenegPhase → Bool
is_handshake reneg_handshake = true
is_handshake _ = false

abbrev pub is_done : RenegPhase → Bool
is_done reneg_done = true
is_done _ = false

module _ {S : Type 0} (o : OpensslCtl S) where
  -- the four steps of `crypto_do_renegotiate`, each for its phase
  abbrev pub leave_init : Machine S → Option (Machine S)
  leave_init m =
      if is_init m.reneg_phase
      then (reset_cond m >>= λ n. some (record n { reneg_phase = reneg_flush_out }))
      else some m

  abbrev pub flushed_phase : Machine S → RenegPhase
  flushed_phase m =
      if is_error m.reneg_error
      then reneg_done
      else if is_server m.conn_kind
      then reneg_request_hello
      else reneg_handshake

  -- the renegotiation is started whatever `pslerr` said, and overwrites it
  abbrev pub leave_flush_out : Machine S → Option (Machine S)
  leave_flush_out m =
      if is_flush_out m.reneg_phase && not (io_pending m.output.io_state)
      then (start_renegotiation o (record m { reneg_phase = flushed_phase m }) >>= λ r.
          some (record (r.0) { reneg_error = r.1 }))
      else some m

  abbrev pub hello_done : PslError → Machine S → Option (Machine S)
  hello_done e m =
      if is_error e || not m.reneg_args.wait_for_client
      then some (record m { reneg_error = e; reneg_phase = reneg_done })
      else (on_io (update_watch only_in) m >>= λ n.
          some (record n { reneg_phase = reneg_handshake }))

  abbrev pub leave_request_hello : Machine S → Option (Machine S)
  leave_request_hello m =
      if is_request_hello m.reneg_phase
      then (do_ssl_handshake o m >>= λ r. if r.2 then hello_done r.1 r.0 else some r.0)
      else some m

  -- which handshake is waited for
  abbrev pub either_handshake : Machine S → Option (Machine S × PslError × Bool)
  either_handshake m =
      if is_server m.conn_kind && m.reneg_args.wait_for_client
      then do_reneg_wait_handshake o m
      else do_ssl_handshake o m

  abbrev pub bytes_ready : Machine S → Option ℕ
  bytes_ready m = m.ssl >>= λ s. some (total_input_bytes_ready o.io (io_of s m))

  abbrev pub handshake_step : Machine S → Option (Machine S)
  handshake_step m = either_handshake m >>= λ r.
      some (if r.2 then record (r.0) { reneg_error = r.1; reneg_phase = reneg_done } else r.0)

  abbrev pub leave_handshake : Machine S → Option (Machine S)
  leave_handshake m =
      if is_handshake m.reneg_phase
      then (bytes_ready m >>= λ n. if ltb 0 n then reset_cond m else handshake_step m)
      else some m

  -- `crypto_do_renegotiate`: the machine, and whether the renegotiation is done
  unfoldable pub do_renegotiate : Machine S → Option (Machine S × Bool)
  unfolding start_renegotiation do_ssl_handshake do_reneg_wait_handshake update_watch
      total_input_bytes_ready
  do_renegotiate m = do
    m1 ← leave_init m
    m2 ← leave_flush_out m1
    m3 ← leave_request_hello m2
    m4 ← leave_handshake m3
    some (m4, is_done m4.reneg_phase)

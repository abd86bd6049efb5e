-- ===== src/Crypto/RenegotiateLost.antt =====
-- An error of SSL_renegotiate in crypto_do_renegotiate of src/psl_channel_fsm_crypto.c.
use libpalmsocket.Base.{◌≡◌, refl, true, false, some}
use libpalmsocket.Errors.{PslError, no_error}
use libpalmsocket.FdWatch.{Watch, reset}
use libpalmsocket.FdWatch.Conditions.{nothing}
use libpalmsocket.Fsm.Transitions.{reset_watch}
use libpalmsocket.Fsm.Types.{crypto_client}
use libpalmsocket.Crypto.Types.{Failure, io_pending}
use libpalmsocket.Crypto.Session.{IsReported, channel_error_lem}
use libpalmsocket.Crypto.Read.{total_input_bytes_ready}
use libpalmsocket.Crypto.Machine.{Machine, OpensslCtl, hs_finished, reneg_init, reneg_done}
use libpalmsocket.Crypto.Handshake.{do_ssl_handshake, start_renegotiation}
use libpalmsocket.Crypto.Renegotiate.{do_renegotiate}

module _ {S : Type 0} (o : OpensslCtl S) where
  -- A client whose SSL_renegotiate fails, while the handshake that follows it on the session as it is
  -- succeeds, with nothing to write or to read: the renegotiation ends as a success, and the error of
  -- SSL_renegotiate is lost.
  pub do_renegotiate_lem :
      (m : Machine S) (w : Watch) (s s' s'' : S) (x : Failure)
      → m.reneg_phase ≡ reneg_init
      → m.reneg_error ≡ no_error
      → m.conn_kind ≡ crypto_client
      → io_pending m.output.io_state ≡ false
      → m.input.byte_available ≡ false
      → m.fsm.watch ≡ some w
      → m.ssl ≡ some s
      → o.renegotiate s ≡ (some x, s')
      → IsReported o.io.codes x
      → o.io.buffered s' ≡ 0
      → o.do_handshake s' ≡ (hs_finished, s'')
      → (n : Machine S) × (do_renegotiate o m ≡ some (n, true)) × (n.reneg_error ≡ no_error)
  unfolding do_renegotiate start_renegotiation do_ssl_handshake total_input_bytes_ready reset_watch
  do_renegotiate_lem m w s s' s'' x phase err kind flushed empty hw hs hr reported buffered hh =
      let (e, he, is_err) = channel_error_lem o.io.codes x reported in
      (
        ended e,
        rw (phase, hw, flushed, hs, hr, he, is_err, err, kind, buffered, empty, hh) refl,
        refl,
      )
    where
      ended : PslError → Machine S
      ended e = record m {
        fsm = record (m.fsm) { watch = some (reset w) };
        last_cond = nothing;
        reneg_phase = reneg_done;
        reneg_error = no_error;
        ssl = some s'';
      }

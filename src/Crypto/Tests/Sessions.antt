-- ===== src/Crypto/Tests/Sessions.antt =====
-- Runs of the verification of a certificate and of a renegotiation.
use libpalmsocket.Base.{◌≡◌, refl, ◌⊎◌, true, false, none, some, [], arith}
use libpalmsocket.Errors.{no_error, is_error}
use libpalmsocket.Errors.Openssl.{ssl_ssl, ssl_read}
use libpalmsocket.FdWatch.Conditions.{nothing}
use libpalmsocket.FdWatch.{new}
use libpalmsocket.Fsm.Types.{crypto_client, no_cb, one_way}
use libpalmsocket.Fsm.Fixtures.{fresh}
use libpalmsocket.Crypto.Types.{read_failed}
use libpalmsocket.Crypto.Machine.{
  Machine, OpensslCtl, PeerVerify, CryptoConf, reneg_init, shut_init, hs_finished, shut_both,
}
use libpalmsocket.Crypto.Verify.{
  Verifying, Checks, x509_other, x509_unable_to_get_crl, peer_verify_callback,
}
use libpalmsocket.Crypto.Accepted.{peer_verify_callback_lem}
use libpalmsocket.Crypto.Renegotiate.{do_renegotiate}
use libpalmsocket.Crypto.RenegotiateLost.{do_renegotiate_lem}
use libpalmsocket.Crypto.Fixtures.{Pipe, pipe, wants, wants-IsReported, idle_channel}

abbrev strict : CryptoConf
strict = record {
  check_hostname = true;
  fallback_to_installed_leaf = false;
  has_lifecycle_cb = false;
}

abbrev fresh_pv : PeerVerify
fresh_pv = record { in_progress = false; called = false; fail_code = no_error }

-- The peer's own certificate, for the right host, and no callback of the user
abbrev matching : Checks
matching = record {
  verify_cb = none;
  verify_hostname = (no_error, true);
  match_cert_in_store = (no_error, false);
  is_peer_cert_depth = true;
}

-- The name of another host, which the user refuses
abbrev mismatching : Checks
mismatching = record matching {
  verify_cb = some (λ ok e x. false);
  verify_hostname = (no_error, false);
}

abbrev accepted_so_far : Verifying
accepted_so_far = record { pv = fresh_pv; x509_error = x509_other }

abbrev missing_crl : Verifying
missing_crl = record { pv = fresh_pv; x509_error = x509_unable_to_get_crl }

peer_verify_callback_lem_example :
    (((peer_verify_callback strict mismatching true accepted_so_far).1 ≡ true)
      × ((peer_verify_callback strict mismatching true accepted_so_far).0.pv.fail_code ≡ no_error))
    ⊎ (((peer_verify_callback strict mismatching true accepted_so_far).1 ≡ false)
        × (is_error (peer_verify_callback strict mismatching true accepted_so_far).0.pv.fail_code
            ≡ true)
        × ((peer_verify_callback strict mismatching true accepted_so_far).0.pv.in_progress ≡ false))
peer_verify_callback_lem_example = peer_verify_callback_lem strict mismatching true accepted_so_far

abbrev drained : Pipe
drained = record { waiting = []; room = 2; pipe_given = []; pipe_taken = [] }

-- A session that refuses to renegotiate, and on which everything else succeeds
abbrev refusing : OpensslCtl Pipe
refusing = record {
  io = pipe;
  ssl_new = λ ctx. some drained;
  new_stack = [];
  set_fd = λ fd s. none;
  with_fd = λ fd s. s;
  set_cipher_list = λ s. none;
  with_ciphers = λ s. s;
  set_app_data = λ s. none;
  with_app_data = λ s. s;
  set_mode = λ s. s;
  set_options = λ s. s;
  set_verify = λ peer s. s;
  set_connect_state = λ s. s;
  set_accept_state = λ s. s;
  lifecycle_cb = λ s. s;
  do_handshake = λ s. (hs_finished, s);
  renegotiate = λ s. (some (wants ssl_ssl), s);
  renegotiate_pending = λ s. false;
  peek = λ s. (read_failed (wants ssl_read), s);
  ssl_shutdown = λ s. (shut_both, s);
  wants_nothing = λ s. true;
  failure_at = λ ret s. wants ssl_read;
  get_shutdown = λ s. (true, true);
  get_verify_result = λ s. 0;
}

abbrev renegotiating : Machine Pipe
renegotiating = record {
  fsm = fresh;
  ssl = some drained;
  input = idle_channel.input;
  output = idle_channel.output;
  last_cond = nothing;
  conn_kind = crypto_client;
  ssl_ctx = some 1;
  conf = strict;
  handshake_finished = true;
  pv = fresh_pv;
  openssl_init_taken = true;
  fail_error = no_error;
  conn_args = record { cb = no_cb; conn_kind = crypto_client; ssl_ctx = 1 };
  conn_error = no_error;
  conn_started = true;
  reneg_args = record { cb = no_cb; wait_for_client = false };
  reneg_phase = reneg_init;
  reneg_error = no_error;
  shut_how = one_way;
  shut_cb = no_cb;
  shut_phase = shut_init;
  user_buf = [];
  peer_verify_err = (0, no_error);
}

do_renegotiate_lem_example :
    (n : Machine Pipe) × (do_renegotiate refusing renegotiating ≡ some (n, true))
    × (n.reneg_error ≡ no_error)
do_renegotiate_lem_example =
    do_renegotiate_lem refusing renegotiating new drained drained drained (wants ssl_ssl) refl refl
      refl refl refl refl refl refl (wants-IsReported ssl_ssl (λ q. ground arith)) refl refl

-- ===== src/Crypto/Verify.antt =====
-- The verification of the peer's certificate: crypto_ssl_peer_verify_callback,
-- crypto_resolve_peer_cert_error and crypto_call_user_peer_cert_verify_callback of
-- src/psl_channel_fsm_crypto.c.
use libpalmsocket.Base.{Bool, true, false, not, ◌&&◌, ◌||◌, Option, none, some, if◌then◌else◌}
use libpalmsocket.Errors.{PslError, no_error, ssl_cert_verify, ssl_hostname_mismatch, is_error}
use libpalmsocket.Crypto.Machine.{PeerVerify, CryptoConf}

-- The error of X509_STORE_CTX, of which the code names these.
pub data X509Error : Type 0 where
  x509_ok x509_unable_to_get_crl x509_application_verification x509_other : X509Error

abbrev pub is_x509_ok : X509Error → Bool
is_x509_ok x509_ok = true
is_x509_ok _ = false

abbrev pub is_missing_crl : X509Error → Bool
is_missing_crl x509_unable_to_get_crl = true
is_missing_crl _ = false

-- `sslInfo->pv` and the error of the context
pub record Verifying : Type 0 where
  pub pv : PeerVerify
  pub x509_error : X509Error

-- What the callback asks outside: the user's callback if there is one, given the verdict so far and
-- the error code; PmSockOpensslVerifyHostname, its error and whether the name matched; and
-- PmSockOpensslMatchCertInStore. Then whether this is the peer's own certificate.
pub record Checks : Type 0 where
  pub verify_cb : Option (Bool → PslError → X509Error → Bool)
  pub verify_hostname : PslError × Bool
  pub match_cert_in_store : PslError × Bool
  pub is_peer_cert_depth : Bool

abbrev pub set_code : PslError → Verifying → Verifying
set_code e v = record v { pv = record (v.pv) { fail_code = e } }

abbrev pub user_said : Bool → Verifying → Verifying
user_said true v = record v { pv = record (v.pv) { fail_code = no_error }; x509_error = x509_ok }
user_said false v = record v {
  pv = record (v.pv) {
    fail_code = if is_error v.pv.fail_code then v.pv.fail_code else ssl_cert_verify;
  };
  x509_error = if is_x509_ok v.x509_error then x509_application_verification else v.x509_error;
}

abbrev pub call_user :
    Option (Bool → PslError → X509Error → Bool) → Bool → Verifying → Verifying × Bool
call_user none ok v = (v, ok)
call_user (some cb) ok v = let said = cb ok v.pv.fail_code v.x509_error in (user_said said v, said)

-- `crypto_call_user_peer_cert_verify_callback`
unfoldable pub call_user_verify_callback : Checks → Bool → Verifying → Verifying × Bool
call_user_verify_callback k ok v = call_user k.verify_cb ok v

abbrev pub in_store : PslError × Bool → Bool
in_store (e, found) = not (is_error e) && found

-- `crypto_resolve_peer_cert_error`
unfoldable pub resolve_peer_cert_error : CryptoConf → Checks → Verifying → Verifying × Bool
unfolding call_user_verify_callback
resolve_peer_cert_error conf k v =
    if is_missing_crl v.x509_error
      || (conf.fallback_to_installed_leaf && in_store k.match_cert_in_store)
    then (record v { pv = record (v.pv) { fail_code = no_error }; x509_error = x509_ok }, true)
    else call_user_verify_callback k false v

-- the error of the host name, if it is checked and does not match
abbrev pub name_error : PslError × Bool → PslError
name_error (e, matched) =
    if is_error e then e else if matched then no_error else ssl_hostname_mismatch

abbrev pub check_name : CryptoConf → Checks → Verifying × Bool → Verifying × Bool
check_name conf k (v, ok) =
    if ok && k.is_peer_cert_depth && conf.check_hostname && is_error (name_error k.verify_hostname)
    then resolve_peer_cert_error conf k (record v {
      pv = record (v.pv) { fail_code = name_error k.verify_hostname };
      x509_error = x509_application_verification;
    })
    else (v, ok)

abbrev pub entered : Bool → Verifying → Verifying
entered ok v = record v {
  pv = record {
    in_progress = true;
    called = true;
    fail_code = if ok then no_error else ssl_cert_verify;
  };
}

abbrev pub resolve_first : CryptoConf → Checks → Bool → Verifying → Verifying × Bool
resolve_first conf k true v = (v, true)
resolve_first conf k false v = resolve_peer_cert_error conf k v

abbrev pub ask_user : Checks → Bool → Verifying × Bool → Verifying × Bool
ask_user k original (v, ok) = if original && ok then call_user_verify_callback k ok v else (v, ok)

abbrev pub end_session : Checks → Bool → Verifying × Bool → Verifying × Bool
end_session k original (v, ok) = (
  record v {
    pv = record (v.pv) {
      in_progress =
          if not ok || (k.is_peer_cert_depth && original) then false else v.pv.in_progress;
    };
  },
  ok,
)

-- `crypto_ssl_peer_verify_callback`
unfoldable pub peer_verify_callback : CryptoConf → Checks → Bool → Verifying → Verifying × Bool
unfolding call_user_verify_callback resolve_peer_cert_error
peer_verify_callback conf k ok v =
    end_session k ok (ask_user k ok (check_name conf k (resolve_first conf k ok (entered ok v))))

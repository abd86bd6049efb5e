-- ===== src/Crypto/Accepted.antt =====
-- When the peer's certificate is accepted, and the error code that the user can ask for afterwards:
-- crypto_ssl_peer_verify_callback of src/psl_channel_fsm_crypto.c.
use libpalmsocket.Base.{
  ◌≡◌, refl, ◌⊎◌, inl, inr, Bool, true, false, not, ◌&&◌, ◌||◌, Option, none, some, Bool-cases,
  if◌then◌else◌, arith,
}
use libpalmsocket.Errors.{PslError, no_error, ssl_cert_verify, is_error}
use libpalmsocket.Crypto.Machine.{CryptoConf}
use libpalmsocket.Crypto.Verify.{
  Checks, Verifying, X509Error, x509_application_verification, is_missing_crl, name_error,
  peer_verify_callback, resolve_peer_cert_error, call_user_verify_callback, in_store, user_said,
  call_user, x509_ok, x509_application_verification, resolve_first, entered, check_name, ask_user,
}

-- the verdict and the error code go together
abbrev Agrees : Verifying × Bool → Type 0
Agrees (v, ok) =
    ((ok ≡ true) × (v.pv.fail_code ≡ no_error)) ⊎ ((ok ≡ false) × (is_error v.pv.fail_code ≡ true))

user_said-Agrees : (said : Bool) (v : Verifying) → Agrees (user_said said v, said)
user_said-Agrees true v = inl (refl, refl)
user_said-Agrees false v = inr (refl, some_error v.pv.fail_code)
  where
    some_error : (e : PslError) → is_error (if is_error e then e else ssl_cert_verify) ≡ true
    some_error e = ground arith

call_user-Agrees :
    (cb : Option (Bool → PslError → X509Error → Bool)) (ok : Bool) (v : Verifying)
    → Agrees (v, ok)
    → Agrees (call_user cb ok v)
call_user-Agrees none ok v h = h
call_user-Agrees (some cb) ok v h = user_said-Agrees (cb ok v.pv.fail_code v.x509_error) v

resolve-Agrees :
    (conf : CryptoConf) (k : Checks) (v : Verifying)
    → is_error v.pv.fail_code ≡ true
    → Agrees (resolve_peer_cert_error conf k v)
unfolding resolve_peer_cert_error call_user_verify_callback
resolve-Agrees conf k v h =
    elim (Bool-cases (
      is_missing_crl v.x509_error
      || (conf.fallback_to_installed_leaf && in_store k.match_cert_in_store))) [
        | inl fine ↦ rw fine (inl (refl, refl))
        | inr bad ↦ rw bad (call_user-Agrees k.verify_cb false v (inr (refl, h)))
      ]

first-Agrees :
    (conf : CryptoConf) (k : Checks) (ok : Bool) (v : Verifying)
    → Agrees (resolve_first conf k ok (entered ok v))
first-Agrees conf k true v = inl (refl, refl)
first-Agrees conf k false v = resolve-Agrees conf k (entered false v) refl

name-Agrees :
    (conf : CryptoConf) (k : Checks) (r : Verifying × Bool)
    → Agrees r
    → Agrees (check_name conf k r)
name-Agrees conf k (v, ok) h =
    elim (Bool-cases (
      ok
      && k.is_peer_cert_depth
      && conf.check_hostname
      && is_error (name_error k.verify_hostname))) [
        | inl bad ↦ rw bad (
            resolve-Agrees conf k _ (
              and_last ok k.is_peer_cert_depth conf.check_hostname
                (is_error (name_error k.verify_hostname)) bad))
        | inr fine ↦ rw fine h
      ]
  where
    and_last : (a b c d : Bool) → (a && b && c && d) ≡ true → d ≡ true
    and_last a b c d q = ground arith

ask-Agrees :
    (k : Checks) (original : Bool) (r : Verifying × Bool)
    → Agrees r
    → Agrees (ask_user k original r)
unfolding call_user_verify_callback
ask-Agrees k original (v, ok) h = elim (Bool-cases (original && ok)) [
  | inl asked ↦ rw asked (call_user-Agrees k.verify_cb ok v h)
  | inr silent ↦ rw silent h
]

-- Whatever the checks find and the user's callback says: OpenSSL is told to go on exactly if the code
-- kept for PmSockGetPeerCertVerifyError is PSL_ERR_NONE, and a verification that is refused is over.
pub peer_verify_callback_lem :
    (conf : CryptoConf) (k : Checks) (ok : Bool) (v : Verifying)
    → (((peer_verify_callback conf k ok v).1 ≡ true)
        × ((peer_verify_callback conf k ok v).0.pv.fail_code ≡ no_error))
      ⊎ (((peer_verify_callback conf k ok v).1 ≡ false)
          × (is_error (peer_verify_callback conf k ok v).0.pv.fail_code ≡ true)
          × ((peer_verify_callback conf k ok v).0.pv.in_progress ≡ false))
unfolding peer_verify_callback
peer_verify_callback_lem conf k ok v =
    let first : Verifying × Bool = resolve_first conf k ok (entered ok v) in
    elim (ask-Agrees k ok (check_name conf k first)
      (name-Agrees conf k first (first-Agrees conf k ok v))) [
        | inl (yes_ok, fine) ↦ inl (yes_ok, fine)
        | inr (refused, bad) ↦ inr (refused, bad, rw refused refl)
      ]

-- What decides where there is no callback of the user.
abbrev stored : CryptoConf → Checks → Bool
stored conf k = conf.fallback_to_installed_leaf && in_store k.match_cert_in_store

-- whether the host's name is refused
abbrev misnamed : PslError × Bool → Bool
misnamed (e, matched) = is_error e || not matched

abbrev verdict : CryptoConf → Checks → Bool → X509Error → Bool
verdict conf k ok e =
    (ok || is_missing_crl e || stored conf k)
    && (not (k.is_peer_cert_depth && conf.check_hostname && misnamed k.verify_hostname)
        || stored conf k)

abbrev forgiven : Verifying → Verifying
forgiven v = record v { pv = record (v.pv) { fail_code = no_error }; x509_error = x509_ok }

abbrev checks_name : CryptoConf → Checks → Bool
checks_name conf k =
    k.is_peer_cert_depth && conf.check_hostname && is_error (name_error k.verify_hostname)

-- The user lets the peer's certificate stand for any that it finds in the store, and it is there.
abbrev pub IsStored : CryptoConf → Checks → Type 0
IsStored conf k =
    (conf.fallback_to_installed_leaf ≡ true) × (k.match_cert_in_store ≡ (no_error, true))

-- The name of the host is not to be checked, or it was found to match.
abbrev pub IsNamed : CryptoConf → Checks → Type 0
IsNamed conf k =
    (k.is_peer_cert_depth ≡ false)
    ⊎ ((conf.check_hostname ≡ false) ⊎ (k.verify_hostname ≡ (no_error, true)))

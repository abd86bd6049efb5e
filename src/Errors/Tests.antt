-- ===== src/Errors/Tests.antt =====
-- Runs of the error maps of src/psl_error_utils.c.
use mathlib.Core.Option
use libpalmsocket.Base.{
  ℕ, ◌==◌, if◌then◌else◌, ◌≡◌, ◌≢◌, ◌⊎◌, ◌↔◌, refl, none, some, List, [], ◌∷◌, negsuc,
}
use libpalmsocket.Errors.{no_error, openssl, ssl_cert_verify, syscall, success, pslerror_from_errno}
use libpalmsocket.Errors.Openssl.{
  pslerror_from_ssl_reason, ErrCodes, ErrLib, lib_sys, lib_ssl, lib_other, SslReason, no_reason,
  certificate_verify_failed, ssl_ssl, ssl_none, process_and_purge, ssl_channel_error,
}
use libpalmsocket.Errors.Openssl.Stack.{process_and_purge_lem, ssl_channel_error_lem, first_error}

-- Code 1 is ERR_LIB_SYS with the reason 0, 2 a failed verification, and the others of another library.
abbrev lib_of : ℕ → ErrLib
lib_of n = if n == 1 then lib_sys else if n == 2 then lib_ssl else lib_other

abbrev reason_of : ℕ → SslReason
reason_of n = if n == 2 then certificate_verify_failed else no_reason

abbrev codes : ErrCodes
codes = record {
  get_lib = lib_of;
  get_errno = λ n. success;
  get_reason = reason_of;
  error_string = λ n. n ∷ [];
}

-- The first code stands for no error, so the second is reported.
process_and_purge_lem_example :
    Option.map (λ r. r.0) (process_and_purge codes 120 openssl (1 ∷ 2 ∷ 3 ∷ []) (λ _. []))
    ≡ some ssl_cert_verify
unfolding pslerror_from_errno pslerror_from_ssl_reason
process_and_purge_lem_example =
    process_and_purge_lem codes 120 openssl (1 ∷ 2 ∷ 3 ∷ []) (λ _. []) refl

abbrev one_code : List ℕ
one_code = 2 ∷ []

ssl_channel_error_lem_example :
    (ssl_channel_error codes ssl_ssl (negsuc 0) success one_code openssl ≡ some no_error
      ↔ ssl_ssl ≡ ssl_none)
    × ((ssl_channel_error codes ssl_ssl (negsuc 0) success one_code openssl ≢ none)
        ⊎ ((one_code ≢ [])
            × ((first_error codes openssl one_code ≡ no_error)
                ⊎ (first_error codes syscall one_code ≡ no_error))))
ssl_channel_error_lem_example =
    ssl_channel_error_lem codes ssl_ssl (negsuc 0) success one_code openssl refl

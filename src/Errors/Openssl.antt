-- ===== src/Errors/Openssl.antt =====
-- The part of src/psl_error_utils.c that reads the errors of OpenSSL.
-- OpenSSL is a parameter: its macros on a code of the error stack, and the text of a code.
pub mod Stack
use libpalmsocket.Base.{
  ℕ, zero, ◌-◌, ◌≡◌, ◌≢◌, Bool, true, false, Option, none, some, List, [], ◌∷◌, ℤ, pos, negsuc, ltb,
  leb, ◌==◌, if◌then◌else◌, ◌>>=◌, ◌>>◌, psl_assert, take, ◌&&◌,
}
use libpalmsocket.Errors.{
  PslError, no_error, openssl, ssl_cert_verify, ssl_alert_unknown_ca, ssl_bad_eof, ssl_clean_eof,
  ssl_want_read, ssl_want_write, syscall, is_error, Errno, pslerror_from_errno,
}

-- ERR_GET_LIB: the libraries that the code tells apart
pub data ErrLib : Type 0 where
  lib_sys lib_ssl lib_other : ErrLib

-- ERR_GET_REASON within ERR_LIB_SSL
pub data SslReason : Type 0 where
  no_reason certificate_verify_failed tlsv1_alert_unknown_ca unexpected_eof : SslReason
  other_reason : ℕ → SslReason

-- What OpenSSL says of a code: its library, its reason read as an `errno` or as a reason of ERR_LIB_SSL,
-- and the text of `ERR_error_string_n`.
pub record ErrCodes : Type 0 where
  pub get_lib : ℕ → ErrLib
  pub get_errno : ℕ → Errno
  pub get_reason : ℕ → SslReason
  pub error_string : ℕ → List ℕ

-- `pslerror_from_openssl_lib_ssl_reason_code`, with SSL_R_UNEXPECTED_EOF_WHILE_READING (OpenSSL 3)
unfoldable pub pslerror_from_ssl_reason : SslReason → PslError → PslError
pslerror_from_ssl_reason no_reason _ = no_error
pslerror_from_ssl_reason certificate_verify_failed _ = ssl_cert_verify
pslerror_from_ssl_reason tlsv1_alert_unknown_ca _ = ssl_alert_unknown_ca
pslerror_from_ssl_reason unexpected_eof _ = ssl_bad_eof
pslerror_from_ssl_reason (other_reason _) d = d

-- `snprintf(buf, size, "%s", text)`
abbrev pub snprintf : ℕ → List ℕ → List ℕ
snprintf size text = take (size - 1) text

abbrev is_empty_text : List ℕ → Bool
is_empty_text [] = true
is_empty_text (_ ∷ _) = false

-- SSL_get_error
pub data SslError : Type 0 where
  ssl_none ssl_ssl ssl_zero_return ssl_syscall ssl_connect ssl_accept ssl_x509_lookup : SslError
  ssl_read ssl_write ssl_other : SslError

-- The variables of the loop over the error stack.
pub record Purge : Type 0 where
  pub psl_err : PslError
  pub text : List ℕ
  pub got_errors : Bool

module _ (codes : ErrCodes) where
  open codes use {get_lib, get_errno, get_reason, error_string}

  -- the `switch` on the library
  abbrev pub from_lib : ErrLib → ℕ → PslError → PslError
  from_lib lib_sys c d = pslerror_from_errno (get_errno c) d
  from_lib lib_ssl c d = pslerror_from_ssl_reason (get_reason c) d
  from_lib lib_other c d = if is_error d then d else openssl

  -- `psl_err_pslerror_from_openssl_err_stack_code`
  unfoldable pub pslerror_from_stack_code : ℕ → PslError → Option PslError
  pslerror_from_stack_code c d = do
    psl_assert (is_error d)
    some (if c == 0 then no_error else from_lib (get_lib c) c d)

  module _ (buf_size : ℕ) (d : PslError) where
    -- One round of the loop, for a code that `ERR_get_error` gave.
    pub purge_round : ℕ → Purge → Option Purge
    purge_round c p = if is_error p.psl_err then some (record p { got_errors = true }) else do
      e ← pslerror_from_stack_code c d
      some (record {
        psl_err = e;
        text = if ltb 0 buf_size then snprintf buf_size (error_string c) else p.text;
        got_errors = true;
      })

    -- The loop takes one code off the stack in each round, until the stack is empty.
    pub purge_loop : List ℕ → Purge → Option Purge
    purge_loop [] p = some p
    purge_loop (c ∷ cs) p = purge_round c p >>= purge_loop cs

    -- What follows the loop; `fallback` is the text for a buffer that is still empty.
    abbrev purged : (PslError → List ℕ) → Purge → Option (PslError × List ℕ)
    purged fallback p =
        if p.got_errors
        then psl_assert (is_error p.psl_err)
          >> some (
            p.psl_err,
            (if ltb 0 buf_size && is_empty_text p.text
                then snprintf buf_size (fallback p.psl_err)
                else p.text),
          )
        else some (no_error, [])

    -- `psl_err_process_and_purge_openssl_err_stack` on the codes of the stack, which it leaves empty:
    -- the error, and the text in the caller's buffer.
    unfoldable pub process_and_purge : List ℕ → (PslError → List ℕ) → Option (PslError × List ℕ)
    process_and_purge stack fallback =
        psl_assert (is_error d)
        >> (purge_loop stack (record { psl_err = no_error; text = []; got_errors = false })
            >>= purged fallback)

  -- The calls of the function above that pass no buffer.
  abbrev pub purge_error : List ℕ → PslError → Option PslError
  purge_error stack d = process_and_purge 0 d stack (λ _. []) >>= λ r. some r.0

  -- SSL_ERROR_SYSCALL on an empty error stack
  abbrev pub syscall_error : ℤ → Errno → PslError
  syscall_error (pos zero) _ = ssl_bad_eof
  syscall_error _ e =
      let err = pslerror_from_errno e syscall in if is_error err then err else syscall

  -- `psl_err_get_and_process_SSL_channel_error`: `status` is what `SSL_get_error` gave for the result
  -- `ret` of the failed call, `e` the `errno` saved before that, and `stack` the error stack.
  unfoldable pub ssl_channel_error : SslError → ℤ → Errno → List ℕ → PslError → Option PslError
  ssl_channel_error ssl_none ret e stack d = psl_assert (is_error d) >> some no_error
  ssl_channel_error ssl_ssl ret e stack d =
      psl_assert (is_error d)
      >> (purge_error stack d >>= λ err. some (if is_error err then err else d))
  ssl_channel_error ssl_zero_return ret e stack d = psl_assert (is_error d) >> some ssl_clean_eof
  ssl_channel_error ssl_syscall ret e stack d =
      psl_assert (is_error d)
      >> (purge_error stack syscall >>= λ err.
          some (if is_error err then err else syscall_error ret e))
  ssl_channel_error ssl_connect ret e stack d = psl_assert (is_error d) >> some openssl
  ssl_channel_error ssl_accept ret e stack d = psl_assert (is_error d) >> some openssl
  ssl_channel_error ssl_x509_lookup ret e stack d = psl_assert (is_error d) >> some openssl
  ssl_channel_error ssl_read ret e stack d = psl_assert (is_error d) >> some ssl_want_read
  ssl_channel_error ssl_write ret e stack d = psl_assert (is_error d) >> some ssl_want_write
  ssl_channel_error ssl_other ret e stack d = psl_assert (is_error d) >> some d

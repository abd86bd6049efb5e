-- ===== src/Crypto/Session.antt =====
-- What src/psl_channel_fsm_crypto.c relies on of OpenSSL, as its manual states it, and the errors that
-- psl_err_get_and_process_SSL_channel_error makes of a failed call.
use libpalmsocket.Base.{
  ℕ, zero, suc, ◌≤◌, ◌<◌, ◌≡◌, ◌≢◌, ◌⊎◌, inl, inr, refl, sym, ap, ◌∙◌, ℤ, pos, negsuc, true, false,
  some, List, [], ◌∷◌, ◌++◌, length, take, arith, Option-cases, ◌>>=◌, if◌then◌else◌,
}
use libpalmsocket.Errors.{
  PslError, no_error, syscall, ssl_protocol, is_error, Errno, pslerror_from_errno,
}
use libpalmsocket.Errors.Openssl.{
  ErrCodes, SslError, ssl_none, ssl_ssl, ssl_read, ssl_write, ssl_syscall, ssl_channel_error,
  SslReason, pslerror_from_ssl_reason, syscall_error,
}
use libpalmsocket.Errors.Openssl.Stack.{
  first_error, mapped, purge_error_lem, purge_result, ssl_channel_error_lem,
}
use libpalmsocket.Crypto.Types.{
  Failure, read_ok, read_failed, write_ok, write_failed, Openssl, channel_error, is_deferred,
}

-- A failed call says why: SSL_get_error gives an error, and what is on the error stack, if anything,
-- stands for one.
pub record IsReported (codes : ErrCodes) (x : Failure) : Type 0 where
  pub status_set : x.status ≢ ssl_none
  pub stack_set :
      (x.stack ≡ [])
      ⊎ ((first_error codes ssl_protocol x.stack ≢ no_error)
          × (first_error codes syscall x.stack ≢ no_error))

-- The plaintext that a session took from its writer and gave to its reader, in order, and what the
-- manual says of a call: a positive result counts bytes that were moved, of those asked for; any other
-- moves nothing; and what is buffered is read without waiting for the descriptor.
pub record Streams {S : Type 0} (o : Openssl S) : Type 1 where
  pub taken : S → List ℕ
  pub given : S → List ℕ
  pub read_moves :
      (n : ℕ) (s s' : S) (bs : List ℕ)
      → 1 ≤ n
      → o.ssl_read n s ≡ (read_ok bs, s')
      → (1 ≤ length bs) × (length bs ≤ n) × (given s' ≡ given s ++ bs) × (taken s' ≡ taken s)
  pub read_stays :
      (n : ℕ) (s s' : S) (x : Failure)
      → 1 ≤ n
      → o.ssl_read n s ≡ (read_failed x, s')
      → IsReported o.codes x × (given s' ≡ given s) × (taken s' ≡ taken s)
  pub read_ready :
      (n : ℕ) (s s' : S) (x : Failure)
      → 0 < o.buffered s
      → 1 ≤ n
      → o.ssl_read n s ≡ (read_failed x, s')
      → (x.status ≢ ssl_read) × (x.status ≢ ssl_write)
  pub write_moves :
      (bs : List ℕ) (s s' : S) (k : ℕ)
      → 1 ≤ length bs
      → o.ssl_write bs s ≡ (write_ok k, s')
      → (1 ≤ k) × (k ≤ length bs) × (taken s' ≡ taken s ++ take k bs) × (given s' ≡ given s)
  pub write_stays :
      (bs : List ℕ) (s s' : S) (x : Failure)
      → 1 ≤ length bs
      → o.ssl_write bs s ≡ (write_failed x, s')
      → IsReported o.codes x × (taken s' ≡ taken s) × (given s' ≡ given s)

nonzero : (e : PslError) → e ≢ no_error → is_error e ≡ true
nonzero e h = ground arith

module _ (codes : ErrCodes) where
  -- A reported failure is an error of the library.
  pub channel_error_lem :
      (x : Failure)
      → IsReported codes x
      → (e : PslError) × (channel_error codes x ≡ some e) × (is_error e ≡ true)
  channel_error_lem x r =
      let cases =
        ssl_channel_error_lem codes x.status x.ret x.saved_errno x.stack ssl_protocol refl in
      elim (Option-cases (channel_error codes x)) [
        | inl gone ↦ absurd (elim cases.1 [
          | inl there ↦ there gone
          | inr (some_code, bad) ↦ elim r.stack_set [
            | inl empty ↦ some_code empty
            | inr set ↦ elim bad [ inl b ↦ set.0 b | inr b ↦ set.1 b ]
          ]
        ])
        | inr (e, found) ↦ (e, found, nonzero e (λ q. r.status_set (cases.0.0 (found ∙ ap some q))))
      ]

  errno_not_deferred :
      (e : Errno) (d : PslError)
      → is_deferred d ≡ false
      → is_deferred (pslerror_from_errno e d) ≡ false
  unfolding pslerror_from_errno
  errno_not_deferred e d h = ground arith

  reason_not_deferred :
      (r : SslReason) (d : PslError)
      → is_deferred d ≡ false
      → is_deferred (pslerror_from_ssl_reason r d) ≡ false
  unfolding pslerror_from_ssl_reason
  reason_not_deferred r d h = ground arith

  mapped_not_deferred :
      (d : PslError) (c : ℕ) → is_deferred d ≡ false → is_deferred (mapped codes d c) ≡ false
  mapped_not_deferred d c h = ground (
    arith,
    errno_not_deferred (codes.get_errno c) d h,
    reason_not_deferred (codes.get_reason c) d h,
  )

  first_not_deferred :
      (d : PslError) (cs : List ℕ)
      → is_deferred d ≡ false
      → is_deferred (first_error codes d cs) ≡ false
  first_not_deferred d [] h = refl
  first_not_deferred d (c ∷ cs) h =
      ground (arith, mapped_not_deferred d c h, first_not_deferred d cs h)

  kept_not_deferred :
      (d alt e : PslError) (stack : List ℕ)
      → is_deferred d ≡ false
      → is_deferred alt ≡ false
      → (purge_result codes d stack >>= λ err. some (if is_error err then err else alt)) ≡ some e
      → is_deferred e ≡ false
  kept_not_deferred d alt e [] hd ha h = ground arith
  kept_not_deferred d alt e (c ∷ cs) hd ha h = ground (arith, first_not_deferred d (c ∷ cs) hd)

  syscall_not_deferred : (ret : ℤ) (e : Errno) → is_deferred (syscall_error codes ret e) ≡ false
  syscall_not_deferred (pos zero) e = refl
  syscall_not_deferred (pos (suc n)) e = ground (arith, errno_not_deferred e syscall refl)
  syscall_not_deferred (negsuc n) e = ground (arith, errno_not_deferred e syscall refl)

  -- The error stack never asks to try again: only SSL_get_error does.
  not_deferred :
      (status : SslError) (ret : ℤ) (n : Errno) (stack : List ℕ) (e : PslError)
      → status ≢ ssl_read
      → status ≢ ssl_write
      → ssl_channel_error codes status ret n stack ssl_protocol ≡ some e
      → is_deferred e ≡ false
  unfolding ssl_channel_error
  not_deferred ssl_ssl ret n stack e hr hw h =
      kept_not_deferred ssl_protocol ssl_protocol e stack refl refl
        (rw (sym (purge_error_lem codes stack ssl_protocol refl)) h)
  not_deferred ssl_syscall ret n stack e hr hw h =
      kept_not_deferred syscall (syscall_error codes ret n) e stack refl
        (syscall_not_deferred ret n) (rw (sym (purge_error_lem codes stack syscall refl)) h)
  not_deferred status ret n stack e hr hw h = ground arith

  pub channel_error-is_deferred :
      (x : Failure) (e : PslError)
      → x.status ≢ ssl_read
      → x.status ≢ ssl_write
      → channel_error codes x ≡ some e
      → is_deferred e ≡ false
  channel_error-is_deferred x e = not_deferred x.status x.ret x.saved_errno x.stack e

-- ===== src/Crypto/Read.antt =====
-- Reading from the SSL session: crypto_read_low and crypto_total_input_bytes_ready of
-- src/psl_channel_fsm_crypto.c. `none` is a failed assertion.
use libpalmsocket.Base.{
  ℕ, zero, suc, ◌+◌, ◌-◌, min, Bool, false, not, ◌&&◌, ◌||◌, Option, none, some, List, [], ◌∷◌,
  ◌++◌, ◌==◌, if◌then◌else◌, ◌>>=◌, ◌>>◌, psl_assert, length,
}
use libpalmsocket.Errors.{PslError, no_error, ssl_want_read, ssl_want_write, is_error}
use libpalmsocket.Fsm.Transitions.{set_last_error}
use libpalmsocket.Crypto.Types.{
  Failure, ReadResult, read_ok, read_failed, Openssl, channel_error, io_want_read, io_want_write,
  io_error, is_deferred, is_io_error, CryptoInput, Io,
}

-- The variables of the loop: `bytes` is what was stored at `pDst`, and `*pNumRead` its length.
pub record Reading (S : Type 0) : Type 0 where
  pub io : Io S
  pub bytes : List ℕ
  pub psl_err : PslError
  pub io_attempted : Bool

-- the `switch` on the error; an error of the WANT kind defers the read if that is allowed
abbrev pub input_failed : Bool → PslError → CryptoInput → CryptoInput
input_failed defer ssl_want_read i = record i {
  io_state = if defer then io_want_read else i.io_state;
}
input_failed defer ssl_want_write i = record i {
  io_state = if defer then io_want_write else i.io_state;
}
input_failed defer e i = record i { io_state = io_error; psl_err = e }

module _ {S : Type 0} (o : Openssl S) where
  -- what follows a failed `SSL_read`; `buffered` is what SSL_pending gave before it
  abbrev pub read_error : Bool → ℕ → Failure → Reading S → Option (Reading S)
  read_error allowed buffered x l = do
    e ← channel_error o.codes x
    psl_assert (is_error e)
    psl_assert ((buffered == 0) || not (is_deferred e))
    some (record l {
      io = record (l.io) { input = input_failed (allowed && (length l.bytes == 0)) e l.io.input };
      psl_err = e;
    })

  -- a positive result of the read into the one-byte buffer
  abbrev pub stored_byte : List ℕ → CryptoInput → Option CryptoInput
  stored_byte (b ∷ []) i = some (record i { one_byte_buf = b })
  stored_byte _ i = none

  -- `SSL_read` straight into the caller's buffer, or into the one-byte buffer where nothing is buffered
  abbrev pub read_size : ℕ → ℕ → ℕ
  read_size zero remaining = 1
  read_size (suc k) remaining = min remaining (suc k)

  abbrev pub attempted : ℕ → Reading S → Reading S
  attempted k l = record l { io_attempted = (k == 0) || l.io_attempted }

  abbrev pub read_bytes : ℕ → List ℕ → Reading S → Option (Reading S)
  read_bytes zero bs l = stored_byte bs l.io.input >>= λ i.
      some (record l { io = record (l.io) { input = i }; bytes = l.bytes ++ bs })
  read_bytes (suc k) bs l = some (record l { bytes = l.bytes ++ bs })

  abbrev pub with_ssl : S → Reading S → Reading S
  with_ssl s l = record l { io = record (l.io) { ssl = s } }

  -- the rest of a round by the result of its read; `go` goes on after a count of bytes
  abbrev pub read_by :
      Bool
      → ℕ
      → (ℕ → Reading S → Option (Reading S))
      → ReadResult × S
      → Reading S
      → Option (Reading S)
  read_by allowed k go (read_ok bs, s) l =
      read_bytes k bs (attempted k (with_ssl s l)) >>= go (length bs)
  read_by allowed k go (read_failed x, s) l = read_error allowed k x (attempted k (with_ssl s l))

  -- The loop. Each round that does not end it reads a byte or more, so the first argument, which bounds
  -- the rounds, is enough if it is the count that is left.
  unfoldable pub read_loop : ℕ → Bool → ℕ → Reading S → Option (Reading S)
  read_loop n allowed zero l = some l
  read_loop zero allowed (suc r) l = none
  read_loop (suc n) allowed (suc r) l =
      read_by allowed (o.buffered l.io.ssl) (λ m l'. read_loop n allowed (suc r - m) l')
        (o.ssl_read (read_size (o.buffered l.io.ssl) (suc r)) l.io.ssl) l

  -- The last error is set where the loop ended with one.
  abbrev pub read_ended : Reading S → Option (Reading S)
  read_ended l =
      if is_error l.psl_err
      then (set_last_error l.psl_err l.io.fsm >>= λ f.
          some (record l { io = record (l.io) { fsm = f } }))
      else some l

  -- `crypto_read_low`
  unfoldable pub read_low : ℕ → Bool → Io S → Option (Reading S)
  unfolding read_loop set_last_error
  read_low cnt allowed c = do
    psl_assert (not (is_io_error c.input.io_state))
    l ←
        read_loop cnt allowed cnt
          (record { io = c; bytes = []; psl_err = no_error; io_attempted = false })
    read_ended l

  -- `crypto_total_input_bytes_ready`, an `unsigned int`; SSL_pending is an `int`.
  unfoldable pub total_input_bytes_ready : Io S → ℕ
  total_input_bytes_ready c = o.buffered c.ssl + (if c.input.byte_available then 1 else 0)

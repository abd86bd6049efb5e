-- ===== src/Crypto/Deferred.antt =====
-- Deferred reading and writing: crypto_process_deferred_ssl_io of src/psl_channel_fsm_crypto.c, with
-- its two steps. `none` is a failed assertion.
use libpalmsocket.Base.{
  ℕ, zero, suc, Bool, true, false, not, ◌&&◌, ◌||◌, Option, none, some, List, [], ◌∷◌, ℤ, pos, eq_ℤ,
  leb_ℤ, ltb, if◌then◌else◌, ◌>>=◌, ◌>>◌, psl_assert, length, take, drop,
}
use libpalmsocket.Errors.{PslError, is_error, tcp_connreset}
use libpalmsocket.IoBuf.{IoBuf, get_data_size, get_data_ptr, consume}
use libpalmsocket.FdWatch.Conditions.{Condition, is_set}
use libpalmsocket.Crypto.Types.{
  Openssl, SslIoState, io_idle, io_want_read, io_want_write, io_error, is_deferred, io_pending,
  is_io_error, is_io_want_read, CryptoInput, CryptoOutput, Io,
}
use libpalmsocket.Crypto.Read.{Reading, read_low}
use libpalmsocket.Crypto.Write.{write_low}
use libpalmsocket.Crypto.Watching.{schedule_deferred_ssl_io}

-- `CryptoDeferredIOHint`
pub data Freshness : Type 0 where
  fresh_none after_read after_write : Freshness

abbrev pub is_after_read : Freshness → Bool
is_after_read after_read = true
is_after_read _ = false

abbrev pub is_after_write : Freshness → Bool
is_after_write after_write = true
is_after_write _ = false

abbrev pub is_fresh_none : Freshness → Bool
is_fresh_none fresh_none = true
is_fresh_none _ = false

-- The variables of the loop.
pub record Sweep (S : Type 0) : Type 0 where
  pub io : Io S
  pub fresh_in : Bool
  pub fresh_out : Bool
  pub hint : Freshness

-- `writeable` and `readable`
abbrev pub may_write : Freshness → Condition → Bool
may_write h r = not (is_fresh_none h) || not (is_set r) || r.io_out || r.io_hup || r.io_nval

abbrev pub may_read : Freshness → Condition → Bool
may_read h r = not (is_fresh_none h) || not (is_set r) || r.io_in || r.io_hup || r.io_nval

-- The bytes at the pointer of `psl_io_buf_get_data_ptr`, which must not be NULL, nor their count 0.
abbrev pub bytes_at : Option ℕ × ℤ → IoBuf → Option (List ℕ)
bytes_at (some p, pos (suc n)) b = some (take (suc n) (drop p b.bytes))
bytes_at _ b = none

-- a fatal condition on the descriptor: `G_IO_HUP | G_IO_NVAL`
abbrev pub is_fatal : Condition → Bool
is_fatal r = r.io_hup || r.io_nval

abbrev pub abort_input : CryptoInput → CryptoInput
abort_input i = record i {
  io_state = if io_pending i.io_state then io_error else i.io_state;
  psl_err = if io_pending i.io_state then tcp_connreset else i.psl_err;
}

abbrev pub abort_output : CryptoOutput → CryptoOutput
abort_output out = record out {
  io_state = io_error;
  psl_err = if is_io_error out.io_state then out.psl_err else tcp_connreset;
}

-- The rounds that are enough: the second one only writes.
abbrev pub max_rounds : ℕ
max_rounds = 2

module _ {S : Type 0} where
  abbrev pub set_output_state : SslIoState → Io S → Io S
  set_output_state x c = record c { output = record (c.output) { io_state = x } }

  abbrev pub set_input_state : SslIoState → Io S → Io S
  set_input_state x c = record c { input = record (c.input) { io_state = x } }

  -- `deferredReadOneByteBuf` is the destination of the read.
  abbrev pub byte_stored : List ℕ → Io S → Option (Io S)
  byte_stored (b ∷ []) c = some (record c {
    input = record (c.input) { one_byte_buf = b; byte_available = true; io_state = io_idle };
  })
  byte_stored _ c = none

  -- what `crypto_write_low` gave, with what is left in the buffer
  abbrev pub after_writing : PslError → ℕ → ℤ → Io S → Option (Io S)
  after_writing e next_cnt remaining c =
      if is_error e
      then if is_deferred e
        then psl_assert (io_pending c.output.io_state)
          >> psl_assert (not (leb_ℤ remaining (pos 0)))
          >> psl_assert (eq_ℤ (pos next_cnt) remaining)
          >> some c
        else psl_assert (is_io_error c.output.io_state) >> some c
      else psl_assert (eq_ℤ remaining (pos 0))
        >> psl_assert (not (is_io_error c.output.io_state))
        >> some (set_output_state io_idle c)

  -- what `crypto_read_low` of one byte gave
  abbrev pub after_reading : Reading S → Option (Io S)
  after_reading r = if is_error r.psl_err then some r.io else byte_stored r.bytes r.io

  abbrev pub abort_if : Bool → Io S → Io S
  abort_if true c = record c { input = abort_input c.input; output = abort_output c.output }
  abort_if false c = c

  abbrev pub start_sweep : Freshness → Io S → Sweep S
  start_sweep hint c = record {
    io = c;
    fresh_in = is_after_read hint || not (io_pending c.input.io_state);
    fresh_out = is_after_write hint || not (io_pending c.output.io_state);
    hint = hint;
  }

module _ {S : Type 0} (o : Openssl S) where
  -- writing out what the buffer holds
  unfoldable pub flush_output : Io S → Option (Io S)
  unfolding get_data_size get_data_ptr write_low
  flush_output c = do
    src ← bytes_at (get_data_ptr c.output.buf) c.output.buf
    w ← write_low o src (length src) c
    b ← consume w.io.output.buf w.num_written
    after_writing w.psl_err w.deferred_cnt (get_data_size b)
        (record (w.io) { output = record (w.io.output) { buf = b } })

  -- The 'deferred write' step, for an output that is not fresh.
  unfoldable pub write_step : Condition → Sweep S → Option (Sweep S)
  unfolding flush_output
  write_step revents l =
      psl_assert (io_pending l.io.output.io_state)
      >> (if is_after_read l.hint && not (is_io_error l.io.input.io_state)
          then some (record l { io = set_output_state io_want_write l.io; fresh_out = true })
          else if may_write l.hint revents
          then (flush_output l.io >>= λ c. some (record {
            io = c;
            fresh_in = not (io_pending l.io.input.io_state);
            fresh_out = true;
            hint = after_write;
          }))
          else some (record l { fresh_out = true }))

  -- a read of what OpenSSL has buffered, which needs no input or output of its own
  abbrev pub read_buffered : Sweep S → Option (Sweep S)
  read_buffered l = do
    psl_assert (not l.io.input.byte_available)
    r ← read_low o 1 false l.io
    c ← after_reading r
    psl_assert (if is_error r.psl_err then is_io_error c.input.io_state else true)
    some (record l { io = c; fresh_in = true; hint = after_read })

  -- A read that may cause input and output: the output is looked at again, unless input is deferred
  -- still.
  abbrev pub read_more : Sweep S → Option (Sweep S)
  read_more l = do
    r ← read_low o 1 true l.io
    c ← after_reading r
    psl_assert (
        if is_error r.psl_err
        then io_pending c.input.io_state || is_io_error c.input.io_state
        else true)
    some (record {
      io = c;
      fresh_in = true;
      fresh_out = io_pending c.input.io_state || not (io_pending l.io.output.io_state);
      hint = after_read;
    })

  -- The 'deferred read' step, for an input that is not fresh.
  unfoldable pub read_step : Condition → Sweep S → Option (Sweep S)
  unfolding read_low
  read_step revents l =
      psl_assert l.fresh_out
      >> psl_assert (io_pending l.io.input.io_state)
      >> (if ltb 0 (o.buffered l.io.ssl)
          then read_buffered l
          else if is_io_want_read l.io.output.io_state
          then some (record l { io = set_input_state io_want_read l.io; fresh_in = true })
          else if may_read l.hint revents
          then read_more l
          else some (record l { fresh_in = true }))

  -- One round of the loop, and the loop on a bound for its rounds.
  unfoldable pub sweep_round : Condition → Sweep S → Option (Sweep S)
  unfolding write_step read_step
  sweep_round revents l = do
    m ← if l.fresh_out then some l else write_step revents l
    if m.fresh_in then some m else read_step revents m

  unfoldable pub sweep_loop : ℕ → Condition → Sweep S → Option (Sweep S)
  unfolding sweep_round
  sweep_loop zero revents l = if l.fresh_in && l.fresh_out then some l else none
  sweep_loop (suc n) revents l =
      let rest = sweep_round revents l >>= sweep_loop n revents in
      if l.fresh_in && l.fresh_out then some l else rest

  -- `crypto_process_deferred_ssl_io`, whose status is always kPslSmeEventStatus_success
  unfoldable pub process_deferred_ssl_io : Freshness → Condition → Io S → Option (Io S)
  unfolding sweep_loop schedule_deferred_ssl_io
  process_deferred_ssl_io hint revents c = do
    l ← sweep_loop max_rounds revents (start_sweep hint c)
    schedule_deferred_ssl_io (abort_if (is_fatal revents) l.io)

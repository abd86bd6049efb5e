-- ===== src/Crypto/Transfer.antt =====
-- The user's reads and writes in the crypto states: crypto_handle_READ, crypto_preprocess_READ and
-- crypto_handle_WRITE of src/psl_channel_fsm_crypto.c. `none` is a failed assertion. The bytes that
-- are stored in the user's buffer are a result; `*pNumRead` is their count.
use libpalmsocket.Base.{
  ℕ, ◌+◌, ◌-◌, ◌^◌, min, false, not, ◌&&◌, ◌||◌, Option, none, some, List, [], ◌∷◌, ◌++◌, ltb, leb,
  ◌==◌, if◌then◌else◌, ◌>>=◌, ◌>>◌, psl_assert, length, take, drop,
}
use libpalmsocket.Errors.{PslError, is_error}
use libpalmsocket.IoBuf.{GArray, is_empty, reset_set_size}
use libpalmsocket.FdWatch.Conditions.{nothing}
use libpalmsocket.Fsm.Types.{
  Status, success, error, GioStatus, gio_status_error, gio_status_normal, gio_status_eof,
  gio_status_again,
}
use libpalmsocket.Fsm.Transitions.{set_last_error}
use libpalmsocket.Fsm.Io.{replied}
use libpalmsocket.Crypto.Types.{Openssl, is_deferred, io_pending, is_io_error, CryptoInput, Io}
use libpalmsocket.Crypto.Read.{Reading, read_low}
use libpalmsocket.Crypto.Write.{Writing, write_low}
use libpalmsocket.Crypto.Watching.{is_clean_eof}
use libpalmsocket.Crypto.Deferred.{after_read, after_write, process_deferred_ssl_io}

-- INT_MAX
abbrev pub int_max : ℕ
int_max = 2 ^ 31 - 1

-- What a read answers: the status of the event, and the bytes in the user's buffer.
pub record Answer (S : Type 0) : Type 0 where
  pub io : Io S
  pub status : Status
  pub bytes : List ℕ

-- the byte of a deferred read, if there is one
abbrev pub held : CryptoInput → List ℕ
held i = if i.byte_available then i.one_byte_buf ∷ [] else []

module _ {S : Type 0} where
  abbrev pub io_replied : GioStatus → ℕ → Io S → Io S
  io_replied s n c = record c { fsm = replied s n c.fsm }

  abbrev pub failing_with : PslError → Io S → Option (Io S)
  failing_with e c = set_last_error e c.fsm >>= λ f. some (record c { fsm = f })

  abbrev pub sticky_input : Io S → Option (Answer S)
  sticky_input c =
      psl_assert (is_error c.input.psl_err)
      >> (if is_clean_eof c.input.psl_err
          then some (record { io = io_replied gio_status_eof 0 c; status = success; bytes = [] })
          else (failing_with c.input.psl_err c >>= λ d.
              some (record { io = io_replied gio_status_error 0 d; status = error; bytes = [] })))

  -- `crypto_preprocess_READ`: `some none` is a read that is not answered yet.
  unfoldable pub preprocess_read : ℕ → Io S → Option (Option (Answer S))
  unfolding set_last_error
  preprocess_read cnt c =
      if cnt == 0
      then some
          (some (record { io = io_replied gio_status_normal 0 c; status = success; bytes = [] }))
      else if is_io_error c.input.io_state
      then (sticky_input c >>= λ a. some (some a))
      else if io_pending c.input.io_state
      then some
          (some (record { io = io_replied gio_status_again 0 c; status = success; bytes = [] }))
      else some none

  abbrev pub release_held : Io S → Io S
  release_held c = record c { input = record (c.input) { byte_available = false } }

  -- Post-processing: an error is kept from the user if anything was read.
  abbrev pub classify_read : PslError → ℕ → Io S → Option (GioStatus × Status)
  classify_read e n c =
      if not (is_error e) || ltb 0 n
      then some (gio_status_normal, success)
      else if is_deferred e
      then psl_assert (io_pending c.input.io_state) >> some (gio_status_again, success)
      else psl_assert (is_io_error c.input.io_state)
        >> some (
          (if is_clean_eof e then gio_status_eof else gio_status_error),
          (if is_clean_eof e then success else error),
        )

  module _ (o : Openssl S) where
    abbrev pub finish_read : List ℕ → Reading S → Option (Answer S)
    finish_read first r = do
      let n : ℕ = length (first ++ r.bytes)
      (gio, status) ← classify_read r.psl_err n r.io
      let c : Io S = io_replied gio n r.io
      d ← if r.io_attempted then process_deferred_ssl_io o after_read nothing c else some c
      some (record { io = d; status = status; bytes = first ++ r.bytes })

    abbrev pub read_on : ℕ → Io S → Option (Answer S)
    read_on dstcnt c =
        let first = held c.input in
        if leb dstcnt (length first)
        then some (record {
          io = io_replied gio_status_normal (length first) (release_held c);
          status = success;
          bytes = first;
        })
        else psl_assert (not (io_pending c.input.io_state))
          >> (read_low o (dstcnt - length first) (length first == 0) (release_held c)
              >>= finish_read first)

    -- `crypto_handle_READ`
    unfoldable pub handle_read : ℕ → Io S → Option (Answer S)
    unfolding preprocess_read read_low process_deferred_ssl_io
    handle_read cnt c = preprocess_read cnt c >>= λ m. elim m [
      | some a ↦ some a
      | none ↦ read_on (min cnt int_max) c
    ]

    -- The rest of a write that is deferred is copied to the buffer, which has to be as large.
    abbrev pub keep_deferred : GArray → List ℕ → ℕ → Io S → Option (Io S)
    keep_deferred g src deferred_cnt c =
        let b = reset_set_size g c.output.buf deferred_cnt in
        psl_assert (ltb 0 deferred_cnt)
        >> psl_assert (leb deferred_cnt c.output.buf.max_size)
        >> psl_assert (length b.bytes == deferred_cnt)
        >> some (record c {
          output = record (c.output) { buf = record b { bytes = take deferred_cnt src } };
        })

    abbrev pub classify_write : GArray → List ℕ → Writing S → Option (Io S × GioStatus × Status × ℕ)
    classify_write g src w =
        if is_error w.psl_err && is_deferred w.psl_err
        then psl_assert (io_pending w.io.output.io_state)
          >> (keep_deferred g (drop w.num_written src) w.deferred_cnt w.io >>= λ c.
              some (c, gio_status_normal, success, w.num_written + w.deferred_cnt))
        else if not (is_error w.psl_err) || ltb 0 w.num_written
        then psl_assert (not (io_pending w.io.output.io_state))
          >> psl_assert (not (is_error w.psl_err) || is_io_error w.io.output.io_state)
          >> some (w.io, gio_status_normal, success, w.num_written)
        else psl_assert (w.deferred_cnt == 0)
          >> psl_assert (is_io_error w.io.output.io_state)
          >> some (w.io, gio_status_error, error, 0)

    abbrev pub write_out : GArray → List ℕ → Io S → Option (Io S × Status × ℕ)
    write_out g src c = do
      psl_assert (is_empty c.output.buf)
      w ← write_low o (take int_max src) c.output.buf.max_size c
      (d, gio, status, n) ← classify_write g src w
      d' ← process_deferred_ssl_io o after_write nothing (io_replied gio n d)
      some (d', status, n)

    -- `crypto_handle_WRITE`, given the user's bytes; the last component is `*pNumWritten`. The sticky
    -- error comes before the empty request here.
    unfoldable pub handle_write : GArray → List ℕ → Io S → Option (Io S × Status × ℕ)
    unfolding is_empty reset_set_size set_last_error write_low process_deferred_ssl_io
    handle_write g src c =
        if is_io_error c.output.io_state
        then psl_assert (is_error c.output.psl_err)
          >> (failing_with c.output.psl_err c >>= λ d.
              some (io_replied gio_status_error 0 d, error, 0))
        else if length src == 0
        then some (io_replied gio_status_normal 0 c, success, 0)
        else if io_pending c.output.io_state
        then some (io_replied gio_status_again 0 c, success, 0)
        else write_out g src c

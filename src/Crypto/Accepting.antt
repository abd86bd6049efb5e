-- ===== src/Crypto/Accepting.antt =====
-- crypto_handle_WRITE of src/psl_channel_fsm_crypto.c: what it counts as written is with OpenSSL or in
-- the buffer of the deferred write, in order and once.
use mathlib.Core.List.{append-nil}
use libpalmsocket.Base.{
  ℕ, ◌≤◌, ◌≡◌, refl, sym, ap, ◌∙◌, inl, inr, Option, some, List, [], ◌++◌, ◌==◌, arith, length,
  take, ◌>>=◌, psl_assert-true, Bool-cases, if-false,
}
use libpalmsocket.IoBuf.{GArray}
use libpalmsocket.FdWatch.Conditions.{nothing}
use libpalmsocket.Fsm.Types.{
  Status, Fsm, success, error, GioStatus, gio_status_normal, gio_status_again, gio_status_error,
}
use libpalmsocket.Fsm.Transitions.{set_last_error}
use libpalmsocket.Crypto.Types.{Openssl, io_idle, io_pending, is_io_error, Io}
use libpalmsocket.Crypto.Session.{Streams}
use libpalmsocket.Crypto.Write.{Writing}
use libpalmsocket.Crypto.Writing.{write_low_lem}
use libpalmsocket.Crypto.Deferred.{after_write, process_deferred_ssl_io}
use libpalmsocket.Crypto.Transfer.{io_replied, classify_write, write_out, handle_write, int_max}
use libpalmsocket.Crypto.Sound.{IsSound, Between}
use libpalmsocket.Crypto.Rounds.{process_deferred_ssl_io-IsSound}
use libpalmsocket.Crypto.Reporting.{idle_state, left_empty, classify_lem}

module _ {S : Type 0} (o : Openssl S) (st : Streams o) (g : GArray) where
  module _ (received accepted src : List ℕ) (c : Io S) (sc : IsSound c)
      (b : Between o st received accepted c) (idle : c.output.io_state ≡ io_idle) where
    -- What a write does: the count that it reports is how much of `src` is accepted.
    abbrev Accepts : Option (Io S × Status × ℕ) → Type 0
    Accepts q =
        (d : Io S) × (status : Status) × (n : ℕ) × (q ≡ some (d, status, n))
        × IsSound d
        × Between o st received (accepted ++ take n src) d
        × (n ≤ length src)

    write_out_lem : Accepts (write_out o g src c)
    write_out_lem =
        let (w, hw, t) =
          write_low_lem o st c.output.buf.max_size (take int_max src) c sc.output.buf_room
            (ap is_io_error idle) in
        let (d, gio, status, n, hd, s, b', hn) =
          classify_lem o st g received accepted src c sc b idle w t in
        let (e, he, se, be) =
          process_deferred_ssl_io-IsSound o st received (accepted ++ take n src) after_write nothing
            (io_replied gio n d) (record { input = s.input; output = s.output; watch = s.watch })
            (record { reading = b'.reading; writing = b'.writing }) in
        (
          e,
          status,
          n,
          psl_assert-true (left_empty c.output.buf sc.output.buf_valid (sc.output.idle_empty idle))
              ∙ ap (λ q. q >>= after) hw
              ∙ ap (λ q. q >>= reply) hd
              ∙ ap (λ q. q >>= λ d'. some (d', status, n)) he,
          se,
          be,
          hn,
        )
      where
        reply : Io S × GioStatus × Status × ℕ → Option (Io S × Status × ℕ)
        reply (d, gio, status, n) =
            process_deferred_ssl_io o after_write nothing (io_replied gio n d) >>= λ d'.
            some (d', status, n)

        after : Writing S → Option (Io S × Status × ℕ)
        after w = classify_write o g src w >>= reply

  -- On a session that keeps to OpenSSL's manual, from a sound state: a write of any bytes is answered
  -- without a failed assertion and leaves a sound state; and the bytes accepted from the user grow by
  -- exactly as many of the new ones, from the first, as the answer counts.
  pub handle_write-IsSound :
      (received accepted src : List ℕ) (c : Io S)
      → IsSound c
      → Between o st received accepted c
      → (d : Io S) × (status : Status) × (n : ℕ) × (handle_write o g src c ≡ some (d, status, n))
        × IsSound d
        × Between o st received (accepted ++ take n src) d
        × (n ≤ length src)
  unfolding handle_write set_last_error
  handle_write-IsSound received accepted src c sc b =
      elim (Bool-cases (is_io_error c.output.io_state)) [
        | inl bad ↦ (
          io_replied gio_status_error 0
              (record c { fsm = record (c.fsm) { last_error = c.output.psl_err } }),
          error,
          0,
          rw (bad, sym sc.output.sticky ∙ bad) refl,
          record { input = sc.input; output = sc.output; watch = sc.watch },
          same,
          omega arith,
        )
        | inr fine ↦ elim (Bool-cases (length src == 0)) [
          | inl empty ↦ (
            io_replied gio_status_normal 0 c,
            success,
            0,
            rw (fine, empty) refl,
            record { input = sc.input; output = sc.output; watch = sc.watch },
            same,
            omega arith,
          )
          | inr some_bytes ↦ elim (Bool-cases (io_pending c.output.io_state)) [
            | inl busy ↦ (
              io_replied gio_status_again 0 c,
              success,
              0,
              rw (fine, some_bytes, busy) refl,
              record { input = sc.input; output = sc.output; watch = sc.watch },
              same,
              omega arith,
            )
            | inr ready ↦
                let (d, status, n, hd, s, b', hn) =
                  write_out_lem received accepted src c sc b (idle_state _ fine ready) in
                (
                  d,
                  status,
                  n,
                  if-false _ fine ∙ if-false _ some_bytes ∙ if-false _ ready ∙ hd,
                  s,
                  b',
                  hn,
                )
          ]
        ]
      ]
    where
      same : {f : Fsm} → Between o st received (accepted ++ []) (record c { fsm = f })
      same = record { reading = b.reading; writing = b.writing ∙ sym (append-nil accepted) }

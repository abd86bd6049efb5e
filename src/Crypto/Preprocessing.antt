-- ===== src/Crypto/Preprocessing.antt =====
-- crypto_preprocess_READ of src/psl_channel_fsm_crypto.c: the reads that are answered without a call of
-- OpenSSL.
use mathlib.Core.List.{append-nil}
use libpalmsocket.Base.{
  ℕ, ◌≤◌, ◌≡◌, refl, sym, ◌∙◌, ◌⊎◌, inl, inr, true, false, Option, none, some, List, [], ◌++◌, ◌==◌,
  arith, length, Bool-cases,
}
use libpalmsocket.Errors.{is_error}
use libpalmsocket.Fsm.Types.{
  Status, success, error, gio_status_normal, gio_status_eof, gio_status_again, gio_status_error,
}
use libpalmsocket.Fsm.Transitions.{set_last_error}
use libpalmsocket.Crypto.Types.{Openssl, io_pending, is_io_error, Io}
use libpalmsocket.Crypto.Session.{Streams}
use libpalmsocket.Crypto.Watching.{is_clean_eof}
use libpalmsocket.Crypto.Transfer.{Answer, io_replied, preprocess_read}
use libpalmsocket.Crypto.Sound.{IsSound, Between}

module _ {S : Type 0} (o : Openssl S) (st : Streams o) (received accepted : List ℕ) where
  -- What answering a read of `cnt` bytes does.
  abbrev pub Reads : ℕ → Option (Answer S) → Type 0
  Reads cnt q =
      (a : Answer S) × (q ≡ some a)
      × IsSound a.io
      × Between o st (received ++ a.bytes) accepted a.io
      × (length a.bytes ≤ cnt)

  unread : {c : Io S} → Between o st received accepted c → Between o st (received ++ []) accepted c
  unread b = rw (append-nil received) b

  -- an answer that moves nothing
  answered :
      (cnt : ℕ) (c d : Io S) (s : Status)
      → IsSound c
      → Between o st received accepted c
      → (d.ssl ≡ c.ssl) × (d.input ≡ c.input) × (d.output ≡ c.output)
      → d.fsm.watch ≡ c.fsm.watch
      → Reads cnt (some (record { io = d; status = s; bytes = [] }))
  answered cnt c d s sc b (ssl, input, output) w = (
    record { io = d; status = s; bytes = [] },
    refl,
    record {
      input = rw input sc.input;
      output = rw output sc.output;
      watch = (sc.watch.0, w ∙ sc.watch.1);
    },
    unread (record { reading = rw (ssl, input) b.reading; writing = rw (ssl, output) b.writing }),
    omega arith,
  )

  pub preprocessed :
      (cnt : ℕ) (c : Io S)
      → IsSound c
      → Between o st received accepted c
      → ((q : Answer S) × (preprocess_read cnt c ≡ some (some q)) × Reads cnt (some q))
        ⊎ ((preprocess_read cnt c ≡ some none)
            × (1 ≤ cnt)
            × (is_io_error c.input.io_state ≡ false)
            × (io_pending c.input.io_state ≡ false))
  unfolding preprocess_read set_last_error
  preprocessed cnt c sc b = elim (Bool-cases (cnt == 0)) [
    | inl zero ↦ inl (
      _,
      rw zero refl,
      answered cnt c (io_replied gio_status_normal 0 c) success sc b (refl, refl, refl) refl,
    )
    | inr one ↦ elim (Bool-cases (is_io_error c.input.io_state)) [
      | inl bad ↦
          let coded : is_error c.input.psl_err ≡ true = sym sc.input.sticky ∙ bad in
          elim (Bool-cases (is_clean_eof c.input.psl_err)) [
            | inl eof ↦ inl (
              _,
              rw (one, bad, coded, eof) refl,
              answered cnt c (io_replied gio_status_eof 0 c) success sc b (refl, refl, refl) refl,
            )
            | inr broken ↦ inl (
              _,
              rw (one, bad, coded, broken) refl,
              answered cnt c (io_replied gio_status_error 0 (failed c)) error sc b
                  (refl, refl, refl) refl,
            )
          ]
      | inr fine ↦ elim (Bool-cases (io_pending c.input.io_state)) [
        | inl busy ↦ inl (
          _,
          rw (one, fine, busy) refl,
          answered cnt c (io_replied gio_status_again 0 c) success sc b (refl, refl, refl) refl,
        )
        | inr ready ↦ inr (rw (one, fine, ready) refl, ground arith, fine, ready)
      ]
    ]
  ]
    where
      failed : Io S → Io S
      failed c = record c { fsm = record (c.fsm) { last_error = c.input.psl_err } }

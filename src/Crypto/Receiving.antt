-- ===== src/Crypto/Receiving.antt =====
-- crypto_handle_READ of src/psl_channel_fsm_crypto.c: what the user receives is the stream of
-- plaintext that OpenSSL gave, in order and once.
use mathlib.Core.List.{append-nil, append_assoc}
use libpalmsocket.Base.{
  true-false, ℕ, ◌+◌, ◌-◌, ◌≤◌, min, ◌≡◌, refl, sym, ap, ◌∙◌, inl, inr, Bool, true, false, not,
  ◌&&◌, some, List, [], ◌∷◌, ◌++◌, ltb, leb, ◌==◌, arith, length, length-append, if◌then◌else◌,
  ◌>>=◌, psl_assert-true, Bool-cases, if-true, if-false,
}
use libpalmsocket.Errors.{is_error}
use libpalmsocket.IoBuf.Contents.{contents}
use libpalmsocket.FdWatch.Conditions.{nothing}
use libpalmsocket.Fsm.Types.{
  Status, success, error, GioStatus, gio_status_normal, gio_status_eof, gio_status_again,
  gio_status_error,
}
use libpalmsocket.Crypto.Types.{Openssl, io_pending, is_io_error, CryptoInput, Io}
use libpalmsocket.Crypto.Session.{Streams}
use libpalmsocket.Crypto.Read.{Reading}
use libpalmsocket.Crypto.Reading.{read_low_lem, ReadLow}
use libpalmsocket.Crypto.Watching.{is_clean_eof}
use libpalmsocket.Crypto.Deferred.{after_read, process_deferred_ssl_io}
use libpalmsocket.Crypto.Transfer.{
  Answer, held, release_held, io_replied, classify_read, finish_read, read_on, handle_read, int_max,
}
use libpalmsocket.Crypto.Sound.{InputSound, IsSound, Between}
use libpalmsocket.Crypto.Flushing.{pending-is_io_error}
use libpalmsocket.Crypto.Sweeping.{nothing_held_list}
use libpalmsocket.Crypto.Rounds.{process_deferred_ssl_io-IsSound}
use libpalmsocket.Crypto.Preprocessing.{Reads, preprocessed}

both_empty :
    (xs ys : List ℕ)
    → ltb 0 (length (xs ++ ys)) ≡ false
    → ((length xs == 0) && (length ys == 0)) ≡ true
both_empty [] ys h = ground arith
both_empty (x ∷ xs) ys h = absurd (ground arith)

one_held : (i : CryptoInput) (n : ℕ) → 1 ≤ n → length (held i) ≤ n
one_held i n h = ground arith

module _ {S : Type 0} (o : Openssl S) (st : Streams o) (received accepted : List ℕ) where
  -- An input after a read without a sticky error before it
  read-InputSound :
      (allowed : Bool) (n : ℕ) (c : Io S) (r : Reading S)
      → is_io_error c.input.io_state ≡ false
      → InputSound c.input
      → c.input.byte_available ≡ false
      → ReadLow o st allowed n c r
      → InputSound r.io.input
  read-InputSound allowed n c r fine s empty t = record {
    sticky = elim t.ended [
      | inl (_, _, hs, he) ↦ ap is_io_error hs ∙ s.sticky ∙ sym (ap is_error he)
      | inr (bad, _, _, moved) ↦ elim moved [
        | inl (_, hs, he) ↦ ap is_io_error hs ∙ sym (ap is_error he ∙ bad)
        | inr (_, he, how) ↦ elim how [
          | inl (_, hs) ↦ pending-is_io_error _ hs ∙ sym (ap is_error he ∙ sym s.sticky ∙ fine)
          | inr (_, hs) ↦ ap is_io_error hs ∙ s.sticky ∙ sym (ap is_error he)
        ]
      ]
    ];
    byte_idle = λ q. absurd (true-false (sym q ∙ t.available ∙ empty));
  }

  -- The assertions of the post-processing hold for what `crypto_read_low` gave.
  classify_lem :
      (first : List ℕ) (n : ℕ) (c : Io S) (r : Reading S)
      → ReadLow o st (length first == 0) n c r
      → (g : GioStatus × Status) × (classify_read r.psl_err (length (first ++ r.bytes)) r.io
          ≡ some g)
  classify_lem first n c r t = elim t.ended [
    | inl (ok, _, _, _) ↦ ((gio_status_normal, success), rw (ap is_error ok) refl)
    | inr (bad, _, _, moved) ↦ elim (Bool-cases (ltb 0 (length (first ++ r.bytes)))) [
      | inl some_bytes ↦ ((gio_status_normal, success), rw (bad, some_bytes) refl)
      | inr no_bytes ↦ elim moved [
        | inl (d, hs, _) ↦ (
          (
            (if is_clean_eof r.psl_err then gio_status_eof else gio_status_error),
            (if is_clean_eof r.psl_err then success else error),
          ),
          rw (bad, no_bytes, d, hs) refl,
        )
        | inr (d, _, how) ↦ elim how [
          | inl (_, hs) ↦ ((gio_status_again, success), rw (bad, no_bytes, d, hs) refl)
          | inr (kept, _) ↦ absurd (true-false (sym (both_empty first r.bytes no_bytes) ∙ kept))
        ]
      ]
    ]
  ]

  finish_lem :
      (cnt n : ℕ) (first : List ℕ) (c : Io S) (r : Reading S)
      → IsSound c
      → c.input.byte_available ≡ false
      → is_io_error c.input.io_state ≡ false
      → st.given c.ssl ≡ received ++ first
      → st.taken c.ssl ++ contents c.output.buf ≡ accepted
      → length first + n ≤ cnt
      → length r.bytes ≤ n
      → ReadLow o st (length first == 0) n c r
      → Reads o st received accepted cnt (finish_read o first r)
  finish_lem cnt n first c r sc empty fine reading writing fits short t =
      let (g, hg) = classify_lem first n c r t in
      let d : Io S = io_replied g.0 (length (first ++ r.bytes)) r.io in
      let s : IsSound d = record {
        input = read-InputSound _ n c r fine sc.input empty t;
        output = rw t.output sc.output;
        watch = (sc.watch.0, t.watch ∙ sc.watch.1);
      } in
      let b : Between o st (received ++ (first ++ r.bytes)) accepted d = record {
        reading =
            t.given
            ∙ ap (λ xs. xs ++ r.bytes) reading
            ∙ append_assoc received first r.bytes
            ∙ sym (append-nil _)
            ∙ ap (λ xs. (received ++ (first ++ r.bytes)) ++ xs)
                (sym (nothing_held_list r.io.input (t.available ∙ empty)));
        writing = rw (t.taken, t.output) writing;
      } in
      let (e, he, se, be) = after d s b in
      (
        record { io = e; status = g.1; bytes = first ++ r.bytes },
        chain g d e hg refl he,
        se,
        be,
        omega (arith, fits, short, length-append first r.bytes),
      )
    where
      after :
          (d : Io S)
          → IsSound d
          → Between o st (received ++ (first ++ r.bytes)) accepted d
          → (e : Io S) × ((if r.io_attempted
                then process_deferred_ssl_io o after_read nothing d
                else some d)
              ≡ some e)
            × IsSound e
            × Between o st (received ++ (first ++ r.bytes)) accepted e
      after d s b = elim (Bool-cases r.io_attempted) [
        | inl tried ↦
            let (e, he, se, be) =
              process_deferred_ssl_io-IsSound o st (received ++ (first ++ r.bytes)) accepted
                after_read nothing d s b in
            (e, if-true _ tried ∙ he, se, be)
        | inr untried ↦ (d, if-false _ untried, s, b)
      ]

      chain :
          (g : GioStatus × Status) (d e : Io S)
          → classify_read r.psl_err (length (first ++ r.bytes)) r.io ≡ some g
          → d ≡ io_replied g.0 (length (first ++ r.bytes)) r.io
          → (if r.io_attempted then process_deferred_ssl_io o after_read nothing d else some d)
            ≡ some e
          → finish_read o first r ≡ some (record { io = e; status = g.1; bytes = first ++ r.bytes })
      chain g d e hg hd he = rw hg (rw (sym hd) (rw he refl))

  read_on_lem :
      (cnt : ℕ) (c : Io S)
      → IsSound c
      → Between o st received accepted c
      → is_io_error c.input.io_state ≡ false
      → io_pending c.input.io_state ≡ false
      → 1 ≤ cnt
      → Reads o st received accepted cnt (read_on o cnt c)
  read_on_lem cnt c sc b fine ready one = elim (Bool-cases (leb cnt (length (held c.input)))) [
    | inl enough ↦ (
      record {
        io = io_replied gio_status_normal (length (held c.input)) (release_held c);
        status = success;
        bytes = held c.input;
      },
      if-true _ enough,
      record { input = released.input; output = sc.output; watch = sc.watch },
      record { reading = b.reading ∙ sym (append-nil _); writing = b.writing },
      one_held c.input cnt one,
    )
    | inr more ↦
        let (r, hr, t) =
          read_low_lem o st (cnt - length (held c.input)) (length (held c.input) == 0)
            (release_held c) fine in
        let (a, ha, sa, ba, la) =
          finish_lem cnt (cnt - length (held c.input)) (held c.input) (release_held c) r released
            refl fine b.reading b.writing (omega (arith, one_held c.input cnt one))
            (elim t.ended [
              | inl (_, n, _, _) ↦ omega (arith, n)
              | inr (_, n, _, _) ↦ omega (arith, n)
            ])
            t in
        (
          a,
          if-false _ more
              ∙ psl_assert-true (ap not ready)
              ∙ ap (λ q. q >>= finish_read o (held c.input)) hr
              ∙ ha,
          sa,
          ba,
          la,
        )
  ]
    where
      released : IsSound (release_held c)
      released = record {
        input = record { sticky = sc.input.sticky; byte_idle = λ q. absurd (true-false (sym q)) };
        output = sc.output;
        watch = sc.watch;
      }

  -- On a session that keeps to OpenSSL's manual, from a sound state: a read of any count is answered
  -- without a failed assertion and leaves a sound state, and the bytes in the user's buffer, no more
  -- than asked for, are the next ones of the stream that OpenSSL gave.
  pub handle_read-IsSound :
      (cnt : ℕ) (c : Io S)
      → IsSound c
      → Between o st received accepted c
      → (a : Answer S) × (handle_read o cnt c ≡ some a)
        × IsSound a.io
        × Between o st (received ++ a.bytes) accepted a.io
        × (length a.bytes ≤ cnt)
  unfolding handle_read
  handle_read-IsSound cnt c sc b = elim (preprocessed o st received accepted cnt c sc b) [
    | inl (q, hq, r) ↦ (r.0, rw hq r.1, r.2, r.3, r.4)
    | inr (hq, one, fine, ready) ↦
        let (a, ha, sa, ba, la) =
          read_on_lem (min cnt int_max) c sc b fine ready (omega (arith, one)) in
        (a, rw hq ha, sa, ba, omega (arith, la))
  ]

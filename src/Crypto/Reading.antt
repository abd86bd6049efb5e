-- ===== src/Crypto/Reading.antt =====
-- crypto_read_low of src/psl_channel_fsm_crypto.c on a session that keeps to OpenSSL's manual: it
-- ends, no assertion fails, and every byte that the session gave is in the caller's buffer.
use mathlib.Core.List.{append-nil}
use libpalmsocket.Base.{
  ℕ, zero, suc, ◌-◌, ◌≤◌, ◌<◌, ◌≡◌, refl, sym, ap, ◌∙◌, ◌⊎◌, inl, inr, Bool, true, false, ◌&&◌,
  Option, some, List, [], ◌++◌, ◌==◌, arith, length, Bool-cases,
}
use libpalmsocket.Errors.{no_error, is_error}
use libpalmsocket.Fsm.Transitions.{set_last_error}
use libpalmsocket.Crypto.Types.{
  ReadResult, read_ok, read_failed, Openssl, is_deferred, is_io_error, Io,
}
use libpalmsocket.Crypto.Session.{Streams}
use libpalmsocket.Crypto.Read.{
  Reading, read_size, attempted, read_bytes, with_ssl, read_loop, read_ended, read_low,
}
use libpalmsocket.Crypto.Pieces.{Moved, ReadTo, piece, read_size_bounds, failed, go_on}

module _ {S : Type 0} (o : Openssl S) (st : Streams o) where
  abbrev ReadsTo : Bool → ℕ → Reading S → Option (Reading S) → Type 0
  ReadsTo allowed rem l m = (l' : Reading S) × (m ≡ some l') × ReadTo o st allowed rem l l'

  again :
      (n : ℕ) (allowed : Bool) (r : ℕ) (bs : List ℕ) (l m l' : Reading S) (s : S)
      → o.ssl_read (read_size o (o.buffered l.io.ssl) (suc r)) l.io.ssl ≡ (read_ok bs, s)
      → read_bytes o (o.buffered l.io.ssl) bs (attempted o (o.buffered l.io.ssl) (with_ssl o s l))
        ≡ some m
      → read_loop o n allowed (suc r - length bs) m ≡ some l'
      → read_loop o (suc n) allowed (suc r) l ≡ some l'
  unfolding read_loop
  again n allowed r bs l m l' s hq hm hl = rw (hq, hm) hl

  -- what is left of a round by the result of its read, where the rounds after it are known
  round_by :
      (n : ℕ) (allowed : Bool) (r : ℕ) (l : Reading S)
      → l.psl_err ≡ no_error
      → r ≤ n
      → ((rem : ℕ) (m : Reading S)
          → rem ≤ n
          → m.psl_err ≡ no_error
          → ReadsTo allowed rem m (read_loop o n allowed rem m))
      → (q : ReadResult × S) → o.ssl_read (read_size o (o.buffered l.io.ssl) (suc r)) l.io.ssl ≡ q
      → ReadsTo allowed (suc r) l (read_loop o (suc n) allowed (suc r) l)
  unfolding read_loop
  round_by n allowed r l e hn ih (read_failed x, s) hq = rw hq (failed o st allowed r x l s hq)
  round_by n allowed r l e hn ih (read_ok bs, s) hq =
      let (sized, fits, one) = read_size_bounds o st (o.buffered l.io.ssl) r in
      let (some_read, not_more, given, taken) = st.read_moves _ l.io.ssl s bs sized hq in
      let (m, hm, bytes, err, ssl, kept) =
        piece o st (o.buffered l.io.ssl) bs (attempted o (o.buffered l.io.ssl) (with_ssl o s l))
          (λ z. omega (arith, one z)) in
      let (l', hl, t) = ih (suc r - length bs) m (omega arith) (err ∙ e) in
      (
        l',
        again n allowed r bs l m l' s hq hm hl,
        go_on o st allowed r bs l m l' some_read (omega arith) bytes (ap st.given ssl ∙ given)
            (ap st.taken ssl ∙ taken)
            (record {
              output = kept.output;
              fsm = kept.fsm;
              last_cond = kept.last_cond;
              available = kept.available;
              io_state = kept.io_state;
              psl_err = kept.psl_err;
            })
            t,
      )

  -- The loop ends within as many rounds as bytes are asked for.
  pub read_loop_lem :
      (n : ℕ) (allowed : Bool) (rem : ℕ) (l : Reading S)
      → rem ≤ n
      → l.psl_err ≡ no_error
      → ReadsTo allowed rem l (read_loop o n allowed rem l)
  unfolding read_loop
  read_loop_lem n allowed zero l h e = (
    l,
    refl,
    record {
      new = [];
      bytes = sym (append-nil l.bytes);
      given = sym (append-nil _);
      taken = refl;
      output = refl;
      fsm = refl;
      last_cond = refl;
      available = refl;
      ended = inl (e, refl, refl, refl);
    },
  )
  read_loop_lem zero allowed (suc r) l h e = absurd (omega (arith, h))
  read_loop_lem (suc n) allowed (suc r) l h e =
      round_by n allowed r l e (omega (arith, h)) (λ rem m. read_loop_lem n allowed rem m) _ refl

  -- What `crypto_read_low` of `cnt` bytes leaves alone, and the bytes it read.
  pub record ReadLow (allowed : Bool) (cnt : ℕ) (c : Io S) (r : Reading S) : Type 0 where
    pub given : st.given r.io.ssl ≡ st.given c.ssl ++ r.bytes
    pub taken : st.taken r.io.ssl ≡ st.taken c.ssl
    pub output : r.io.output ≡ c.output
    pub watch : r.io.fsm.watch ≡ c.fsm.watch
    pub available : r.io.input.byte_available ≡ c.input.byte_available
    pub ended :
        ((r.psl_err ≡ no_error)
          × (length r.bytes ≡ cnt)
          × (r.io.input.io_state ≡ c.input.io_state)
          × (r.io.input.psl_err ≡ c.input.psl_err))
        ⊎ ((is_error r.psl_err ≡ true)
            × (length r.bytes < cnt)
            × (is_deferred r.psl_err ≡ true → length r.bytes ≡ 0 → o.buffered c.ssl ≡ 0)
            × Moved (allowed && (length r.bytes == 0)) r.psl_err c.input r.io.input)

  abbrev begun : Io S → Reading S
  begun c = record { io = c; bytes = []; psl_err = no_error; io_attempted = false }

  low_of :
      {allowed : Bool} {cnt : ℕ} {c : Io S} {l : Reading S} (r : Reading S)
      → ReadTo o st allowed cnt (begun c) l
      → (r.psl_err ≡ l.psl_err) × (r.bytes ≡ l.bytes)
      → (r.io.ssl ≡ l.io.ssl) × (r.io.input ≡ l.io.input) × (r.io.output ≡ l.io.output)
      → r.io.fsm.watch ≡ l.io.fsm.watch
      → ReadLow allowed cnt c r
  low_of r t (err, bytes) (ssl, input, output) w = record {
    given = cc (t.given, t.bytes);
    taken = cc t.taken;
    output = cc t.output;
    watch = w ∙ ap (λ f. f.watch) t.fsm;
    available = cc t.available;
    ended = elim t.ended [
      | inl (ok, n, s, e) ↦ inl (
        err ∙ ok,
        ap length (bytes ∙ t.bytes) ∙ n,
        ap (λ i. i.io_state) input ∙ s,
        ap (λ i. i.psl_err) input ∙ e,
      )
      | inr (bad, n, b, moved) ↦ inr (
        ap is_error err ∙ bad,
        omega (arith, n, ap length (bytes ∙ t.bytes)),
        λ d z. b (sym (ap is_deferred err) ∙ d) (sym (ap length (bytes ∙ t.bytes)) ∙ z),
        rw (err, bytes, input) moved,
      )
    ];
  }

  ended_low :
      {allowed : Bool} {cnt : ℕ} {c : Io S} (l : Reading S)
      → ReadTo o st allowed cnt (begun c) l
      → (r : Reading S) × (read_ended o l ≡ some r) × ReadLow allowed cnt c r
  unfolding set_last_error
  ended_low l t = elim (Bool-cases (is_error l.psl_err)) [
    | inl bad ↦ (
      record l { io = record (l.io) { fsm = record (l.io.fsm) { last_error = l.psl_err } } },
      rw bad refl,
      low_of _ t (refl, refl) (refl, refl, refl) refl,
    )
    | inr fine ↦ (l, rw fine refl, low_of _ t (refl, refl) (refl, refl, refl) refl)
  ]

  -- From an input without a sticky error, `crypto_read_low` ends and no assertion fails.
  pub read_low_lem :
      (cnt : ℕ) (allowed : Bool) (c : Io S)
      → is_io_error c.input.io_state ≡ false
      → (r : Reading S) × (read_low o cnt allowed c ≡ some r) × ReadLow allowed cnt c r
  unfolding read_low
  read_low_lem cnt allowed c h =
      let (l, hl, t) = read_loop_lem cnt allowed cnt (begun c) (omega arith) refl in
      let (r, hr, low) = ended_low l t in (r, rw (h, hl) hr, low)

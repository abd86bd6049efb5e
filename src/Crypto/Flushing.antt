-- ===== src/Crypto/Flushing.antt =====
-- Writing out the buffer of a deferred write: the part of crypto_process_deferred_ssl_io in
-- src/psl_channel_fsm_crypto.c that calls crypto_write_low.
use mathlib.Core.Path.{subst}
use mathlib.Core.List.{append_assoc}
use libpalmsocket.Base.{
  ℕ, ◌≤◌, ◌≡◌, ◌≢◌, refl, sym, ap, ◌∙◌, inl, inr, true, false, some, ◌++◌, pos, eq_ℤ_refl, leb_ℤ,
  arith, length, take, length-drop, drop-drop, take-drop_all,
}
use libpalmsocket.Errors.{no_error, is_error}
use libpalmsocket.IoBuf.{get_data_size, get_data_ptr, consume}
use libpalmsocket.IoBuf.Bounds.{IsValid, left, get_data_size-left, advanced, consume_lem}
use libpalmsocket.IoBuf.Contents.{contents}
use libpalmsocket.Crypto.Types.{Openssl, SslIoState, io_idle, io_error, io_pending, is_io_error, Io}
use libpalmsocket.Crypto.Session.{Streams}
use libpalmsocket.Crypto.Write.{Writing, write_low}
use libpalmsocket.Crypto.Writing.{WriteLow, MovedOut, write_low_lem}
use libpalmsocket.Crypto.Deferred.{bytes_at, after_writing, set_output_state, flush_output}
use libpalmsocket.Crypto.Sound.{OutputSound, bytes_at-contents}

pub pending-is_io_error : (x : SslIoState) → io_pending x ≡ true → is_io_error x ≡ false
pending-is_io_error x h = ground arith

idle_error : io_idle ≢ io_error
idle_error h = ground arith

idle_pending : false ≢ true
idle_pending h = ground arith

some_left : (n : ℕ) → 1 ≤ n → leb_ℤ (pos n) (pos 0) ≡ false
some_left n h = ground arith

module _ {S : Type 0} (o : Openssl S) (st : Streams o) where
  -- What flushing leaves: no byte is lost or sent twice.
  pub record Flushed (c d : Io S) : Type 0 where
    pub stream : st.taken d.ssl ++ contents d.output.buf ≡ st.taken c.ssl ++ contents c.output.buf
    pub given : st.given d.ssl ≡ st.given c.ssl
    pub input : d.input ≡ c.input
    pub output : OutputSound d.output
    pub watch : d.fsm.watch ≡ c.fsm.watch

  abbrev consumed : Writing S → Io S → Io S
  consumed w c = record (w.io) {
    output = record (w.io.output) { buf = advanced w.num_written c.output.buf };
  }

  -- How the output comes out of a write of the whole buffer, of which `rest` is left.
  abbrev Ends : Io S → ℕ → Writing S → Type 0
  Ends c rest w =
      (d : Io S) × (after_writing w.psl_err w.deferred_cnt (pos rest) (consumed w c) ≡ some d)
      × (d.ssl ≡ w.io.ssl)
      × (d.input ≡ w.io.input)
      × (d.fsm ≡ w.io.fsm)
      × (d.output.buf ≡ advanced w.num_written c.output.buf)
      × OutputSound d.output

  whole :
      (c : Io S) (rest : ℕ) (w : Writing S)
      → OutputSound c.output
      → io_pending c.output.io_state ≡ true
      → IsValid (advanced w.num_written c.output.buf)
      → left (advanced w.num_written c.output.buf) ≡ rest
      → rest ≡ 0
      → w.psl_err ≡ no_error
      → w.io.output.io_state ≡ c.output.io_state
      → w.io.output.psl_err ≡ c.output.psl_err
      → Ends c rest w
  whole c rest w so p v hr z e hs hp =
      let fine = pending-is_io_error c.output.io_state p in
      (
        set_output_state io_idle (consumed w c),
        rw (e, z, hs, fine) refl,
        refl,
        refl,
        refl,
        refl,
        record {
          sticky = sym (ap is_error hp ∙ sym so.sticky ∙ fine);
          buf_valid = v;
          buf_room = so.buf_room;
          pending_held = λ q. absurd (idle_pending q);
          idle_empty = λ q. hr ∙ z;
        },
      )

  part :
      (c : Io S) (rest : ℕ) (w : Writing S)
      → OutputSound c.output
      → io_pending c.output.io_state ≡ true
      → IsValid (advanced w.num_written c.output.buf)
      → left (advanced w.num_written c.output.buf) ≡ rest
      → 1 ≤ rest
      → is_error w.psl_err ≡ true
      → MovedOut w.psl_err rest 0 w.deferred_cnt c.output w.io.output
      → Ends c rest w
  part c rest w so p v hr pos_rest bad (inl (sticky, state, err, n)) = (
    consumed w c,
    rw (bad, sticky, state) refl,
    refl,
    refl,
    refl,
    refl,
    record {
      sticky = ap is_io_error state ∙ sym (ap is_error err ∙ bad);
      buf_valid = v;
      buf_room = so.buf_room;
      pending_held = λ q. omega (arith, hr, pos_rest);
      idle_empty = λ q. absurd (idle_error (sym q ∙ state));
    },
  )
  part c rest w so p v hr pos_rest bad (inr (deferred, err, state, n)) = (
    consumed w c,
    rw (bad, deferred, state, n, some_left rest pos_rest, eq_ℤ_refl (pos rest)) refl,
    refl,
    refl,
    refl,
    refl,
    record {
      sticky =
          pending-is_io_error w.io.output.io_state state
          ∙ sym (ap is_error err ∙ sym so.sticky ∙ pending-is_io_error c.output.io_state p);
      buf_valid = v;
      buf_room = so.buf_room;
      pending_held = λ q. omega (arith, hr, pos_rest);
      idle_empty = λ q. absurd (idle_pending (sym (ap io_pending q) ∙ state));
    },
  )

  ends :
      (c : Io S) (w : Writing S)
      → OutputSound c.output
      → io_pending c.output.io_state ≡ true
      → WriteLow o st (length (contents c.output.buf)) (contents c.output.buf) c w
      → IsValid (advanced w.num_written c.output.buf)
      → Ends c (left (advanced w.num_written c.output.buf)) w
  ends c w so p t v = elim t.ended [
    | inl (e, n, hs, hp) ↦
        whole c _ w so p v refl
          (omega (arith, n, length-drop c.output.buf.next_consume_index c.output.buf.bytes)) e hs hp
    | inr (bad, n, moved) ↦
        part c _ w so p v refl
          (omega (arith, n, length-drop c.output.buf.next_consume_index c.output.buf.bytes)) bad
          (subst (λ k. MovedOut w.psl_err k 0 w.deferred_cnt c.output w.io.output)
            (omega (
              arith,
              length-drop c.output.buf.next_consume_index c.output.buf.bytes,
              length-drop w.num_written (contents c.output.buf),
            ))
            moved)
  ]

  -- A deferred output is flushed without a failed assertion.
  pub flush_output_lem :
      (c : Io S)
      → OutputSound c.output
      → io_pending c.output.io_state ≡ true
      → (d : Io S) × (flush_output o c ≡ some d) × Flushed c d
  unfolding flush_output
  flush_output_lem c so p =
      let full = so.pending_held p in
      let (w, hw, t) =
        write_low_lem o st (length (contents c.output.buf)) (contents c.output.buf) c
          (omega (arith, full, length-drop c.output.buf.next_consume_index c.output.buf.bytes))
          (pending-is_io_error c.output.io_state p) in
      let (hc, v) = consume_lem w.num_written so.buf_valid (
        omega (arith, t.bounded, length-drop c.output.buf.next_consume_index c.output.buf.bytes)) in
      let (d, hd, ssl, input, fsm, buf, sound) = ends c w so p t v in
      (
        d,
        chained c w d (bytes_at-contents so.buf_valid full) hw t.buf hc (get_data_size-left v) hd,
        record {
          stream =
              rw (ssl, buf, t.taken)
                (append_assoc (st.taken c.ssl) (take w.num_written (contents c.output.buf)) _
                  ∙ ap (λ xs. st.taken c.ssl ++ xs)
                      (ap (λ xs. take w.num_written (contents c.output.buf) ++ xs)
                          (sym (
                            drop-drop c.output.buf.next_consume_index w.num_written
                              c.output.buf.bytes))
                        ∙ take-drop_all w.num_written (contents c.output.buf)));
          given = ap st.given ssl ∙ t.given;
          input = input ∙ t.input;
          output = sound;
          watch = ap (λ f. f.watch) fsm ∙ t.watch;
        },
      )
    where
      chained :
          (c : Io S) (w : Writing S) (d : Io S)
          → bytes_at (get_data_ptr c.output.buf) c.output.buf ≡ some (contents c.output.buf)
          → write_low o (contents c.output.buf) (length (contents c.output.buf)) c ≡ some w
          → w.io.output.buf ≡ c.output.buf
          → consume c.output.buf w.num_written ≡ some (advanced w.num_written c.output.buf)
          → get_data_size (advanced w.num_written c.output.buf)
            ≡ pos (left (advanced w.num_written c.output.buf))
          → after_writing w.psl_err w.deferred_cnt
              (pos (left (advanced w.num_written c.output.buf)))
              (consumed w c)
            ≡ some d
          → flush_output o c ≡ some d
      chained c w d hb hw hbuf hc hs hd = rw (hb, hw, hbuf, hc, hs) hd

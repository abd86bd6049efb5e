-- ===== src/Crypto/Reporting.antt =====
-- What crypto_handle_WRITE of src/psl_channel_fsm_crypto.c reports for what crypto_write_low wrote, and
-- what it keeps in the buffer of the deferred write.
use mathlib.Core.Path.{subst}
use mathlib.Core.List.{append-nil, append_assoc}
use libpalmsocket.Base.{
  true-false, ℕ, ◌+◌, ◌-◌, ◌^◌, ◌≤◌, ◌<◌, min, ◌≡◌, refl, sym, ap, ◌∙◌, inl, inr, true, false,
  Option, some, List, [], ◌++◌, ltb, leb, ◌==◌, arith, length, take, drop, length-take, length-drop,
  take-take_le, take-drop_add, length-eq_zero, Bool-cases, lt→ltb,
}
use libpalmsocket.Errors.{is_error}
use libpalmsocket.IoBuf.{IoBuf, GArray, is_empty, reset_set_size}
use libpalmsocket.IoBuf.Bounds.{IsValid, left, get_data_size-left}
use libpalmsocket.IoBuf.Contents.{contents}
use libpalmsocket.Fsm.Types.{Status, success, error, GioStatus, gio_status_normal, gio_status_error}
use libpalmsocket.Crypto.Types.{
  Openssl, SslIoState, io_idle, io_pending, is_deferred, is_io_error, Io,
}
use libpalmsocket.Crypto.Session.{Streams}
use libpalmsocket.Crypto.Write.{Writing}
use libpalmsocket.Crypto.Writing.{WriteLow}
use libpalmsocket.Crypto.Transfer.{held, classify_write, int_max}
use libpalmsocket.Crypto.Sound.{IsSound, Between}
use libpalmsocket.Crypto.Flushing.{pending-is_io_error}
use libpalmsocket.Crypto.Sweeping.{not_idle}

pub idle_state : (x : SslIoState) → is_io_error x ≡ false → io_pending x ≡ false → x ≡ io_idle
idle_state x e p = ground arith

empty_contents : (b : IoBuf) → left b ≡ 0 → contents b ≡ []
empty_contents b h = length-eq_zero _ (omega (arith, h, length-drop b.next_consume_index b.bytes))

pub left_empty : (b : IoBuf) → IsValid b → left b ≡ 0 → is_empty b ≡ true
unfolding is_empty
left_empty b v h = rw (get_data_size-left v, h) refl

not_positive : (n : ℕ) → ltb 0 n ≡ false → n ≡ 0
not_positive n h = ground arith

le→leb : (a b : ℕ) → a ≤ b → leb a b ≡ true
le→leb a b h = ground arith

equal : (n : ℕ) → (n == n) ≡ true
equal n = ground arith

module _ {S : Type 0} (o : Openssl S) (st : Streams o) (g : GArray) where
  reset_lem :
      (b : IoBuf) (n : ℕ)
      → n ≤ b.max_size
      → b.max_size < 2 ^ 32
      → (length (reset_set_size g b n).bytes ≡ n)
        × ((reset_set_size g b n).next_consume_index ≡ 0)
        × ((reset_set_size g b n).max_size ≡ b.max_size)
  unfolding reset_set_size
  reset_lem b n h k = (ground (arith, g.length-set_size b.bytes n), refl, refl)

  module _ (received accepted src : List ℕ) (c : Io S) (sc : IsSound c)
      (b : Between o st received accepted c) (idle : c.output.io_state ≡ io_idle) where
    -- What the post-processing of a write makes of the state, and the count that it reports.
    abbrev pub Reports : Option (Io S × GioStatus × Status × ℕ) → Type 0
    Reports q =
        (d : Io S) × (gio : GioStatus) × (status : Status) × (n : ℕ) × (q
          ≡ some (d, gio, status, n))
        × IsSound d
        × Between o st received (accepted ++ take n src) d
        × (n ≤ length src)

    none_left : contents c.output.buf ≡ []
    none_left = empty_contents c.output.buf (sc.output.idle_empty idle)

    abbrev pub clamped : List ℕ
    clamped = take int_max src

    abbrev pub Low : Writing S → Type 0
    Low w = WriteLow o st c.output.buf.max_size clamped c w

    fits : (w : Writing S) → Low w → (w.num_written ≤ int_max) × (w.num_written ≤ length src)
    fits w t = (
      omega (arith, t.bounded, length-take int_max src),
      omega (arith, t.bounded, length-take int_max src),
    )

    taken_lem : (w : Writing S) → Low w → st.taken w.io.ssl ≡ accepted ++ take w.num_written src
    taken_lem w t =
        t.taken
        ∙ ap (λ xs. xs ++ take w.num_written clamped)
            (sym (append-nil _) ∙ ap (λ xs. st.taken c.ssl ++ xs) (sym none_left) ∙ b.writing)
        ∙ ap (λ xs. accepted ++ xs) (take-take_le w.num_written int_max src (fits w t).0)

    -- a write that left the buffer alone
    plain :
        (w : Writing S)
        → Low w
        → is_io_error w.io.output.io_state ≡ is_error w.io.output.psl_err
        → io_pending w.io.output.io_state ≡ false
        → IsSound w.io × Between o st received (accepted ++ take w.num_written src) w.io
    plain w t sticky still = (
      record {
        input = rw t.input sc.input;
        output = record {
          sticky = sticky;
          buf_valid = rw t.buf sc.output.buf_valid;
          buf_room = rw t.buf sc.output.buf_room;
          pending_held = λ q. absurd (true-false (sym q ∙ still));
          idle_empty = λ _. rw t.buf (sc.output.idle_empty idle);
        };
        watch = (sc.watch.0, t.watch ∙ sc.watch.1);
      },
      record {
        reading = t.given ∙ b.reading ∙ ap (λ i. received ++ held i) (sym t.input);
        writing = rw (t.buf, none_left) (append-nil _ ∙ taken_lem w t);
      },
    )

    -- the rest of a write that is deferred, kept in the buffer
    abbrev kept : Writing S → IoBuf
    kept w = record (reset_set_size g c.output.buf w.deferred_cnt) {
      bytes = take w.deferred_cnt (drop w.num_written src);
    }

    kept_lem :
        (w : Writing S)
        → is_error w.psl_err ≡ true
        → is_deferred w.psl_err ≡ true
        → io_pending w.io.output.io_state ≡ true
        → w.io.output.buf ≡ c.output.buf
        → ltb 0 w.deferred_cnt ≡ true
        → leb w.deferred_cnt c.output.buf.max_size ≡ true
        → (length (reset_set_size g c.output.buf w.deferred_cnt).bytes == w.deferred_cnt) ≡ true
        → classify_write o g src w
          ≡ some (
            record (w.io) { output = record (w.io.output) { buf = kept w } },
            gio_status_normal,
            success,
            w.num_written + w.deferred_cnt,
          )
    kept_lem w bad d p buf some_deferred small whole =
        rw (bad, d, p, buf, some_deferred, small, whole) refl

    deferred_lem :
        (w : Writing S)
        → Low w
        → is_error w.psl_err ≡ true
        → w.num_written < length clamped
        → is_deferred w.psl_err ≡ true
        → w.io.output.psl_err ≡ c.output.psl_err
        → io_pending w.io.output.io_state ≡ true
        → w.deferred_cnt ≡ min (length (drop w.num_written clamped)) c.output.buf.max_size
        → Reports (classify_write o g src w)
    unfolding reset_set_size
    deferred_lem w t bad short d he p n = (
      d',
      gio_status_normal,
      success,
      w.num_written + w.deferred_cnt,
      kept_lem w bad d p t.buf (lt→ltb 0 w.deferred_cnt some_deferred) small whole,
      record {
        input = rw t.input sc.input;
        output = record {
          sticky =
              pending-is_io_error _ p
              ∙ sym (ap is_error he ∙ sym sc.output.sticky ∙ ap is_io_error idle);
          buf_valid = record {
            index_in = omega arith;
            size_in = omega (arith, length_kept, room);
            limit_in = sc.output.buf_valid.limit_in;
          };
          buf_room = sc.output.buf_room;
          pending_held = λ _. omega (arith, length_kept, some_deferred);
          idle_empty = λ q. absurd (not_idle _ p q);
        };
        watch = (sc.watch.0, t.watch ∙ sc.watch.1);
      },
      record {
        reading = t.given ∙ b.reading ∙ ap (λ i. received ++ held i) (sym t.input);
        writing =
            ap (λ xs. xs ++ take w.deferred_cnt (drop w.num_written src)) (taken_lem w t)
            ∙ append_assoc accepted (take w.num_written src) _
            ∙ ap (λ xs. accepted ++ xs) (take-drop_add w.num_written w.deferred_cnt src);
      },
      omega (arith, t.bounded, at_most, length-take int_max src),
    )
      where
        d' : Io S
        d' = record (w.io) { output = record (w.io.output) { buf = kept w } }

        some_deferred : 0 < w.deferred_cnt
        some_deferred =
            omega (arith, n, short, length-drop w.num_written clamped, sc.output.buf_room)

        room : w.deferred_cnt ≤ c.output.buf.max_size
        room = omega (arith, n)

        at_most : w.deferred_cnt ≤ length src - w.num_written
        at_most = omega (arith, n, length-drop w.num_written clamped, length-take int_max src)

        length_kept : length (take w.deferred_cnt (drop w.num_written src)) ≡ w.deferred_cnt
        length_kept = omega (
          arith,
          at_most,
          length-take w.deferred_cnt (drop w.num_written src),
          length-drop w.num_written src,
        )

        small : leb w.deferred_cnt c.output.buf.max_size ≡ true
        small = le→leb w.deferred_cnt c.output.buf.max_size room

        whole :
            (length (reset_set_size g c.output.buf w.deferred_cnt).bytes == w.deferred_cnt) ≡ true
        whole =
            let (long, _, _) =
              reset_lem c.output.buf w.deferred_cnt room sc.output.buf_valid.limit_in in
            rw long (equal w.deferred_cnt)

    pub classify_lem : (w : Writing S) → Low w → Reports (classify_write o g src w)
    classify_lem w t = elim t.ended [
      | inl (ok, _, hs, he) ↦
          let (s, b') =
            plain w t (ap is_io_error hs ∙ sc.output.sticky ∙ sym (ap is_error he))
              (ap io_pending (hs ∙ idle)) in
          (
            w.io,
            gio_status_normal,
            success,
            w.num_written,
            rw (ap is_error ok, hs ∙ idle) refl,
            s,
            b',
            (fits w t).1,
          )
      | inr (bad, short, moved) ↦ elim moved [
        | inl (d, hs, he, n) ↦
            let (s, b') =
              plain w t (ap is_io_error hs ∙ sym (ap is_error he ∙ bad)) (ap io_pending hs) in
            elim (Bool-cases (ltb 0 w.num_written)) [
              | inl partly ↦ (
                w.io,
                gio_status_normal,
                success,
                w.num_written,
                rw (bad, d, partly, hs) refl,
                s,
                b',
                (fits w t).1,
              )
              | inr nothing_sent ↦ (
                w.io,
                gio_status_error,
                error,
                0,
                rw (bad, d, nothing_sent, n, hs) refl,
                s,
                subst (λ k. Between o st received (accepted ++ take k src) w.io)
                    (not_positive w.num_written nothing_sent) b',
                omega arith,
              )
            ]
        | inr (d, he, p, n) ↦ deferred_lem w t bad short d he p n
      ]
    ]

-- ===== src/Crypto/Writing.antt =====
-- crypto_write_low of src/psl_channel_fsm_crypto.c on a session that keeps to OpenSSL's manual: it
-- ends, no assertion fails, and what it counts as written is what the session took.
use mathlib.Core.List.{append-nil, append_assoc}
use libpalmsocket.Base.{
  ℕ, zero, suc, ◌+◌, ◌≤◌, ◌<◌, min, ◌≡◌, refl, sym, ap, ◌∙◌, ◌⊎◌, inl, inr, Bool, true, false,
  Option, some, List, [], ◌∷◌, ◌++◌, arith, length, take, drop, length-take, length-drop,
  take-drop_add, take-take_le, drop-drop, if◌then◌else◌, lt→ltb,
}
use native.Mathlib.Nat.{zero-add}
use libpalmsocket.Fsm.Types.{Fsm}
use libpalmsocket.Errors.{PslError, no_error, is_error}
use libpalmsocket.Fsm.Transitions.{set_last_error}
use libpalmsocket.Crypto.Types.{
  Failure, WriteResult, write_ok, write_failed, Openssl, io_error, is_deferred, io_pending,
  is_io_error, CryptoOutput, Io,
}
use libpalmsocket.Crypto.Session.{Streams, channel_error_lem}
use libpalmsocket.Crypto.Write.{Writing, output_failed, write_error, wrote, write_loop, write_low}

-- How an error `e` moved the state of the output, where `req` bytes were offered.
abbrev pub MovedOut : PslError → ℕ → ℕ → ℕ → CryptoOutput → CryptoOutput → Type 0
MovedOut e req n n' i i' =
    ((is_deferred e ≡ false) × (i'.io_state ≡ io_error) × (i'.psl_err ≡ e) × (n' ≡ n))
    ⊎ ((is_deferred e ≡ true)
        × (i'.psl_err ≡ i.psl_err)
        × (io_pending i'.io_state ≡ true)
        × (n' ≡ req))

output_failed-MovedOut :
    (e : PslError) (req n : ℕ) (i : CryptoOutput)
    → MovedOut e req n (if is_deferred e then req else n) i (output_failed e i)
output_failed-MovedOut e req n i = ground arith

output_failed-buf : (e : PslError) (i : CryptoOutput) → (output_failed e i).buf ≡ i.buf
output_failed-buf e i = ground arith

module _ {S : Type 0} (o : Openssl S) (st : Streams o) where
  -- What writing `src` did: how many of its bytes were written, and how it ended.
  pub record WriteTo (max : ℕ) (src : List ℕ) (l l' : Writing S) : Type 0 where
    pub count : ℕ
    pub bounded : count ≤ length src
    pub written : l'.num_written ≡ l.num_written + count
    pub taken : st.taken l'.io.ssl ≡ st.taken l.io.ssl ++ take count src
    pub given : st.given l'.io.ssl ≡ st.given l.io.ssl
    pub input : l'.io.input ≡ l.io.input
    pub buf : l'.io.output.buf ≡ l.io.output.buf
    pub watch : l'.io.fsm.watch ≡ l.io.fsm.watch
    pub ended :
        ((l'.psl_err ≡ no_error)
          × (count ≡ length src)
          × (l'.io.output.io_state ≡ l.io.output.io_state)
          × (l'.io.output.psl_err ≡ l.io.output.psl_err))
        ⊎ ((is_error l'.psl_err ≡ true)
            × (count < length src)
            × MovedOut l'.psl_err
                (min (length (drop count src)) max)
                l.deferred_cnt
                l'.deferred_cnt
                l.io.output
                l'.io.output)

  abbrev WritesTo : ℕ → List ℕ → Writing S → Option (Writing S) → Type 0
  WritesTo max src l m = (l' : Writing S) × (m ≡ some l') × WriteTo max src l l'

  failed :
      (max : ℕ) (b : ℕ) (bs : List ℕ) (x : Failure) (l : Writing S) (s : S)
      → 1 ≤ max
      → o.ssl_write (take (min (length (b ∷ bs)) max) (b ∷ bs)) l.io.ssl ≡ (write_failed x, s)
      → WritesTo max (b ∷ bs) l (
          write_error o (min (length (b ∷ bs)) max) x (record l { io = record (l.io) { ssl = s } }))
  failed max b bs x l s hm h =
      let (reported, taken, given) =
        st.write_stays _ l.io.ssl s x
          (omega (arith, length-take (min (length (b ∷ bs)) max) (b ∷ bs))) h in
      let (e, he, is_err) = channel_error_lem o.codes x reported in
      (
        ended_by e,
        rw (he, is_err) refl,
        record {
          count = 0;
          bounded = omega arith;
          written = omega arith;
          taken = taken ∙ sym (append-nil _);
          given = given;
          input = refl;
          buf = output_failed-buf e l.io.output;
          watch = refl;
          ended = inr (is_err, omega arith, output_failed-MovedOut e _ l.deferred_cnt l.io.output);
        },
      )
    where
      ended_by : PslError → Writing S
      ended_by e = record {
        io = record (l.io) {
          fsm = record (l.io.fsm) { last_error = if is_deferred e then l.io.fsm.last_error else e };
          ssl = s;
          output = output_failed e l.io.output;
        };
        num_written = l.num_written;
        deferred_cnt = if is_deferred e then min (length (b ∷ bs)) max else l.deferred_cnt;
        psl_err = e;
      }

  -- A write goes on where a piece was taken.
  go_on :
      (max k : ℕ) (src : List ℕ) (l l' : Writing S) (s : S)
      → k ≤ length src
      → st.taken s ≡ st.taken l.io.ssl ++ take k src
      → st.given s ≡ st.given l.io.ssl
      → WriteTo max (drop k src) (wrote o k s l) l'
      → WriteTo max src l l'
  go_on max k src l l' s hk taken given t = record {
    count = k + t.count;
    bounded = omega (arith, t.bounded, length-drop k src);
    written = omega (arith, t.written);
    taken =
        t.taken
        ∙ ap (λ xs. xs ++ take t.count (drop k src)) taken
        ∙ append_assoc _ (take k src) (take t.count (drop k src))
        ∙ ap (λ xs. st.taken l.io.ssl ++ xs) (take-drop_add k t.count src);
    given = t.given ∙ given;
    input = t.input;
    buf = t.buf;
    watch = t.watch;
    ended = elim t.ended [
      | inl (ok, n, s, e) ↦ inl (ok, omega (arith, n, length-drop k src), s, e)
      | inr (bad, n, moved) ↦ inr (
        bad,
        omega (arith, n, length-drop k src),
        elim moved [
          | inl sticky ↦ inl sticky
          | inr (d, e, p, c) ↦
              inr (d, e, p, c ∙ ap (λ xs. min (length xs) max) (drop-drop k t.count src))
        ],
      )
    ];
  }

  -- what is left of a round by the result of its write, where the rounds after it are known
  round_by :
      (n max b : ℕ) (bs : List ℕ) (l : Writing S)
      → 1 ≤ max
      → length bs ≤ n
      → l.psl_err ≡ no_error
      → ((src : List ℕ) (m : Writing S)
          → length src ≤ n
          → m.psl_err ≡ no_error
          → WritesTo max src m (write_loop o n max src m))
      → (q : WriteResult × S) → o.ssl_write (take (min (length (b ∷ bs)) max) (b ∷ bs)) l.io.ssl ≡ q
      → WritesTo max (b ∷ bs) l (write_loop o (suc n) max (b ∷ bs) l)
  unfolding write_loop
  round_by n max b bs l hm hn e ih (write_failed x, s) hq = rw hq (failed max b bs x l s hm hq)
  round_by n max b bs l hm hn e ih (write_ok k, s) hq =
      let (some_taken, not_more, taken, given) =
        st.write_moves _ l.io.ssl s k
          (omega (arith, length-take (min (length (b ∷ bs)) max) (b ∷ bs))) hq in
      let (l', hl, t) =
        ih (drop k (b ∷ bs)) (wrote o k s l) (omega (arith, length-drop k (b ∷ bs))) e in
      (
        l',
        rw hq hl,
        go_on max k (b ∷ bs) l l' s
            (omega (arith, length-take (min (length (b ∷ bs)) max) (b ∷ bs)))
            (taken
              ∙ ap (λ xs. st.taken l.io.ssl ++ xs)
                  (take-take_le k (min (length (b ∷ bs)) max) (b ∷ bs)
                    (omega (arith, length-take (min (length (b ∷ bs)) max) (b ∷ bs)))))
            given t,
      )

  pub write_loop_lem :
      (n max : ℕ) (src : List ℕ) (l : Writing S)
      → 1 ≤ max
      → length src ≤ n
      → l.psl_err ≡ no_error
      → WritesTo max src l (write_loop o n max src l)
  unfolding write_loop
  write_loop_lem n max [] l hm hn e = (
    l,
    refl,
    record {
      count = 0;
      bounded = omega arith;
      written = omega arith;
      taken = sym (append-nil _);
      given = refl;
      input = refl;
      buf = refl;
      watch = refl;
      ended = inl (e, refl, refl, refl);
    },
  )
  write_loop_lem zero max (b ∷ bs) l hm hn e = absurd (omega (arith, hn))
  write_loop_lem (suc n) max (b ∷ bs) l hm hn e =
      round_by n max b bs l hm (omega (arith, hn)) e
        (λ src m hs he. write_loop_lem n max src m hm hs he) _ refl

  -- What `crypto_write_low` leaves alone, and what it counts.
  pub record WriteLow (max : ℕ) (src : List ℕ) (c : Io S) (w : Writing S) : Type 0 where
    pub bounded : w.num_written ≤ length src
    pub taken : st.taken w.io.ssl ≡ st.taken c.ssl ++ take w.num_written src
    pub given : st.given w.io.ssl ≡ st.given c.ssl
    pub input : w.io.input ≡ c.input
    pub buf : w.io.output.buf ≡ c.output.buf
    pub watch : w.io.fsm.watch ≡ c.fsm.watch
    pub ended :
        ((w.psl_err ≡ no_error)
          × (w.num_written ≡ length src)
          × (w.io.output.io_state ≡ c.output.io_state)
          × (w.io.output.psl_err ≡ c.output.psl_err))
        ⊎ ((is_error w.psl_err ≡ true)
            × (w.num_written < length src)
            × MovedOut w.psl_err
                (min (length (drop w.num_written src)) max)
                0
                w.deferred_cnt
                c.output
                w.io.output)

  abbrev begun : Io S → Writing S
  begun c = record { io = c; num_written = 0; deferred_cnt = 0; psl_err = no_error }

  low_of :
      {max : ℕ} {src : List ℕ} {c : Io S} (l : Writing S) (f : Fsm)
      → f.watch ≡ l.io.fsm.watch
      → WriteTo max src (begun c) l
      → WriteLow max src c (record l { io = record (l.io) { fsm = f } })
  low_of {src = src} l f w t =
      let counted : l.num_written ≡ t.count = t.written ∙ zero-add t.count in
      record {
        bounded = rw counted t.bounded;
        taken = rw counted t.taken;
        given = t.given;
        input = t.input;
        buf = t.buf;
        watch = w ∙ t.watch;
        ended = rw counted t.ended;
      }

  -- From an output without a sticky error, `crypto_write_low` ends and no assertion fails.
  pub write_low_lem :
      (max : ℕ) (src : List ℕ) (c : Io S)
      → 1 ≤ max
      → is_io_error c.output.io_state ≡ false
      → (w : Writing S) × (write_low o src max c ≡ some w) × WriteLow max src c w
  unfolding write_low set_last_error
  write_low_lem max src c hm h =
      let (l, hl, t) = write_loop_lem (length src) max src (begun c) hm (omega arith) refl in
      ended_low l hl t (is_error l.psl_err) refl
    where
      ended_low :
          (l : Writing S)
          → write_loop o (length src) max src (begun c) ≡ some l
          → WriteTo max src (begun c) l
          → (b : Bool) → is_error l.psl_err ≡ b
          → (w : Writing S) × (write_low o src max c ≡ some w) × WriteLow max src c w
      ended_low l hl t true bad = (
        _,
        rw (lt→ltb 0 max hm, h, hl, bad) refl,
        low_of l (record (l.io.fsm) { last_error = l.psl_err }) refl t,
      )
      ended_low l hl t false fine =
          (_, rw (lt→ltb 0 max hm, h, hl, fine) refl, low_of l l.io.fsm refl t)

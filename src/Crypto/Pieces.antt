-- ===== src/Crypto/Pieces.antt =====
-- One round of the loop of crypto_read_low in src/psl_channel_fsm_crypto.c on a session that keeps to
-- OpenSSL's manual.
use mathlib.Core.List.{append-nil, append_assoc}
use libpalmsocket.Base.{
  ℕ, zero, suc, ◌-◌, ◌≤◌, ◌<◌, ◌≡◌, refl, sym, ap, ◌∙◌, ◌⊎◌, inl, inr, Bool, true, false, not, ◌&&◌,
  ◌||◌, some, List, [], ◌∷◌, ◌++◌, ◌==◌, arith, length, length-append, Bool-cases,
}
use libpalmsocket.Errors.{PslError, no_error, is_error}
use libpalmsocket.Crypto.Types.{
  Failure, read_failed, Openssl, channel_error, io_error, is_deferred, io_pending, CryptoInput, Io,
}
use libpalmsocket.Crypto.Session.{Streams, channel_error_lem, channel_error-is_deferred}
use libpalmsocket.Crypto.Read.{
  Reading, input_failed, read_error, read_size, attempted, read_bytes, with_ssl,
}

-- How an error `e` moved the state of the input: an error of the WANT kind defers the read or leaves
-- the state alone, any other is sticky.
abbrev pub Moved : Bool → PslError → CryptoInput → CryptoInput → Type 0
Moved defer e i i' =
    ((is_deferred e ≡ false) × (i'.io_state ≡ io_error) × (i'.psl_err ≡ e))
    ⊎ ((is_deferred e ≡ true)
        × (i'.psl_err ≡ i.psl_err)
        × (((defer ≡ true) × (io_pending i'.io_state ≡ true))
            ⊎ ((defer ≡ false) × (i'.io_state ≡ i.io_state))))

input_failed-Moved :
    (defer : Bool) (e : PslError) (i : CryptoInput) → Moved defer e i (input_failed defer e i)
input_failed-Moved defer e i = ground arith

-- All that a piece of data that is read leaves alone.
pub record Untouched {S : Type 0} (c d : Io S) : Type 0 where
  pub output : d.output ≡ c.output
  pub fsm : d.fsm ≡ c.fsm
  pub last_cond : d.last_cond ≡ c.last_cond
  pub available : d.input.byte_available ≡ c.input.byte_available
  pub io_state : d.input.io_state ≡ c.input.io_state
  pub psl_err : d.input.psl_err ≡ c.input.psl_err

module _ {S : Type 0} (o : Openssl S) (st : Streams o) where
  -- What reading at most `rem` bytes did: the bytes read, and how it ended.
  pub record ReadTo (allowed : Bool) (rem : ℕ) (l l' : Reading S) : Type 0 where
    pub new : List ℕ
    pub bytes : l'.bytes ≡ l.bytes ++ new
    pub given : st.given l'.io.ssl ≡ st.given l.io.ssl ++ new
    pub taken : st.taken l'.io.ssl ≡ st.taken l.io.ssl
    pub output : l'.io.output ≡ l.io.output
    pub fsm : l'.io.fsm ≡ l.io.fsm
    pub last_cond : l'.io.last_cond ≡ l.io.last_cond
    pub available : l'.io.input.byte_available ≡ l.io.input.byte_available
    pub ended :
        ((l'.psl_err ≡ no_error)
          × (length new ≡ rem)
          × (l'.io.input.io_state ≡ l.io.input.io_state)
          × (l'.io.input.psl_err ≡ l.io.input.psl_err))
        ⊎ ((is_error l'.psl_err ≡ true)
            × (length new < rem)
            × (is_deferred l'.psl_err ≡ true → length new ≡ 0 → o.buffered l.io.ssl ≡ 0)
            × Moved (allowed && (length l'.bytes == 0)) l'.psl_err l.io.input l'.io.input)

  -- one piece of data, from wherever it was read
  pub piece :
      (k : ℕ) (bs : List ℕ) (l : Reading S)
      → (k ≡ 0 → length bs ≡ 1)
      → (l' : Reading S) × (read_bytes o k bs l ≡ some l')
        × (l'.bytes ≡ l.bytes ++ bs)
        × (l'.psl_err ≡ l.psl_err)
        × (l'.io.ssl ≡ l.io.ssl)
        × Untouched l.io l'.io
  piece zero [] l h = absurd (omega (arith, h refl))
  piece zero (b ∷ []) l h = (
    _,
    refl,
    refl,
    refl,
    refl,
    record {
      output = refl;
      fsm = refl;
      last_cond = refl;
      available = refl;
      io_state = refl;
      psl_err = refl;
    },
  )
  piece zero (b ∷ c ∷ bs) l h = absurd (omega (arith, h refl))
  piece (suc k) bs l h = (
    _,
    refl,
    refl,
    refl,
    refl,
    record {
      output = refl;
      fsm = refl;
      last_cond = refl;
      available = refl;
      io_state = refl;
      psl_err = refl;
    },
  )

  pub read_size_bounds :
      (k r : ℕ)
      → (1 ≤ read_size o k (suc r))
        × (read_size o k (suc r) ≤ suc r)
        × (k ≡ 0 → read_size o k (suc r) ≡ 1)
  read_size_bounds zero r = (omega arith, omega arith, λ _. refl)
  read_size_bounds (suc k) r = (omega arith, omega arith, λ z. absurd (omega (arith, z)))

  -- a failed read ends the loop, with an error that fits what was buffered
  ready_error :
      (n : ℕ) (x : Failure) (s s' : S) (e : PslError)
      → 1 ≤ n
      → o.ssl_read n s ≡ (read_failed x, s')
      → channel_error o.codes x ≡ some e
      → ((o.buffered s == 0) || not (is_deferred e)) ≡ true
  ready_error n x s s' e hn h he = elim (Bool-cases (o.buffered s == 0)) [
    | inl none_there ↦ rw none_there refl
    | inr some_there ↦
        let (not_read, not_write) = st.read_ready n s s' x (ground arith) hn h in
        rw (channel_error-is_deferred o.codes x e not_read not_write he) (ground arith)
  ]

  pub failed :
      (allowed : Bool) (r : ℕ) (x : Failure) (l : Reading S) (s : S)
      → o.ssl_read (read_size o (o.buffered l.io.ssl) (suc r)) l.io.ssl ≡ (read_failed x, s)
      → (l' : Reading S) × (read_error o allowed
            (o.buffered l.io.ssl)
            x
            (attempted o (o.buffered l.io.ssl) (with_ssl o s l))
          ≡ some l')
        × ReadTo allowed (suc r) l l'
  failed allowed r x l s h =
      let (sized, _, _) = read_size_bounds (o.buffered l.io.ssl) r in
      let (reported, given, taken) = st.read_stays _ l.io.ssl s x sized h in
      let (e, he, is_err) = channel_error_lem o.codes x reported in
      (
        ended_by e,
        rw (he, is_err, ready_error _ x l.io.ssl s e sized h he) refl,
        record {
          new = [];
          bytes = sym (append-nil l.bytes);
          given = given ∙ sym (append-nil _);
          taken = taken;
          output = refl;
          fsm = refl;
          last_cond = refl;
          available = unchanged _ e l.io.input;
          ended = inr (
            is_err,
            omega arith,
            λ d z. unbuffered _ (ready_error _ x l.io.ssl s e sized h he) d,
            input_failed-Moved _ e l.io.input,
          );
        },
      )
    where
      l0 : Reading S
      l0 = attempted o (o.buffered l.io.ssl) (with_ssl o s l)

      ended_by : PslError → Reading S
      ended_by e = record l0 {
        io = record (l0.io) {
          input = input_failed (allowed && (length l0.bytes == 0)) e l0.io.input;
        };
        psl_err = e;
      }

      unbuffered : {d : Bool} (k : ℕ) → ((k == 0) || not d) ≡ true → d ≡ true → k ≡ 0
      unbuffered k h d = ground arith

      unchanged :
          (d : Bool) (e : PslError) (i : CryptoInput)
          → (input_failed d e i).byte_available ≡ i.byte_available
      unchanged d e i = ground arith

  -- A read goes on where another piece was read.
  pub go_on :
      (allowed : Bool) (r : ℕ) (bs : List ℕ) (l m l' : Reading S)
      → 1 ≤ length bs
      → length bs ≤ suc r
      → m.bytes ≡ l.bytes ++ bs
      → st.given m.io.ssl ≡ st.given l.io.ssl ++ bs
      → st.taken m.io.ssl ≡ st.taken l.io.ssl
      → Untouched l.io m.io
      → ReadTo allowed (suc r - length bs) m l'
      → ReadTo allowed (suc r) l l'
  go_on allowed r bs l m l' some_read size bytes given taken u t = record {
    new = bs ++ t.new;
    bytes = t.bytes ∙ ap (λ xs. xs ++ t.new) bytes ∙ append_assoc l.bytes bs t.new;
    given = t.given ∙ ap (λ xs. xs ++ t.new) given ∙ append_assoc (st.given l.io.ssl) bs t.new;
    taken = t.taken ∙ taken;
    output = t.output ∙ u.output;
    fsm = t.fsm ∙ u.fsm;
    last_cond = t.last_cond ∙ u.last_cond;
    available = t.available ∙ u.available;
    ended = elim t.ended [
      | inl (ok, n, s, e) ↦
          inl (ok, omega (arith, n, length-append bs t.new), s ∙ u.io_state, e ∙ u.psl_err)
      | inr (bad, n, b, moved) ↦ inr (
        bad,
        omega (arith, n, length-append bs t.new),
        λ d z. absurd (omega (arith, z, some_read, length-append bs t.new)),
        elim moved [
          | inl sticky ↦ inl sticky
          | inr (d, e, how) ↦ inr (
            d,
            e ∙ u.psl_err,
            elim how [ inl deferred ↦ inl deferred | inr (kept, s) ↦ inr (kept, s ∙ u.io_state) ],
          )
        ],
      )
    ];
  }

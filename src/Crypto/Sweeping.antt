-- ===== src/Crypto/Sweeping.antt =====
-- The read of one byte for a deferred read, in crypto_process_deferred_ssl_io of
-- src/psl_channel_fsm_crypto.c.
use mathlib.Core.List.{append-nil}
use libpalmsocket.Base.{
  true-false, ℕ, ◌≡◌, ◌≢◌, refl, sym, ap, ◌∙◌, ◌⊎◌, inl, inr, Bool, true, false, ◌&&◌, some, List,
  [], ◌∷◌, ◌++◌, ◌==◌, arith, length, length-eq_zero, Bool-cases,
}
use libpalmsocket.Errors.{PslError, is_error}
use libpalmsocket.Crypto.Types.{
  Openssl, SslIoState, io_idle, is_deferred, io_pending, is_io_error, CryptoInput, Io,
}
use libpalmsocket.Crypto.Session.{Streams}
use libpalmsocket.Crypto.Read.{Reading, read_low}
use libpalmsocket.Crypto.Reading.{read_low_lem, ReadLow}
use libpalmsocket.Crypto.Pieces.{Moved}
use libpalmsocket.Crypto.Deferred.{after_reading}
use libpalmsocket.Crypto.Transfer.{held}
use libpalmsocket.Crypto.Sound.{InputSound, IsSound, Between}
use libpalmsocket.Crypto.Flushing.{pending-is_io_error}

pub not_idle : (x : SslIoState) → io_pending x ≡ true → x ≢ io_idle
not_idle x p e = ground arith

single : (xs : List ℕ) → length xs ≡ 1 → (x : ℕ) × (xs ≡ x ∷ [])
single [] h = absurd (omega (arith, h))
single (x ∷ []) h = (x, refl)
single (x ∷ y ∷ xs) h = absurd (omega (arith, h))

-- A deferred input holds no byte.
pub nothing_held :
    (i : CryptoInput) → InputSound i → io_pending i.io_state ≡ true → i.byte_available ≡ false
nothing_held i s p = elim (Bool-cases i.byte_available) [
  | inl there ↦ absurd (not_idle i.io_state p (s.byte_idle there))
  | inr gone ↦ gone
]

pub nothing_held_list : (i : CryptoInput) → i.byte_available ≡ false → held i ≡ []
nothing_held_list i h = rw h refl

module _ {S : Type 0} (o : Openssl S) (st : Streams o) (received accepted : List ℕ) where
  -- what a read of the one byte gave
  pub record ByteRead (allowed : Bool) (c d : Io S) (e : PslError) : Type 0 where
    pub sound : IsSound d
    pub between : Between o st received accepted d
    pub output : d.output ≡ c.output
    pub how :
        ((is_error e ≡ false) × (io_pending d.input.io_state ≡ false))
        ⊎ ((is_error e ≡ true) × (is_io_error d.input.io_state ≡ true))
        ⊎ ((is_error e ≡ true)
            × (o.buffered c.ssl ≡ 0)
            × (allowed ≡ true → io_pending d.input.io_state ≡ true))

  abbrev ByteEnds : Bool → Io S → Reading S → Type 0
  ByteEnds allowed c r = (d : Io S) × (after_reading r ≡ some d) × ByteRead allowed c d r.psl_err

  got :
      (allowed : Bool) (c : Io S) (r : Reading S) (x : ℕ)
      → IsSound c
      → Between o st received accepted c
      → io_pending c.input.io_state ≡ true
      → ReadLow o st allowed 1 c r
      → r.bytes ≡ x ∷ []
      → is_error r.psl_err ≡ false
      → r.io.input.psl_err ≡ c.input.psl_err
      → ByteEnds allowed c r
  got allowed c r x s b p t hb fine he =
      let empty : held c.input ≡ [] = nothing_held_list c.input (nothing_held c.input s.input p) in
      (
        stored_in x r,
        rw (fine, hb) refl,
        record {
          sound = record {
            input = record {
              sticky = sym (ap is_error he ∙ sym s.input.sticky ∙ pending-is_io_error _ p);
              byte_idle = λ _. refl;
            };
            output = rw t.output s.output;
            watch = (s.watch.0, t.watch ∙ s.watch.1);
          };
          between = record {
            reading =
                t.given
                ∙ ap (λ xs. xs ++ r.bytes)
                    (b.reading ∙ ap (λ xs. received ++ xs) empty ∙ append-nil received)
                ∙ ap (λ xs. received ++ xs) hb;
            writing = rw (t.taken, t.output) b.writing;
          };
          output = t.output;
          how = inl (fine, refl);
        },
      )
    where
      stored_in : ℕ → Reading S → Io S
      stored_in x r = record (r.io) {
        input = record (r.io.input) { one_byte_buf = x; byte_available = true; io_state = io_idle };
      }

  missed :
      (allowed : Bool) (c : Io S) (r : Reading S)
      → IsSound c
      → Between o st received accepted c
      → io_pending c.input.io_state ≡ true
      → ReadLow o st allowed 1 c r
      → r.bytes ≡ []
      → is_error r.psl_err ≡ true
      → (is_deferred r.psl_err ≡ true → length r.bytes ≡ 0 → o.buffered c.ssl ≡ 0)
      → Moved (allowed && (length r.bytes == 0)) r.psl_err c.input r.io.input
      → ByteEnds allowed c r
  missed allowed c r s b p t hb bad buffered moved =
      let gone : r.io.input.byte_available ≡ false = t.available ∙ nothing_held c.input s.input p in
      (
        r.io,
        rw bad refl,
        record {
          sound = record {
            input = record {
              sticky = elim moved [
                | inl (_, hs, he) ↦ ap is_io_error hs ∙ sym (ap is_error he ∙ bad)
                | inr (_, he, how) ↦ elim how [
                  | inl (_, hs) ↦
                      pending-is_io_error _ hs
                      ∙ sym (ap is_error he ∙ sym s.input.sticky ∙ pending-is_io_error _ p)
                  | inr (_, hs) ↦ ap is_io_error hs ∙ s.input.sticky ∙ sym (ap is_error he)
                ]
              ];
              byte_idle = λ q. absurd (true-false (sym q ∙ gone));
            };
            output = rw t.output s.output;
            watch = (s.watch.0, t.watch ∙ s.watch.1);
          };
          between = record {
            reading =
                t.given
                ∙ ap (λ xs. st.given c.ssl ++ xs) hb
                ∙ append-nil _
                ∙ b.reading
                ∙ ap (λ xs. received ++ xs)
                    (nothing_held_list c.input (nothing_held c.input s.input p)
                      ∙ sym (nothing_held_list r.io.input gone));
            writing = rw (t.taken, t.output) b.writing;
          };
          output = t.output;
          how = elim moved [
            | inl (_, hs, he) ↦ inr (inl (bad, ap is_io_error hs))
            | inr (d, he, how) ↦ inr (
                inr (
                  bad,
                  buffered d (ap length hb),
                  λ q. elim how [
                    | inl (_, hs) ↦ hs
                    | inr (not_allowed, _) ↦
                        absurd (true-false (sym (rw (hb, q) refl) ∙ not_allowed))
                  ],
                ))
          ];
        },
      )

  -- The read of one byte never fails an assertion.
  pub one_byte :
      (allowed : Bool) (c : Io S)
      → IsSound c
      → Between o st received accepted c
      → io_pending c.input.io_state ≡ true
      → (r : Reading S) × (d : Io S) × (read_low o 1 allowed c ≡ some r)
        × (after_reading r ≡ some d)
        × ByteRead allowed c d r.psl_err
  one_byte allowed c s b p =
      let (r, hr, t) = read_low_lem o st 1 allowed c (pending-is_io_error _ p) in
      let (d, hd, byte) = elim t.ended as (λ _. ByteEnds allowed c r) [
        | inl (ok, n, hs, he) ↦
            let (x, hx) = single r.bytes n in got allowed c r x s b p t hx (ap is_error ok) he
        | inr (bad, n, buffered, moved) ↦
            missed allowed c r s b p t (length-eq_zero r.bytes (omega (arith, n))) bad buffered
              moved
      ] in
      (r, d, hr, hd, byte)

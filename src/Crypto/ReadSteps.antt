-- ===== src/Crypto/ReadSteps.antt =====
-- The read step of the loop of crypto_process_deferred_ssl_io in src/psl_channel_fsm_crypto.c.
use libpalmsocket.Base.{
  true-false, ℕ, ◌<◌, ◌≡◌, refl, sym, ap, ◌∙◌, ◌⊎◌, inl, inr, Bool, true, false, not, ◌||◌, Option,
  some, List, ltb, arith, if◌then◌else◌, psl_assert-true, Bool-cases, ltb→lt,
}
use libpalmsocket.Errors.{is_error}
use libpalmsocket.FdWatch.Conditions.{Condition}
use libpalmsocket.Crypto.Types.{Openssl, io_want_read, io_pending, is_io_error, is_io_want_read, Io}
use libpalmsocket.Crypto.Session.{Streams}
use libpalmsocket.Crypto.Deferred.{
  Sweep, Freshness, may_read, set_input_state, read_buffered, read_more, read_step,
}
use libpalmsocket.Crypto.Flushing.{pending-is_io_error}
use libpalmsocket.Crypto.Sweeping.{one_byte, nothing_held}
use libpalmsocket.Crypto.Steps.{IsGood}

or_true : (b : Bool) → (b || true) ≡ true
or_true b = ground arith

not_or : (a b : Bool) → (a || not b) ≡ false → b ≡ true
not_or a b h = ground arith

module _ {S : Type 0} (o : Openssl S) (st : Streams o) (received accepted : List ℕ) where
  abbrev ReadStep : Sweep S → Option (Sweep S) → Type 0
  ReadStep l q =
      (m : Sweep S) × (q ≡ some m)
      × IsGood o st received accepted m
      × (m.fresh_in ≡ true)
      × ((m.fresh_out ≡ true) ⊎ (io_pending m.io.input.io_state ≡ false))

  read_buffered_lem :
      (l : Sweep S)
      → IsGood o st received accepted l
      → l.fresh_out ≡ true
      → io_pending l.io.input.io_state ≡ true
      → 0 < o.buffered l.io.ssl
      → ReadStep l (read_buffered o l)
  read_buffered_lem l g fresh p there =
      let (r, d, hr, hd, t) = one_byte o st received accepted false l.io g.sound g.between p in
      let settles : (if is_error r.psl_err then is_io_error d.input.io_state else true) ≡ true =
        elim t.how [
          | inl (fine, _) ↦ rw fine refl
          | inr how ↦ elim how [
            | inl (bad, sticky) ↦ rw bad sticky
            | inr (_, empty, _) ↦ absurd (omega (arith, empty, there))
          ]
        ] in
      (
        record l { io = d; fresh_in = true; hint = Freshness.after_read },
        psl_assert-true (ap not (nothing_held _ g.sound.input p)) ∙ rw (hr, hd, settles) refl,
        record {
          sound = t.sound;
          between = t.between;
          stale_in = λ q. absurd (true-false q);
          stale_out = λ q. absurd (true-false (sym fresh ∙ q));
        },
        refl,
        inl fresh,
      )

  read_more_lem :
      (l : Sweep S)
      → IsGood o st received accepted l
      → io_pending l.io.input.io_state ≡ true
      → ReadStep l (read_more o l)
  read_more_lem l g p =
      let (r, d, hr, hd, t) = one_byte o st received accepted true l.io g.sound g.between p in
      let settles : (if is_error r.psl_err
            then io_pending d.input.io_state || is_io_error d.input.io_state
            else true)
          ≡ true =
        elim t.how [
          | inl (fine, _) ↦ rw fine refl
          | inr how ↦ elim how [
            | inl (bad, sticky) ↦ rw (bad, sticky) (or_true (io_pending d.input.io_state))
            | inr (bad, _, still) ↦ rw (bad, still refl) refl
          ]
        ] in
      (
        looked_again d,
        rw (hr, hd, settles) refl,
        record {
          sound = t.sound;
          between = t.between;
          stale_in = λ q. absurd (true-false q);
          stale_out = λ q.
              rw t.output
                (not_or (io_pending d.input.io_state) (io_pending l.io.output.io_state) q);
        },
        refl,
        elim (Bool-cases (io_pending d.input.io_state)) [
          | inl still ↦ inl (rw still refl)
          | inr gone ↦ inr gone
        ],
      )
    where
      looked_again : Io S → Sweep S
      looked_again d = record {
        io = d;
        fresh_in = true;
        fresh_out = io_pending d.input.io_state || not (io_pending l.io.output.io_state);
        hint = Freshness.after_read;
      }

  -- The read step makes the input fresh. It leaves the output to be looked at again only where input
  -- is no longer deferred.
  pub read_step_lem :
      (revents : Condition) (l : Sweep S)
      → IsGood o st received accepted l
      → l.fresh_out ≡ true
      → l.fresh_in ≡ false
      → ReadStep l (read_step o revents l)
  unfolding read_step
  read_step_lem revents l g fresh h =
      let p = g.stale_in h in
      elim (Bool-cases (ltb 0 (o.buffered l.io.ssl))) [
        | inl there ↦
            let step : read_step o revents l ≡ read_buffered o l = rw (fresh, p, there) refl in
            rw step (read_buffered_lem l g fresh p (ltb→lt 0 (o.buffered l.io.ssl) there))
        | inr empty ↦ elim (Bool-cases (is_io_want_read l.io.output.io_state)) [
          | inl same ↦ (
            settled,
            rw (fresh, p, empty, same) refl,
            record {
              sound = record {
                input = record {
                  sticky = sym (pending-is_io_error _ p) ∙ g.sound.input.sticky;
                  byte_idle = λ q. absurd (true-false (sym q ∙ nothing_held _ g.sound.input p));
                };
                output = g.sound.output;
                watch = g.sound.watch;
              };
              between = record { reading = g.between.reading; writing = g.between.writing };
              stale_in = λ q. absurd (true-false q);
              stale_out = g.stale_out;
            },
            refl,
            inl fresh,
          )
          | inr other ↦ elim (Bool-cases (may_read l.hint revents)) [
            | inl readable ↦
                let step : read_step o revents l ≡ read_more o l =
                  rw (fresh, p, empty, other, readable) refl in
                rw step (read_more_lem l g p)
            | inr unreadable ↦ (
              record l { fresh_in = true },
              rw (fresh, p, empty, other, unreadable) refl,
              record {
                sound = g.sound;
                between = g.between;
                stale_in = λ q. absurd (true-false q);
                stale_out = g.stale_out;
              },
              refl,
              inl fresh,
            )
          ]
        ]
      ]
    where
      settled : Sweep S
      settled = record l { io = set_input_state io_want_read l.io; fresh_in = true }

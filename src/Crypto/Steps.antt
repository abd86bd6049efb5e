-- ===== src/Crypto/Steps.antt =====
-- The write step of the loop of crypto_process_deferred_ssl_io in src/psl_channel_fsm_crypto.c, and
-- the invariant of the loop.
use libpalmsocket.Base.{
  true-false, not-false, ℕ, ◌≡◌, refl, sym, ap, ◌∙◌, ◌⊎◌, inl, inr, true, false, not, ◌&&◌, some,
  List, ◌++◌, Bool-cases,
}
use libpalmsocket.FdWatch.Conditions.{Condition}
use libpalmsocket.Crypto.Types.{Openssl, io_want_write, io_pending, is_io_error, Io}
use libpalmsocket.Crypto.Session.{Streams}
use libpalmsocket.Crypto.Deferred.{
  Sweep, Freshness, is_after_read, may_write, set_output_state, write_step,
}
use libpalmsocket.Crypto.Transfer.{held}
use libpalmsocket.Crypto.Sound.{IsSound, Between}
use libpalmsocket.Crypto.Flushing.{flush_output_lem, pending-is_io_error}
use libpalmsocket.Crypto.Sweeping.{not_idle}

module _ {S : Type 0} (o : Openssl S) (st : Streams o) (received accepted : List ℕ) where
  -- The loop's invariant: a direction that is not fresh is deferred.
  pub record IsGood (l : Sweep S) : Type 0 where
    pub sound : IsSound l.io
    pub between : Between o st received accepted l.io
    pub stale_in : l.fresh_in ≡ false → io_pending l.io.input.io_state ≡ true
    pub stale_out : l.fresh_out ≡ false → io_pending l.io.output.io_state ≡ true

  -- The write step makes the output fresh, and leaves a fresh input so unless it is deferred.
  pub write_step_lem :
      (revents : Condition) (l : Sweep S)
      → IsGood l
      → l.fresh_out ≡ false
      → (m : Sweep S) × (write_step o revents l ≡ some m)
        × IsGood m
        × (m.fresh_out ≡ true)
        × (m.io.input ≡ l.io.input)
        × ((m.fresh_in ≡ l.fresh_in) ⊎ (m.fresh_in ≡ not (io_pending l.io.input.io_state)))
  unfolding write_step
  write_step_lem revents l g h =
      let p = g.stale_out h in
      elim (Bool-cases (is_after_read l.hint && not (is_io_error l.io.input.io_state))) [
        | inl optimistic ↦ (
          waiting,
          rw (p, optimistic) refl,
          record {
            sound = record {
              input = g.sound.input;
              output = record {
                sticky = sym (pending-is_io_error _ p) ∙ g.sound.output.sticky;
                buf_valid = g.sound.output.buf_valid;
                buf_room = g.sound.output.buf_room;
                pending_held = λ _. g.sound.output.pending_held p;
                idle_empty = λ q. absurd (not_idle io_want_write refl q);
              };
              watch = g.sound.watch;
            };
            between = record { reading = g.between.reading; writing = g.between.writing };
            stale_in = g.stale_in;
            stale_out = λ q. absurd (true-false q);
          },
          refl,
          refl,
          inl refl,
        )
        | inr exact ↦ elim (Bool-cases (may_write l.hint revents)) [
          | inl yes_write ↦
              let (c, hc, t) = flush_output_lem o st l.io g.sound.output p in
              (
                flushed c,
                rw (p, exact, yes_write, hc) refl,
                record {
                  sound = record {
                    input = rw t.input g.sound.input;
                    output = t.output;
                    watch = (g.sound.watch.0, t.watch ∙ g.sound.watch.1);
                  };
                  between = record {
                    reading =
                        t.given ∙ g.between.reading ∙ ap (λ i. received ++ held i) (sym t.input);
                    writing = t.stream ∙ g.between.writing;
                  };
                  stale_in = λ q. rw t.input (not-false (io_pending l.io.input.io_state) q);
                  stale_out = λ q. absurd (true-false q);
                },
                refl,
                t.input,
                inr refl,
              )
          | inr no_write ↦ (
            record l { fresh_out = true },
            rw (p, exact, no_write) refl,
            record {
              sound = g.sound;
              between = g.between;
              stale_in = g.stale_in;
              stale_out = λ q. absurd (true-false q);
            },
            refl,
            refl,
            inl refl,
          )
        ]
      ]
    where
      waiting : Sweep S
      waiting = record l { io = set_output_state io_want_write l.io; fresh_out = true }

      flushed : Io S → Sweep S
      flushed c = record {
        io = c;
        fresh_in = not (io_pending l.io.input.io_state);
        fresh_out = true;
        hint = Freshness.after_write;
      }

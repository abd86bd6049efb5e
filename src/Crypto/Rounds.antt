-- ===== src/Crypto/Rounds.antt =====
-- crypto_process_deferred_ssl_io of src/psl_channel_fsm_crypto.c: two rounds of its loop are enough,
-- and what deferred input and output leave of the two streams of plaintext.
use libpalmsocket.Base.{
  true-false, ℕ, zero, suc, ◌≡◌, refl, sym, ap, ◌∙◌, ◌⊎◌, inl, inr, Bool, true, false, not, ◌&&◌,
  ◌||◌, Option, some, List, arith, if◌then◌else◌, ◌>>=◌, Bool-cases, if-true, if-false, ◌≢◌,
}
use libpalmsocket.FdWatch.{Watch, add_or_update_fd}
use libpalmsocket.FdWatch.Conditions.{Condition}
use libpalmsocket.Crypto.Types.{
  Openssl, io_idle, io_error, io_pending, is_io_error, CryptoInput, CryptoOutput, Io,
}
use libpalmsocket.Crypto.Session.{Streams}
use libpalmsocket.Crypto.Watching.{
  eq_cond, either_cond, giocondition_from_iostate, update_watch, schedule_deferred_ssl_io,
}
use libpalmsocket.Crypto.Deferred.{
  Sweep, Freshness, is_after_read, is_after_write, write_step, read_step, sweep_round, sweep_loop,
  start_sweep, abort_input, abort_output, abort_if, is_fatal, process_deferred_ssl_io,
}
use libpalmsocket.Crypto.Sound.{InputSound, OutputSound, IsSound, Between}
use libpalmsocket.Crypto.Sweeping.{not_idle}
use libpalmsocket.Crypto.Steps.{IsGood, write_step_lem}
use libpalmsocket.Crypto.ReadSteps.{read_step_lem}

not_or_false : (a b : Bool) → (a || not b) ≡ false → b ≡ true
not_or_false a b h = ground arith

abort_input-InputSound : (i : CryptoInput) → InputSound i → InputSound (abort_input i)
abort_input-InputSound i s = elim (Bool-cases (io_pending i.io_state)) [
  | inl p ↦ record {
    sticky = rw p refl;
    byte_idle = λ q. absurd (not_idle i.io_state p (s.byte_idle q));
  }
  | inr n ↦ record { sticky = rw n s.sticky; byte_idle = λ q. rw n (s.byte_idle q) }
]

idle_error : io_idle ≢ io_error
idle_error h = ground arith

abort_output-OutputSound : (out : CryptoOutput) → OutputSound out → OutputSound (abort_output out)
abort_output-OutputSound out s = record {
  sticky = elim (Bool-cases (is_io_error out.io_state)) [
    | inl yes_error ↦ rw yes_error (sym yes_error ∙ s.sticky)
    | inr fine ↦ rw fine refl
  ];
  buf_valid = s.buf_valid;
  buf_room = s.buf_room;
  pending_held = λ q. absurd (true-false (sym q));
  idle_empty = λ q. absurd (idle_error (sym q));
}

-- What the two directions wait for, and the watch set to it.
abbrev wanted : {S : Type 0} → Io S → Condition
wanted c =
    either_cond (giocondition_from_iostate c.input.io_state)
      (giocondition_from_iostate c.output.io_state)

abbrev watching : {S : Type 0} → Io S → Watch → Option (Io S)
watching c w = some (record c {
  fsm = record (c.fsm) { watch = some (add_or_update_fd w c.fsm.fd (wanted c)) };
  last_cond = wanted c;
})

module _ {S : Type 0} (o : Openssl S) (st : Streams o) (received accepted : List ℕ) where
  abbrev Good : Sweep S → Type 0
  Good l = IsGood o st received accepted l

  -- A round leaves a fresh input, and a fresh output too unless input is no longer deferred.
  abbrev Round : Option (Sweep S) → Type 0
  Round q =
      (m : Sweep S) × (q ≡ some m)
      × Good m
      × (m.fresh_in ≡ true)
      × ((m.fresh_out ≡ true) ⊎ (io_pending m.io.input.io_state ≡ false))

  finish :
      (revents : Condition) (l : Sweep S)
      → Good l
      → l.fresh_out ≡ true
      → Round (if l.fresh_in then some l else read_step o revents l)
  finish revents l g out = elim (Bool-cases l.fresh_in) [
    | inl fresh ↦ (l, if-true _ fresh, g, fresh, inl out)
    | inr stale ↦
        let (m, hm, gm, hin, how) = read_step_lem o st received accepted revents l g out stale in
        (m, if-false _ stale ∙ hm, gm, hin, how)
  ]

  round_lem : (revents : Condition) (l : Sweep S) → Good l → Round (sweep_round o revents l)
  unfolding sweep_round
  round_lem revents l g = elim (Bool-cases l.fresh_out) [
    | inl out ↦
        let (m, hm, gm, hin, how) = finish revents l g out in
        (m, ap (λ q. q >>= next) (if-true (write_step o revents l) out) ∙ hm, gm, hin, how)
    | inr stale ↦
        let (k, hk, gk, out, _, _) = write_step_lem o st received accepted revents l g stale in
        let (m, hm, gm, hin, how) = finish revents k gk out in
        (m, ap (λ q. q >>= next) (if-false (some l) stale ∙ hk) ∙ hm, gm, hin, how)
  ]
    where
      next : Sweep S → Option (Sweep S)
      next m = if m.fresh_in then some m else read_step o revents m

  -- A round that only writes makes both directions fresh.
  last_round :
      (revents : Condition) (l : Sweep S)
      → Good l
      → l.fresh_in ≡ true
      → l.fresh_out ≡ false
      → io_pending l.io.input.io_state ≡ false
      → (m : Sweep S) × (sweep_round o revents l ≡ some m)
        × Good m
        × (m.fresh_in ≡ true)
        × (m.fresh_out ≡ true)
  unfolding sweep_round
  last_round revents l g hin stale p =
      let (m, hm, gm, out, _, how) = write_step_lem o st received accepted revents l g stale in
      let fresh : m.fresh_in ≡ true = elim how [
        | inl same ↦ same ∙ hin
        | inr upd ↦ upd ∙ ap not p
      ] in
      (m, ap (λ q. q >>= next) (if-false (some l) stale ∙ hm) ∙ if-true _ fresh, gm, fresh, out)
    where
      next : Sweep S → Option (Sweep S)
      next m = if m.fresh_in then some m else read_step o revents m

  abbrev Swept : Option (Sweep S) → Type 0
  Swept q = (m : Sweep S) × (q ≡ some m) × Good m

  done_lem :
      (n : ℕ) (revents : Condition) (l : Sweep S)
      → l.fresh_in ≡ true
      → l.fresh_out ≡ true
      → sweep_loop o n revents l ≡ some l
  unfolding sweep_loop
  done_lem zero revents l hin out = rw (hin, out) refl
  done_lem (suc n) revents l hin out =
      if-true {b = l.fresh_in && l.fresh_out} _ (rw (hin, out) refl)

  -- Two rounds are enough.
  sweep_loop_lem : (revents : Condition) (l : Sweep S) → Good l → Swept (sweep_loop o 2 revents l)
  unfolding sweep_loop
  sweep_loop_lem revents l g = elim (Bool-cases (l.fresh_in && l.fresh_out)) [
    | inl fresh ↦ (l, if-true _ fresh, g)
    | inr stale ↦
        let (m, hm, gm, hin, how) = round_lem revents l g in
        let (k, hk, gk) = second m gm hin how in
        (k, if-false _ stale ∙ ap (λ q. q >>= sweep_loop o 1 revents) hm ∙ hk, gk)
  ]
    where
      second :
          (m : Sweep S)
          → Good m
          → m.fresh_in ≡ true
          → (m.fresh_out ≡ true) ⊎ (io_pending m.io.input.io_state ≡ false)
          → Swept (sweep_loop o 1 revents m)
      second m gm hin how = elim (Bool-cases m.fresh_out) [
        | inl out ↦ (m, done_lem 1 revents m hin out, gm)
        | inr out ↦
            let p : io_pending m.io.input.io_state ≡ false = elim how [
              | inl q ↦ absurd (true-false (sym q ∙ out))
              | inr p ↦ p
            ] in
            let (k, hk, gk, kin, kout) = last_round revents m gm hin out p in
            (
              k,
              if-false {b = m.fresh_in && m.fresh_out} _ (rw (hin, out) refl)
                  ∙ ap (λ q. q >>= sweep_loop o 0 revents) hk
                  ∙ done_lem 0 revents k kin kout,
              gk,
            )
      ]

  start-IsGood :
      (hint : Freshness) (c : Io S)
      → IsSound c
      → Between o st received accepted c
      → Good (start_sweep hint c)
  start-IsGood hint c s b = record {
    sound = s;
    between = b;
    stale_in = not_or_false (is_after_read hint) (io_pending c.input.io_state);
    stale_out = not_or_false (is_after_write hint) (io_pending c.output.io_state);
  }

  abbrev Settled : Option (Io S) → Type 0
  Settled q = (d : Io S) × (q ≡ some d) × IsSound d × Between o st received accepted d

  abort_lem :
      (fatal : Bool) (c : Io S)
      → IsSound c
      → Between o st received accepted c
      → IsSound (abort_if fatal c) × Between o st received accepted (abort_if fatal c)
  abort_lem true c s b = (
    record {
      input = abort_input-InputSound c.input s.input;
      output = abort_output-OutputSound c.output s.output;
      watch = s.watch;
    },
    record { reading = b.reading; writing = b.writing },
  )
  abort_lem false c s b = (s, b)

  schedule_lem :
      (c : Io S)
      → IsSound c
      → Between o st received accepted c
      → Settled (schedule_deferred_ssl_io c)
  unfolding schedule_deferred_ssl_io update_watch
  schedule_lem c s b = elim (Bool-cases (eq_cond (wanted c) c.last_cond)) [
    | inl same ↦ (c, if-true _ same, s, b)
    | inr changed ↦ (
      _,
      if-false _ changed ∙ ap (λ m. m >>= watching c) s.watch.1,
      record {
        input = s.input;
        output = s.output;
        watch = (add_or_update_fd s.watch.0 c.fsm.fd (wanted c), refl);
      },
      record { reading = b.reading; writing = b.writing },
    )
  ]

  -- On a session that keeps to OpenSSL's manual, from a sound state: the deferred input and output are
  -- processed in two rounds at most without a failed assertion, the state stays sound, and the user
  -- has still received the same bytes and the same bytes are accepted from the user, each of which is
  -- with OpenSSL, in the one-byte buffer or in the output buffer.
  pub process_deferred_ssl_io-IsSound :
      (hint : Freshness) (revents : Condition) (c : Io S)
      → IsSound c
      → Between o st received accepted c
      → (d : Io S) × (process_deferred_ssl_io o hint revents c ≡ some d)
        × IsSound d
        × Between o st received accepted d
  unfolding process_deferred_ssl_io
  process_deferred_ssl_io-IsSound hint revents c s b =
      let (m, hm, g) = sweep_loop_lem revents (start_sweep hint c) (start-IsGood hint c s b) in
      let (s', b') = abort_lem (is_fatal revents) m.io g.sound g.between in
      let (d, hd, sd, bd) = schedule_lem (abort_if (is_fatal revents) m.io) s' b' in
      (
        d,
        ap (λ q. q >>= λ l. schedule_deferred_ssl_io (abort_if (is_fatal revents) l.io)) hm ∙ hd,
        sd,
        bd,
      )

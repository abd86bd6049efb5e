-- ===== src/FdWatch/Timer.antt =====
-- The timeout of src/psl_multi_fd_watch.c, in nanoseconds.
use libpalmsocket.Base.{
  ℕ, ◌+◌, ◌-◌, ◌*◌, ◌/◌, ◌^◌, ◌≤◌, ◌≡◌, inl, inr, refl, ◌∙◌, ap, true, false, some, pos, is_nonneg,
  leb, ltb, arith, Bool-cases, eq_ℤ, ◌>>=◌,
}
use libpalmsocket.Time.{
  Timespec, nanosec_per_millisec, normalize, get_current_mono_time, compare_timespecs,
}
use libpalmsocket.Time.Laws.{
  nanosec, IsNormal, normalize-IsNormal, add_millisec_to_timespec-nanosec,
  subtract_timespec_abs-nanosec, convert_timespec_to_millisec-nanosec, compare_timespecs-nanosec,
}
use libpalmsocket.FdWatch.{Watch, prepare, remaining, prepare_loop, is_timer_expired}

-- The watch counts down a timeout of `t` milliseconds that was started before.
pub record IsRunning (w : Watch) (t : ℕ) : Type 0 where
  pub started : w.restart_timer ≡ false
  pub timeout : w.timeout_millisec ≡ some t
  pub normal : IsNormal w.expiry

-- The first `prepare` after a restart of a finite timeout sets the expiry to the full timeout from now,
-- asks the poll to wait that long, and is ready at once exactly if the timeout is 0; then the watch is
-- running.
pub prepare_restart :
    (w : Watch) (t : ℕ) (now : Timespec)
    → w.restart_timer ≡ true
    → w.timeout_millisec ≡ some t
    → (w' : Watch) × (prepare w (some now) ≡ some (w', pos t, eq_ℤ (pos t) (pos 0)))
      × IsRunning w' t
      × (nanosec w'.expiry ≡ nanosec now + t * nanosec_per_millisec)
unfolding prepare get_current_mono_time
prepare_restart w t now r e =
    let (same_normal, same) = normalize-IsNormal now in
    let (z, added, normal, ns) = add_millisec_to_timespec-nanosec (normalize now) t same_normal in
    (
      record w {
        desc_table = (prepare_loop w.desc_table w.polls).0;
        polls = (prepare_loop w.desc_table w.polls).1;
        restart_timer = false;
        expiry = z;
      },
      rw (e, r) (rw added refl),
      record { started = refl; timeout = e; normal = normal },
      ns ∙ ap (λ k. k + t * nanosec_per_millisec) same,
    )

nonneg_compare :
    (x y : Timespec)
    → IsNormal x
    → IsNormal y
    → (compare_timespecs x y >>= λ c. some (is_nonneg c)) ≡ some (leb (nanosec y) (nanosec x))
nonneg_compare x y hx hy = elim (compare_timespecs-nanosec x y hx hy) [
  | inl (e, lt) ↦ rw e (ground arith)
  | inr (inl (e, same)) ↦ rw e (ground arith)
  | inr (inr (e, gt)) ↦ rw e (ground arith)
]

-- what `remaining` makes of the distance to an expiry `y`, seen from `x`
remaining_lem :
    (x y z : Timespec)
    → IsNormal z
    → nanosec y ≤ nanosec x + (2 ^ 31 - 1) * nanosec_per_millisec
    → nanosec z ≡ (nanosec x - nanosec y) + (nanosec y - nanosec x)
    → remaining (z, ltb (nanosec x) (nanosec y))
      ≡ some (pos ((nanosec y - nanosec x + (nanosec_per_millisec - 1)) / nanosec_per_millisec))
remaining_lem x y z hz h e = elim (Bool-cases (ltb (nanosec x) (nanosec y))) [
  | inl future ↦ rw future (
      convert_timespec_to_millisec-nanosec z hz (ground arith)
      ∙ ap (λ k. some (pos ((k + (nanosec_per_millisec - 1)) / nanosec_per_millisec)))
          (ground arith))
  | inr past ↦ rw past (ground arith)
]

module _ {w : Watch} {t : ℕ} (run : IsRunning w t) (now : Timespec) where
  -- The timer of a running watch has expired exactly if the expiry is not in the future.
  pub is_timer_expired_lem :
      is_timer_expired w (some now) ≡ some (leb (nanosec w.expiry) (nanosec now))
  unfolding is_timer_expired get_current_mono_time
  is_timer_expired_lem =
      rw (run.started, run.timeout)
        (nonneg_compare (normalize now) w.expiry (normalize-IsNormal now).0 run.normal
          ∙ ap (λ k. some (leb (nanosec w.expiry) k)) (normalize-IsNormal now).1)

  -- Where the expiry of a running watch is at most 2^31 - 1 ms ahead: while it has not expired, `prepare`
  -- waits for what is left of the time, rounded up to milliseconds, and once it has, `prepare` waits for 0
  -- and is ready at once. Neither moves the expiry, and the watch runs on.
  pub prepare-IsRunning :
      nanosec w.expiry ≤ nanosec now + (2 ^ 31 - 1) * nanosec_per_millisec
      → (w' : Watch) × (prepare w (some now)
          ≡ some (
            w',
            pos (
                (nanosec w.expiry - nanosec now + (nanosec_per_millisec - 1))
                / nanosec_per_millisec),
            leb (nanosec w.expiry) (nanosec now),
          ))
        × IsRunning w' t
        × (w'.expiry ≡ w.expiry)
  unfolding prepare get_current_mono_time
  prepare-IsRunning h =
      let (now_normal, same) = normalize-IsNormal now in
      let (z, distance, z_normal, ns) =
        subtract_timespec_abs-nanosec (normalize now) w.expiry now_normal run.normal in
      let left = remaining_lem (normalize now) w.expiry z z_normal (rw same h) ns in
      (
        record w {
          desc_table = (prepare_loop w.desc_table w.polls).0;
          polls = (prepare_loop w.desc_table w.polls).1;
        },
        rw (run.timeout, run.started) (rw distance (rw left (rw same (ground arith)))),
        record { started = run.started; timeout = run.timeout; normal = run.normal },
        refl,
      )

-- ===== src/OpensslInit/Users.antt =====
-- What src/psl_openssl_init.c promises: OpenSSL is initialized exactly while it has users.
use mathlib.Core.Path.{subst}
use libpalmsocket.Base.{
  true-false, ℕ, zero, suc, ◌<◌, ◌^◌, ◌≡◌, refl, sym, ap, ◌∙◌, inl, inr, true, false, not, ◌&&◌,
  Option, none, some, List, [], ◌∷◌, arith, if◌then◌else◌, ◌>>=◌, ◌==◌, Bool-cases, ltb, ltb→lt,
  if-true, if-false, bind-some,
}
use libpalmsocket.Errors.{PslError, no_error, openssl, not_allowed}
use libpalmsocket.Refcount.{atomic_ref, atomic_unref, atomic_ref_lem, atomic_unref_lem}
use libpalmsocket.OpensslInit.{
  InitType, ThreadSafety, InitState, Library, is_multi, init_low, init_already_locked, openssl_init,
  init_conditional, openssl_uninit, thread_safety_cleanup, uninit_low,
}

pub some_of {ℓ} : {A : Type ℓ} {a b : A} → some a ≡ some b → a ≡ b
some_of h = cc h

-- The abstract view: how OpenSSL is initialized, and for how many users; or not at all.
pub data View : Type 0 where
  down : View
  up : InitType → ℕ → View

-- The locks of an old OpenSSL are there exactly while it is initialized for several threads.
abbrev LocksFit : Library → View → ThreadSafety → Type 0
LocksFit lib down t = (t.is_initialized ≡ false) × (t.num_locks ≡ 0)
LocksFit lib (up ty n) t =
    if◌then◌else◌ {A = Type 0} (lib.legacy_init && is_multi ty)
      ((t.is_initialized ≡ true) × (t.num_locks ≡ lib.num_locks))
      ((t.is_initialized ≡ false) × (t.num_locks ≡ 0))

-- A state that stands for a view; `up ty n` has `suc n` users.
abbrev pub Shows : Library → View → InitState → Type 0
Shows lib down s = (s.is_initialized ≡ false) × LocksFit lib down s.thread_safety
Shows lib (up ty n) s =
    (s.is_initialized ≡ true)
    × (s.init_type ≡ ty)
    × ((s.ref_count ≡ suc n) × (suc n < 2 ^ 32))
    × LocksFit lib (up ty n) s.thread_safety

pub data Op : Type 0 where
  inits inits_conditionally : InitType → Op
  uninits : Op

-- What an operation does to the view, and its error; `none` where there is no user to give up OpenSSL,
-- or too many for the count.
abbrev pub view_first : Library → InitType → View × PslError
view_first lib ty = if lib.init_succeeds then (up ty 0, no_error) else (down, openssl)

abbrev pub view_more : InitType → ℕ → Option (View × PslError)
view_more ty n = if ltb (suc (suc n)) (2 ^ 32) then some (up ty (suc n), no_error) else none

abbrev pub view_op : Library → Op → View → Option (View × PslError)
view_op lib (inits ty) down = some (view_first lib ty)
view_op lib (inits ty) (up ty' n) =
    if not (is_multi ty') && is_multi ty then some (up ty' n, not_allowed) else view_more ty' n
view_op lib (inits_conditionally ty) down = some (view_first lib ty)
view_op lib (inits_conditionally ty) (up ty' n) = view_more ty' n
view_op lib uninits down = none
view_op lib uninits (up ty zero) = some (down, no_error)
view_op lib uninits (up ty (suc n)) = some (up ty n, no_error)

-- The same operation of the module.
abbrev pub run_op : Library → Op → InitState → Option (InitState × PslError)
run_op lib (inits ty) s = openssl_init lib ty s
run_op lib (inits_conditionally ty) s = init_conditional lib ty s
run_op lib uninits s = openssl_uninit lib s >>= λ t. some (t, no_error)

-- A sequence of operations, with the error of each.
abbrev pub view_run : Library → List Op → View → Option (View × List PslError)
view_run lib [] v = some (v, [])
view_run lib (x ∷ xs) v =
    view_op lib x v >>= λ r. view_run lib xs r.0 >>= λ q. some (q.0, r.1 ∷ q.1)

unfoldable pub run_ops : Library → List Op → InitState → Option (InitState × List PslError)
unfolding openssl_init init_conditional openssl_uninit
run_ops lib [] s = some (s, [])
run_ops lib (x ∷ xs) s = run_op lib x s >>= λ r. run_ops lib xs r.0 >>= λ q. some (q.0, r.1 ∷ q.1)

module _ (lib : Library) where
  -- Every operation that the view allows runs without a failed assertion, gives the view's error and
  -- leaves a state that stands for the view after it.
  abbrev pub Refines : Option (View × PslError) → Option (InitState × PslError) → Type 0
  Refines none r = Unit
  Refines (some (v, e)) r = (s : InitState) × (r ≡ some (s, e)) × Shows lib v s

  first_lem :
      (ty : InitType) (s : InitState)
      → Shows lib down s
      → Refines (some (view_first lib ty)) (init_already_locked lib ty s)
  unfolding init_already_locked init_low
  first_lem ty s (fresh, (no_locks, none_counted)) = elim (Bool-cases lib.init_succeeds) [
    | inl works ↦ elim (Bool-cases (lib.legacy_init && is_multi ty)) [
      | inl locked ↦ rw works (
        counted (record { is_initialized = true; num_locks = lib.num_locks }),
        rw (fresh, locked, no_locks, none_counted) refl,
        (refl, refl, (refl, omega arith), rw locked (refl, refl)),
      )
      | inr plain ↦ rw works (
        counted s.thread_safety,
        rw (fresh, plain) refl,
        (refl, refl, (refl, omega arith), rw plain (no_locks, none_counted)),
      )
    ]
    | inr broken ↦ rw broken (s, rw fresh refl, (fresh, (no_locks, none_counted)))
  ]
    where
      counted : ThreadSafety → InitState
      counted t = record s {
        is_initialized = true;
        init_type = ty;
        ref_count = 1;
        thread_safety = t;
      }

  more_lem :
      (ty : InitType) (n : ℕ) (s : InitState)
      → Shows lib (up ty n) s
      → Refines (view_more ty n) (some (record s { ref_count = atomic_ref s.ref_count }, no_error))
  more_lem ty n s (on, type, (count, bound), locks) =
      elim (Bool-cases (ltb (suc (suc n)) (2 ^ 32))) [
        | inl room ↦ rw room (
          record s { ref_count = atomic_ref s.ref_count },
          refl,
          (
            on,
            type,
            (
              ap atomic_ref count ∙ atomic_ref_lem (suc n) (ltb→lt (suc (suc n)) (2 ^ 32) room),
              ltb→lt (suc (suc n)) (2 ^ 32) room,
            ),
            locks,
          ),
        )
        | inr full ↦ rw full tt
      ]

  -- cleaning up leaves no locks
  cleaned :
      (ty : InitType) (t : ThreadSafety)
      → LocksFit lib (up ty zero) t
      → LocksFit lib down (if lib.legacy_init then thread_safety_cleanup t else t)
  cleaned ty t fit = elim (Bool-cases lib.legacy_init) [
    | inl old ↦ rw old (
      refl,
      elim (Bool-cases t.is_initialized) [
        | inl on ↦ rw on refl
        | inr off ↦ rw off (elim (Bool-cases (is_multi ty)) [
          | inl multi ↦ absurd (true-false (sym (rw (old, multi) at fit).0 ∙ off))
          | inr single ↦ (rw (old, single) at fit).1
        ])
      ],
    )
    | inr new ↦ rw new (rw new at fit)
  ]

  last_lem :
      (ty : InitType) (n : ℕ) (s : InitState)
      → Shows lib (up ty n) s
      → Refines (view_op lib uninits (up ty n)) (run_op lib uninits s)
  unfolding openssl_uninit
  last_lem ty zero s (on, type, (count, room), locks) = (
    record (uninit_low lib (record s { ref_count = (atomic_unref s.ref_count).0 })) {
      is_initialized = false;
    },
    rw (on, count) refl,
    (refl, cleaned ty s.thread_safety locks),
  )
  last_lem ty (suc n) s (on, type, (count, room), locks) = (
    record s { ref_count = (atomic_unref s.ref_count).0 },
    rw (on, count, not_last n) refl,
    (
      on,
      type,
      (ap (λ k. (atomic_unref k).0) count ∙ atomic_unref_lem (suc n) room, omega (arith, room)),
      locks,
    ),
  )
    where
      not_last : (k : ℕ) → (suc (suc k) == 1) ≡ false
      not_last k = ground arith

  pub op_lem :
      (x : Op) (v : View) (s : InitState)
      → Shows lib v s
      → Refines (view_op lib x v) (run_op lib x s)
  unfolding openssl_init init_conditional openssl_uninit init_already_locked
  op_lem (inits ty) down s h = first_lem ty s h
  op_lem (inits ty) (up ty' n) s h = elim (Bool-cases (not (is_multi ty') && is_multi ty)) [
    | inl clash ↦ rw clash (s, rw (h.0, h.1, clash) refl, h)
    | inr fine ↦ rw fine (
        subst (λ r. Refines (view_more ty' n) r) (sym (rw (h.0, h.1, fine) refl))
          (more_lem ty' n s h))
  ]
  op_lem (inits_conditionally ty) down s h =
      subst (λ r. Refines (some (view_first lib ty)) r) (sym (if-false _ h.0)) (first_lem ty s h)
  op_lem (inits_conditionally ty) (up ty' n) s h =
      subst (λ r. Refines (view_more ty' n) r) (sym (if-true _ h.0)) (more_lem ty' n s h)
  op_lem uninits down s h = tt
  op_lem uninits (up ty n) s h = last_lem ty n s h

  -- From a state that stands for a view of OpenSSL as down or as up for a count of users: a sequence of
  -- PmSockOpensslInit, psl_openssl_init_conditional and PmSockOpensslUninit, in which no user gives
  -- up OpenSSL that is not one and the count does not overflow, runs without a failed assertion, gives
  -- the errors that the view gives, and ends in a state that stands for the view after it. So OpenSSL is
  -- initialized exactly while it has users, and the locks of an old OpenSSL exactly while it is
  -- initialized for several threads.
  pub run_ops-Shows :
      (ops : List Op) (v v' : View) (es : List PslError) (s : InitState)
      → Shows lib v s
      → view_run lib ops v ≡ some (v', es)
      → (s' : InitState) × (run_ops lib ops s ≡ some (s', es)) × Shows lib v' s'
  unfolding run_ops
  run_ops-Shows [] v v' es s h q = (
    s,
    ap some (ap (λ r. (s, r)) (ap (λ r. r.1) (some_of q))),
    subst (λ w. Shows lib w s) (ap (λ r. r.0) (some_of q)) h,
  )
  run_ops-Shows (x ∷ xs) v v' es s h q =
      let ((w, e), hx, rest) = bind-some (view_op lib x v) q in
      let ((w', es'), hxs, done) = bind-some (view_run lib xs w) rest in
      let (t, ht, sh) = subst (λ r. Refines r (run_op lib x s)) hx (op_lem x v s h) in
      let (u, hu, sh') = run_ops-Shows xs w w' es' t sh hxs in
      (
        u,
        ap (λ m. m >>= λ r. run_ops lib xs r.0 >>= λ p. some (p.0, r.1 ∷ p.1)) ht
            ∙ ap (λ m. m >>= λ p. some (p.0, e ∷ p.1)) hu
            ∙ ap (λ r. some (u, r)) (ap (λ r. r.1) (some_of done)),
        subst (λ y. Shows lib y u) (ap (λ r. r.0) (some_of done)) sh',
      )

-- ===== src/SslContext/Life.antt =====
-- The life of a context of src/psl_ssl_context.c: what it takes when it is made, and what it gives back.
use mathlib.Core.Path.{subst}
use libpalmsocket.Base.{
  ℕ, suc, ◌^◌, ◌≡◌, ◌≢◌, refl, sym, ap, ◌∙◌, ◌⊎◌, inl, inr, true, Option, none, some, List, [], ◌∷◌,
  ◌++◌, ltb, arith, if◌then◌else◌, ◌>>=◌, Bool-cases, if-true, if-false, bind-some,
}
use libpalmsocket.Errors.{PslError, no_error, ssl_ctx, is_error}
use libpalmsocket.Errors.Openssl.{purge_error}
use libpalmsocket.Errors.Openssl.Stack.{first_error, purge_error_lem, purge_result}
use libpalmsocket.OpensslInit.{multi_threaded, InitState, Library, openssl_uninit}
use libpalmsocket.OpensslInit.Users.{
  View, down, up, Shows, inits_conditionally, uninits, view_op, run_op, Refines, op_lem, some_of,
}
use libpalmsocket.SslContext.{
  Context, World, CtxCalls, free_ctx, destroy, give_up, failing, set_paths, load_paths, make_ctx,
  started, after_init, ctx_new,
}

-- What taking a use of OpenSSL does to the view, and giving it back undoes it.
taken_back :
    (lib : Library) (v v' : View) (e : PslError)
    → view_op lib (inits_conditionally multi_threaded) v ≡ some (v', e)
    → ((is_error e ≡ true) × (v' ≡ v))
      ⊎ ((e ≡ no_error) × (view_op lib uninits v' ≡ some (v, no_error)))
taken_back lib down v' e h = elim (Bool-cases lib.init_succeeds) [
  | inl works ↦
      let p = some_of (rw works at h) in
      inr (sym (ap (λ r. r.1) p), ap (λ r. view_op lib uninits r.0) (sym p))
  | inr broken ↦
      let p = some_of (rw broken at h) in
      inl (ap (λ r. is_error r.1) (sym p), sym (ap (λ r. r.0) p))
]
taken_back lib (up ty n) v' e h = elim (Bool-cases (ltb (suc (suc n)) (2 ^ 32))) [
  | inl room ↦
      let p = some_of (rw room at h) in
      inr (sym (ap (λ r. r.1) p), ap (λ r. view_op lib uninits r.0) (sym p))
  | inr full ↦ let q = rw full at h in absurd (cc q)
]

nonzero : (e : PslError) → e ≢ no_error → is_error e ≡ true
nonzero e h = ground arith

module _ (lib : Library) where
  pub destroy_lem :
      (c : Context) (w : World) (v v' : View)
      → c.openssl_init_taken ≡ true
      → Shows lib v w.init_state
      → view_op lib uninits v ≡ some (v', no_error)
      → (s : InitState) × (destroy lib c w
          ≡ some (record (free_ctx c.openssl_ctx w) { init_state = s }))
        × Shows lib v' s
  unfolding destroy
  destroy_lem c w v v' taken sh h =
      let (t, ht, sh') =
        subst (λ r. Refines lib r (run_op lib uninits w.init_state)) h
          (op_lem lib uninits v w.init_state sh) in
      let (s, hs, same) = bind-some (openssl_uninit lib w.init_state) ht in
      (s, rw (taken, hs) refl, subst (λ u. Shows lib v' u) (sym (ap (λ r. r.0) (some_of same))) sh')

  module _ (calls : CtxCalls) where
    -- A call that fails leaves a stack that is empty, or that stands for an error.
    abbrev pub IsPurged : List ℕ → Type 0
    IsPurged stack = (stack ≡ []) ⊎ (first_error calls.codes ssl_ctx stack ≢ no_error)

    purged :
        (stack : List ℕ)
        → IsPurged stack
        → (e : PslError) × (purge_error calls.codes stack ssl_ctx ≡ some e)
    purged stack p = rw (purge_error_lem calls.codes stack ssl_ctx refl) (result stack p)
      where
        result :
            (stack : List ℕ)
            → IsPurged stack
            → (e : PslError) × (purge_result calls.codes ssl_ctx stack ≡ some e)
        result [] q = (no_error, refl)
        result (x ∷ xs) (inl q) = absurd (cc q)
        result (x ∷ xs) (inr q) = (_, if-true none (nonzero _ q))

    give_up_lem :
        (e : PslError) (c : Context) (w : World) (v v' : View)
        → is_error e ≡ true
        → c.openssl_init_taken ≡ true
        → Shows lib v w.init_state
        → view_op lib uninits v ≡ some (v', no_error)
        → (s : InitState) × (give_up lib calls e c w
            ≡ some (record (free_ctx c.openssl_ctx w) { init_state = s }, none, e))
          × Shows lib v' s
    give_up_lem e c w v v' bad taken sh h =
        let (s, hs, sh') = destroy_lem c w v v' taken sh h in (s, rw (bad, hs) refl, sh')

    failing_lem :
        (stack : List ℕ) (c : Context) (w : World) (v v' : View)
        → IsPurged stack
        → c.openssl_init_taken ≡ true
        → Shows lib v w.init_state
        → view_op lib uninits v ≡ some (v', no_error)
        → (s : InitState) × (e : PslError) × (is_error e ≡ true)
          × (failing lib calls stack c w
              ≡ some (record (free_ctx c.openssl_ctx w) { init_state = s }, none, e))
          × Shows lib v' s
    failing_lem stack c w v v' p taken sh h =
        let (e, he) = purged stack p in
        let (s, hs, sh') = give_up_lem (coded e) c w v v' (coded-is_error e) taken sh h in
        (
          s,
          coded e,
          coded-is_error e,
          ap (λ q. q >>= λ e'. give_up lib calls (coded e') c w) he ∙ hs,
          sh',
        )
      where
        coded : PslError → PslError
        coded e = if is_error e then e else ssl_ctx

        coded-is_error : (e : PslError) → is_error (coded e) ≡ true
        coded-is_error e = ground arith

    -- What making a context comes to: a context with one reference on a new `SSL_CTX` and a use of
    -- OpenSSL; or an error, with every `SSL_CTX` that was made freed, and the use given back.
    abbrev pub Outcome : View → View → World → Option (World × Option Context × PslError) → Type 0
    Outcome v v' w q =
        (w' : World) × (news : List ℕ) × (r : Option Context) × (err : PslError) × (q
          ≡ some (w', r, err))
        × (w'.made ≡ news ++ w.made)
        × (((err ≡ no_error)
              × ((h : ℕ) × (news ≡ h ∷ [])
                  × (r
                      ≡ some (record {
                        openssl_ctx = some h;
                        ref_count = 1;
                        openssl_init_taken = true;
                      })))
              × (w'.freed ≡ w.freed)
              × Shows lib v' w'.init_state)
            ⊎ ((is_error err ≡ true)
                × (r ≡ none)
                × (w'.freed ≡ news ++ w.freed)
                × Shows lib v w'.init_state))

    module _ (v v' : View) (w : World) (t : InitState) (sh : Shows lib v' t)
        (back : view_op lib uninits v' ≡ some (v, no_error)) where
      abbrev with_ctx : ℕ → Context
      with_ctx h = record (started lib calls true) { openssl_ctx = some h }

      abbrev made_world : ℕ → World
      made_world h = record w { init_state = t; made = h ∷ w.made }

      refused :
          (h : ℕ) (stack : List ℕ)
          → IsPurged stack
          → Outcome v v' w (failing lib calls stack (with_ctx h) (made_world h))
      refused h stack p =
          let (s, e, bad, hq, sh') =
            failing_lem stack (with_ctx h) (made_world h) v' v p refl sh back in
          (_, h ∷ [], none, e, hq, refl, inr (bad, refl, refl, sh'))

      set_lem :
          (h : ℕ) (q : Option (List ℕ))
          → ((stack : List ℕ) → q ≡ some stack → IsPurged stack)
          → Outcome v v' w (set_paths lib calls q (with_ctx h) (made_world h))
      set_lem h none p = (_, h ∷ [], _, no_error, refl, refl, inl (refl, (h, refl, refl), refl, sh))
      set_lem h (some stack) p = refused h stack (p stack refl)

      load_lem :
          (h : ℕ) (q : Option (List ℕ))
          → ((stack : List ℕ) → q ≡ some stack → IsPurged stack)
          → ((stack : List ℕ) → calls.set_default_verify_paths ≡ some stack → IsPurged stack)
          → Outcome v v' w (load_paths lib calls q (with_ctx h) (made_world h))
      load_lem h none p pd = set_lem h calls.set_default_verify_paths pd
      load_lem h (some stack) p pd = refused h stack (p stack refl)

      make_lem :
          (q : Option ℕ)
          → IsPurged calls.new_stack
          → ((stack : List ℕ) → calls.load_verify_locations ≡ some stack → IsPurged stack)
          → ((stack : List ℕ) → calls.set_default_verify_paths ≡ some stack → IsPurged stack)
          → Outcome v v' w
              (make_ctx lib calls q (started lib calls true) (record w { init_state = t }))
      make_lem none pn pl pd =
          let (s, e, bad, hq, sh') =
            failing_lem calls.new_stack (started lib calls true) (record w { init_state = t }) v' v
              pn refl sh back in
          (_, [], none, e, hq, refl, inr (bad, refl, refl, sh'))
      make_lem (some h) pn pl pd = load_lem h calls.load_verify_locations pl pd

    -- From a state that stands for a view of OpenSSL that allows one more user, if a call of OpenSSL
    -- that fails leaves a stack that is empty or stands for an error: PmSockSSLCtxNew makes a context
    -- with one reference, which owns the one new `SSL_CTX` and one use of OpenSSL; or it gives an error
    -- and no context, every `SSL_CTX` that it made is freed, and OpenSSL has the users it had.
    pub ctx_new-Shows :
        (v v' : View) (e : PslError) (w : World)
        → Shows lib v w.init_state
        → view_op lib (inits_conditionally multi_threaded) v ≡ some (v', e)
        → IsPurged calls.new_stack
        → ((stack : List ℕ) → calls.load_verify_locations ≡ some stack → IsPurged stack)
        → ((stack : List ℕ) → calls.set_default_verify_paths ≡ some stack → IsPurged stack)
        → Outcome v v' w (ctx_new lib calls w)
    unfolding ctx_new destroy
    ctx_new-Shows v v' e w sh h pn pl pd =
        let (t, ht, sh') =
          subst (λ r. Refines lib r (run_op lib (inits_conditionally multi_threaded) w.init_state))
            h (op_lem lib (inits_conditionally multi_threaded) v w.init_state sh) in
        let q : ctx_new lib calls w ≡ after_init lib calls w (t, e) =
          ap (λ r. r >>= after_init lib calls w) ht in
        elim (taken_back lib v v' e h) [
          | inl (bad, same) ↦ (
            record w { init_state = t },
            [],
            none,
            e,
            q ∙ rw bad refl,
            refl,
            inr (bad, refl, refl, subst (λ x. Shows lib x t) same sh'),
          )
          | inr (fine, back) ↦
              subst (λ r. Outcome v v' w r) (sym (q ∙ if-false _ (ap is_error fine)))
                (make_lem v v' w t sh' back calls.ssl_ctx_new pn pl pd)
        ]

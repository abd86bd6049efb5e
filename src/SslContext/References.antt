-- ===== src/SslContext/References.antt =====
-- The references of a context of src/psl_ssl_context.c: it is destroyed by the last of its users, once.
use mathlib.Core.Path.{subst}
use libpalmsocket.Base.{
  ℕ, zero, suc, ◌<◌, ◌^◌, ◌≡◌, refl, sym, ap, ◌∙◌, inl, inr, true, false, Option, none, some, List,
  [], ◌∷◌, ltb, ltb→lt, ◌==◌, arith, if◌then◌else◌, ◌>>=◌, Bool-cases,
}
use libpalmsocket.Errors.{no_error}
use libpalmsocket.Refcount.{atomic_ref, atomic_unref, atomic_ref_lem, atomic_unref_lem}
use libpalmsocket.OpensslInit.{InitState, Library}
use libpalmsocket.OpensslInit.Users.{View, Shows, uninits, view_op, some_of}
use libpalmsocket.SslContext.{Context, World, free_ctx, ctx_ref, ctx_unref}
use libpalmsocket.SslContext.Life.{destroy_lem}

pub data RefOp : Type 0 where
  refs unrefs : RefOp

-- The users of a context by turns, `none` being a context that is gone: it is used no more.
unfoldable pub run_refs :
    Library → List RefOp → Option Context → World → Option (Option Context × World)
unfolding ctx_unref
run_refs lib [] r w = some (r, w)
run_refs lib (x ∷ xs) none w = none
run_refs lib (refs ∷ xs) (some c) w = run_refs lib xs (some (ctx_ref c)) w
run_refs lib (unrefs ∷ xs) (some c) w = ctx_unref lib c w >>= λ p. run_refs lib xs p.0 p.1

-- How many users there are afterwards; `none` where one uses a context that none has, or too many do.
abbrev pub users : List RefOp → ℕ → Option ℕ
users [] n = some n
users (x ∷ xs) zero = none
users (refs ∷ xs) (suc n) =
    let rest = users xs (suc (suc n)) in if ltb (suc (suc n)) (2 ^ 32) then rest else none
users (unrefs ∷ xs) (suc n) = users xs n

module _ (lib : Library) (v v' : View) (back : view_op lib uninits v ≡ some (v', no_error)) where
  -- Where the context is after `m` users are left.
  abbrev pub Left : Context → World → ℕ → Option (Option Context × World) → Type 0
  Left c w zero q =
      (s : InitState) × (q ≡ some (none, record (free_ctx c.openssl_ctx w) { init_state = s }))
      × Shows lib v' s
  Left c w (suc n) q = q ≡ some (some (record c { ref_count = suc n }), w)

  last_lem :
      (c : Context) (w : World)
      → c.ref_count ≡ 1
      → c.openssl_init_taken ≡ true
      → Shows lib v w.init_state
      → Left c w zero (ctx_unref lib c w)
  unfolding ctx_unref
  last_lem c w one taken sh =
      let (s, hs, sh') =
        destroy_lem lib (record c { ref_count = (atomic_unref c.ref_count).0 }) w v v' taken sh
          back in
      (s, rw (ap (λ k. k == 1) one, hs) refl, sh')

  more_lem :
      (c : Context) (w : World) (n : ℕ)
      → c.ref_count ≡ suc (suc n)
      → suc (suc n) < 2 ^ 32
      → Left c w (suc n) (ctx_unref lib c w)
  unfolding ctx_unref
  more_lem c w n count room = rw (count, atomic_unref_lem (suc n) room, not_last n) refl
    where
      not_last : (k : ℕ) → (suc (suc k) == 1) ≡ false
      not_last k = ground arith

  Left-count :
      (c : Context) (k : ℕ) (w : World) (m : ℕ) (q : Option (Option Context × World))
      → Left (record c { ref_count = k }) w m q
      → Left c w m q
  Left-count c k w zero q l = l
  Left-count c k w (suc n) q l = l

  -- A context with a use of OpenSSL and a count for its users, of which there is one at least: its users
  -- take and give up references by turns, while there are any and no more than the count can hold. As
  -- long as one is left the context is there with their count and nothing else has changed; after the
  -- last one its `SSL_CTX` has been freed, once, and its use of OpenSSL has been given up.
  pub run_refs-Left :
      (ops : List RefOp) (n m : ℕ) (c : Context) (w : World)
      → c.ref_count ≡ suc n
      → suc n < 2 ^ 32
      → c.openssl_init_taken ≡ true
      → Shows lib v w.init_state
      → users ops (suc n) ≡ some m
      → Left c w m (run_refs lib ops (some c) w)
  unfolding run_refs
  run_refs-Left [] n m c w count room taken sh h =
      subst (λ k. Left c w k (some (some c, w))) (some_of h)
        (ap (λ k. some (some (record c { ref_count = k }), w)) count)
  run_refs-Left (refs ∷ xs) n m c w count room taken sh h =
      elim (Bool-cases (ltb (suc (suc n)) (2 ^ 32))) [
        | inl more ↦
            let fits : suc (suc n) < 2 ^ 32 = ltb→lt (suc (suc n)) (2 ^ 32) more in
            Left-count c (ctx_ref c).ref_count w m _ (
              run_refs-Left xs (suc n) m (ctx_ref c) w
                (ap atomic_ref count ∙ atomic_ref_lem (suc n) fits) fits taken sh (rw more at h))
        | inr full ↦ let q = rw full at h in absurd (cc q)
      ]
  run_refs-Left (unrefs ∷ []) zero m c w count room taken sh h =
      let (s, hs, sh') = last_lem c w count taken sh in
      subst (λ k. Left c w k (ctx_unref lib c w >>= λ p. run_refs lib [] p.0 p.1)) (some_of h)
        (s, ap (λ q. q >>= λ p. run_refs lib [] p.0 p.1) hs, sh')
  run_refs-Left (unrefs ∷ x ∷ xs) zero m c w count room taken sh h = absurd (cc h)
  run_refs-Left (unrefs ∷ xs) (suc n) m c w count room taken sh h =
      subst (λ q. Left c w m q)
        (sym (ap (λ q. q >>= λ p. run_refs lib xs p.0 p.1) (more_lem c w n count room)))
        (Left-count c (suc n) w m _ (
          run_refs-Left xs n m (record c { ref_count = suc n }) w refl (omega (arith, room)) taken
            sh h))

-- ===== src/Errors/Openssl/Stack.antt =====
-- The OpenSSL error stack of src/psl_error_utils.c: which error its callers get.
use mathlib.Core.Option
use libpalmsocket.Base.{
  ℕ, zero, suc, negsuc, ◌≡◌, ◌≢◌, refl, true, false, Option, none, some, List, [], ◌∷◌, ℤ, pos,
  arith, ◌==◌, ltb, if◌then◌else◌, ◌>>=◌, inl, inr, ◌⊎◌, Bool-cases, ◌∙◌, ap, ◌↔◌,
}
use libpalmsocket.Errors.{PslError, no_error, syscall, is_error, Errno}
use libpalmsocket.Errors.Openssl.{
  ErrCodes, Purge, from_lib, snprintf, SslError, ssl_none, ssl_ssl, ssl_syscall,
  pslerror_from_stack_code, purge_round, purge_loop, purged, purge_error, syscall_error,
  process_and_purge, ssl_channel_error,
}

as_map : (m : Option (PslError × List ℕ)) → (m >>= λ r. some r.0) ≡ Option.map (λ r. r.0) m
as_map none = refl
as_map (some r) = refl

module _ (codes : ErrCodes) where
  -- what a code of the stack stands for
  abbrev pub mapped : PslError → ℕ → PslError
  mapped d c = if c == 0 then no_error else from_lib codes (codes.get_lib c) c d

  -- The first code of the stack that stands for an error at all.
  abbrev pub first_error : PslError → List ℕ → PslError
  first_error d [] = no_error
  first_error d (c ∷ cs) =
      let rest = first_error d cs in if is_error (mapped d c) then mapped d c else rest

  abbrev next : ℕ → PslError → ℕ → Purge → Purge
  next n d c p = if is_error p.psl_err then record p { got_errors = true } else record {
    psl_err = mapped d c;
    text = if ltb 0 n then snprintf n (codes.error_string c) else p.text;
    got_errors = true;
  }

  round_lem :
      (n : ℕ) (d : PslError) (c : ℕ) (p : Purge)
      → is_error d ≡ true
      → purge_round codes n d c p ≡ some (next n d c p)
  unfolding purge_round pslerror_from_stack_code
  round_lem n d c p h = elim (Bool-cases (is_error p.psl_err)) [
    | inl known ↦ rw known
    | inr fresh ↦ rw (fresh, h)
  ]

  abbrev rounds : ℕ → PslError → List ℕ → Purge → Purge
  rounds n d [] p = p
  rounds n d (c ∷ cs) p = rounds n d cs (next n d c p)

  loop_lem :
      (n : ℕ) (d : PslError) (cs : List ℕ) (p : Purge)
      → is_error d ≡ true
      → purge_loop codes n d cs p ≡ some (rounds n d cs p)
  unfolding purge_loop
  loop_lem n d [] p h = refl
  loop_lem n d (c ∷ cs) p h = rw (round_lem n d c p h) (loop_lem n d cs (next n d c p) h)

  next-first_error :
      (n : ℕ) (d : PslError) (c : ℕ) (cs : List ℕ) (p : Purge)
      → (if is_error (next n d c p).psl_err then (next n d c p).psl_err else first_error d cs)
        ≡ (if is_error p.psl_err then p.psl_err else first_error d (c ∷ cs))
  next-first_error n d c cs p = elim (Bool-cases (is_error p.psl_err)) [
    | inl known ↦ rw known (rw known)
    | inr fresh ↦ rw fresh refl
  ]

  rounds-first_error :
      (n : ℕ) (d : PslError) (cs : List ℕ) (p : Purge)
      → (rounds n d cs p).psl_err ≡ (if is_error p.psl_err then p.psl_err else first_error d cs)
  rounds-first_error n d [] p = ground arith
  rounds-first_error n d (c ∷ cs) p =
      rounds-first_error n d cs (next n d c p) ∙ next-first_error n d c cs p

  rounds-got :
      (n : ℕ) (d : PslError) (cs : List ℕ) (p : Purge)
      → p.got_errors ≡ true
      → (rounds n d cs p).got_errors ≡ true
  rounds-got n d [] p h = h
  rounds-got n d (c ∷ cs) p h = rounds-got n d cs (next n d c p) (ground arith)

  -- the error of a non-empty stack, where the assertion behind the loop lets it through
  abbrev pub purge_result : PslError → List ℕ → Option PslError
  purge_result d [] = some no_error
  purge_result d (c ∷ cs) =
      if is_error (first_error d (c ∷ cs)) then some (first_error d (c ∷ cs)) else none

  abbrev start : Purge
  start = record { psl_err = no_error; text = []; got_errors = false }

  purged_error :
      (n : ℕ) (d : PslError) (fallback : PslError → List ℕ) (p : Purge)
      → p.got_errors ≡ true
      → Option.map (λ r. r.0) (purged codes n d fallback p)
        ≡ (if is_error p.psl_err then some p.psl_err else none)
  purged_error n d fallback p h = ground arith

  -- With an error for the default: the result is PSL_ERR_NONE for an empty stack, and otherwise the
  -- error of the first code on it that stands for one. A stack that is not empty but holds no such
  -- code fails the assertion behind the loop.
  pub process_and_purge_lem :
      (n : ℕ) (d : PslError) (stack : List ℕ) (fallback : PslError → List ℕ)
      → is_error d ≡ true
      → Option.map (λ r. r.0) (process_and_purge codes n d stack fallback) ≡ purge_result d stack
  unfolding process_and_purge
  process_and_purge_lem n d [] fallback h = rw h (rw (loop_lem n d [] start h) refl)
  process_and_purge_lem n d (c ∷ cs) fallback h = rw h (
      rw (loop_lem n d (c ∷ cs) start h) (
        purged_error n d fallback (rounds n d (c ∷ cs) start) got
        ∙ ap (λ e. if is_error e then some e else none) first))
    where
      got : (rounds n d (c ∷ cs) start).got_errors ≡ true
      got = rounds-got n d cs (next n d c start) refl

      first : (rounds n d (c ∷ cs) start).psl_err ≡ first_error d (c ∷ cs)
      first = rounds-first_error n d (c ∷ cs) start

  pub purge_error_lem :
      (stack : List ℕ) (d : PslError)
      → is_error d ≡ true
      → purge_error codes stack d ≡ purge_result d stack
  purge_error_lem stack d h =
      as_map (process_and_purge codes 0 d stack (λ _. []))
      ∙ process_and_purge_lem 0 d stack (λ _. []) h

  -- an error in place of PSL_ERR_NONE, as both callers do it
  instead :
      (d alt : PslError) (stack : List ℕ)
      → is_error alt ≡ true
      → ((purge_result d stack >>= λ err. some (if is_error err then err else alt)) ≢ some no_error)
        × (((purge_result d stack >>= λ err. some (if is_error err then err else alt)) ≢ none)
            ⊎ ((stack ≢ []) × (first_error d stack ≡ no_error)))
  instead d alt [] h = ground arith
  instead d alt (c ∷ cs) h = ground arith

  syscall_error-is_error : (ret : ℤ) (e : Errno) → is_error (syscall_error codes ret e) ≡ true
  syscall_error-is_error (pos zero) e = refl
  syscall_error-is_error (pos (suc n)) e = ground arith
  syscall_error-is_error (negsuc n) e = ground arith

  -- What the channel gets for a failed call of OpenSSL, with an error for the default: PSL_ERR_NONE
  -- exactly if SSL_get_error says that there is no error; and the assertion on the stack can fail only
  -- where the stack is not empty but holds no code that stands for an error.
  pub ssl_channel_error_lem :
      (status : SslError) (ret : ℤ) (e : Errno) (stack : List ℕ) (d : PslError)
      → is_error d ≡ true
      → (ssl_channel_error codes status ret e stack d ≡ some no_error ↔ status ≡ ssl_none)
        × ((ssl_channel_error codes status ret e stack d ≢ none)
            ⊎ ((stack ≢ [])
                × ((first_error d stack ≡ no_error) ⊎ (first_error syscall stack ≡ no_error))))
  unfolding ssl_channel_error
  ssl_channel_error_lem ssl_ssl ret e stack d h =
      rw (h, purge_error_lem stack d h)
        (let (nonzero, fails) = instead d d stack h in
          (
            (λ q. absurd (nonzero q), λ q. cc),
            elim fails [ inl fine ↦ inl fine | inr (some_code, bad) ↦ inr (some_code, inl bad) ],
          ))
  ssl_channel_error_lem ssl_syscall ret e stack d h =
      rw (h, purge_error_lem stack syscall refl)
        (let (nonzero, fails) = instead syscall _ stack (syscall_error-is_error ret e) in
          (
            (λ q. absurd (nonzero q), λ q. cc),
            elim fails [ inl fine ↦ inl fine | inr (some_code, bad) ↦ inr (some_code, inr bad) ],
          ))
  ssl_channel_error_lem status ret e stack d h = ((ground arith, ground arith), ground arith)

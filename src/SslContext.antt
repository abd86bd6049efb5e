-- ===== src/SslContext.antt =====
-- src/psl_ssl_context.c: a context counts its references, and holds one use of OpenSSL as long as it is
-- there. `none` is a failed assertion.
pub mod Life
pub mod References
mod Tests
use libpalmsocket.Base.{
  ℕ, Bool, true, false, not, Option, none, some, List, [], ◌∷◌, if◌then◌else◌, ◌>>=◌, ◌>>◌,
  psl_assert,
}
use libpalmsocket.Errors.{PslError, no_error, ssl_ctx, is_error}
use libpalmsocket.Errors.Openssl.{ErrCodes, process_and_purge, purge_error}
use libpalmsocket.Refcount.{atomic_ref, atomic_unref}
use libpalmsocket.Refcount
use libpalmsocket.OpensslInit.{multi_threaded, InitState, Library, init_conditional, openssl_uninit}

-- `PmSockSSLContext`, less its label; an `SSL_CTX` is a number.
pub record Context : Type 0 where
  pub openssl_ctx : Option ℕ
  pub ref_count : ℕ
  pub openssl_init_taken : Bool

-- What a context uses: the initialization of OpenSSL, the `SSL_CTX`s that were made, and those freed.
pub record World : Type 0 where
  pub init_state : InitState
  pub made : List ℕ
  pub freed : List ℕ

-- OpenSSL's calls: SSL_CTX_new, SSL_CTX_load_verify_locations and SSL_CTX_set_default_verify_paths;
-- one that fails leaves a stack of errors.
pub record CtxCalls : Type 0 where
  pub codes : ErrCodes
  pub ssl_ctx_new : Option ℕ
  pub new_stack : List ℕ
  pub load_verify_locations : Option (List ℕ)
  pub set_default_verify_paths : Option (List ℕ)

-- SSL_CTX_free, if there is one
abbrev pub free_ctx : Option ℕ → World → World
free_ctx none w = w
free_ctx (some h) w = record w { freed = h ∷ w.freed }

-- `PmSockSSLCtxRef`
abbrev pub ctx_ref : Context → Context
ctx_ref c = record c { ref_count = atomic_ref c.ref_count }

module _ (lib : Library) where
  -- `ssl_context_destroy_internal`
  unfoldable pub destroy : Context → World → Option World
  unfolding openssl_uninit
  destroy c w =
      if c.openssl_init_taken
      then (openssl_uninit lib w.init_state >>= λ s.
          some (record (free_ctx c.openssl_ctx w) { init_state = s }))
      else some (free_ctx c.openssl_ctx w)

  -- `PmSockSSLCtxUnref`; `none` in the pair is a context that is gone.
  unfoldable pub ctx_unref : Context → World → Option (Option Context × World)
  unfolding destroy
  ctx_unref c w =
      let (n, last) = atomic_unref c.ref_count in
      if last
      then (destroy (record c { ref_count = n }) w >>= λ v. some (none, v))
      else some (some (record c { ref_count = n }), w)

  module _ (calls : CtxCalls) where
    -- `error_cleanup`
    abbrev pub give_up : PslError → Context → World → Option (World × Option Context × PslError)
    give_up e c w = psl_assert (is_error e) >> destroy c w >>= λ v. some (v, none, e)

    abbrev pub failing : List ℕ → Context → World → Option (World × Option Context × PslError)
    failing stack c w = purge_error calls.codes stack ssl_ctx >>= λ e.
        give_up (if is_error e then e else ssl_ctx) c w

    abbrev pub set_paths :
        Option (List ℕ) → Context → World → Option (World × Option Context × PslError)
    set_paths none c w = some (w, some c, no_error)
    set_paths (some stack) c w = failing stack c w

    abbrev pub load_paths :
        Option (List ℕ) → Context → World → Option (World × Option Context × PslError)
    load_paths none c w = set_paths calls.set_default_verify_paths c w
    load_paths (some stack) c w = failing stack c w

    abbrev pub make_ctx : Option ℕ → Context → World → Option (World × Option Context × PslError)
    make_ctx none c w = failing calls.new_stack c w
    make_ctx (some h) c w =
        load_paths calls.load_verify_locations (record c { openssl_ctx = some h })
          (record w { made = h ∷ w.made })

    abbrev pub started : Bool → Context
    started taken = record {
      openssl_ctx = none;
      ref_count = Refcount.init;
      openssl_init_taken = taken;
    }

    abbrev pub after_init :
        World → InitState × PslError → Option (World × Option Context × PslError)
    after_init w (s, e) =
        if is_error e
        then give_up e (started false) (record w { init_state = s })
        else make_ctx calls.ssl_ctx_new (started true) (record w { init_state = s })

    -- `PmSockSSLCtxNew`: `*pSSLCtx`, and the error
    unfoldable pub ctx_new : World → Option (World × Option Context × PslError)
    unfolding init_conditional destroy process_and_purge
    ctx_new w = init_conditional lib multi_threaded w.init_state >>= after_init w

-- ===== src/SslContext/Tests.antt =====
-- Runs of contexts.
use libpalmsocket.Base.{ℕ, ◌≡◌, refl, inl, true, false, none, some, List, [], ◌∷◌, arith}
use libpalmsocket.Errors.{no_error}
use libpalmsocket.OpensslInit.{multi_threaded, single_threaded, Library}
use libpalmsocket.OpensslInit.Users.{down, up}
use libpalmsocket.Crypto.Fixtures.{codes}
use libpalmsocket.SslContext.{Context, World, CtxCalls, ctx_new}
use libpalmsocket.SslContext.Life.{IsPurged, Outcome, ctx_new-Shows}
use libpalmsocket.SslContext.References.{refs, unrefs, run_refs, Left, run_refs-Left}

abbrev new_library : Library
new_library = record { legacy_init = false; init_succeeds = true; num_locks = 0 }

-- An OpenSSL that makes the context 5, but does not find the default paths
abbrev no_paths : CtxCalls
no_paths = record {
  codes = codes;
  ssl_ctx_new = some 5;
  new_stack = [];
  load_verify_locations = none;
  set_default_verify_paths = some [];
}

abbrev unused : World
unused = record {
  init_state = record {
    is_initialized = false;
    init_type = single_threaded;
    ref_count = 0;
    thread_safety = record { is_initialized = false; num_locks = 0 };
  };
  made = [];
  freed = [];
}

ctx_new-Shows_example :
    Outcome new_library no_paths down
      (up multi_threaded 0)
      unused
      (ctx_new new_library no_paths unused)
ctx_new-Shows_example =
    ctx_new-Shows new_library no_paths down (up multi_threaded 0) no_error unused
      (refl, (refl, refl)) refl (inl refl) (λ stack h. absurd (ground arith))
      (λ stack h. emptied stack h)
  where
    emptied : (stack : List ℕ) → some [] ≡ some stack → IsPurged new_library no_paths stack
    emptied [] h = inl refl
    emptied (x ∷ xs) h = absurd (cc h)

-- A context on the handle 5, whose user is the only one of OpenSSL
abbrev one_context : Context
one_context = record { openssl_ctx = some 5; ref_count = 1; openssl_init_taken = true }

abbrev in_use : World
in_use = record unused {
  init_state = record (unused.init_state) {
    is_initialized = true;
    init_type = multi_threaded;
    ref_count = 1;
  };
  made = 5 ∷ [];
}

run_refs-Left_example :
    Left new_library
      (up multi_threaded 0)
      down
      refl
      one_context
      in_use
      0
      (run_refs new_library (refs ∷ unrefs ∷ unrefs ∷ []) (some one_context) in_use)
run_refs-Left_example =
    run_refs-Left new_library (up multi_threaded 0) down refl (refs ∷ unrefs ∷ unrefs ∷ []) 0 0
      one_context in_use refl (omega arith) refl (refl, refl, (refl, omega arith), (refl, refl))
      refl

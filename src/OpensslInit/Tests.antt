-- ===== src/OpensslInit/Tests.antt =====
-- Runs of the initialization.
use libpalmsocket.Base.{◌≡◌, refl, some, true, false, List, [], ◌∷◌}
use libpalmsocket.Errors.{no_error, not_allowed}
use libpalmsocket.OpensslInit.{single_threaded, multi_threaded, InitState, Library}
use libpalmsocket.OpensslInit.Users.{
  down, up, Shows, Op, inits, inits_conditionally, uninits, run_ops, run_ops-Shows,
}

-- an OpenSSL before 1.1 with 41 locks
abbrev old_library : Library
old_library = record { legacy_init = true; init_succeeds = true; num_locks = 41 }

abbrev not_yet : InitState
not_yet = record {
  is_initialized = false;
  init_type = single_threaded;
  ref_count = 0;
  thread_safety = record { is_initialized = false; num_locks = 0 };
}

-- The first user is for one thread; a second one for several is refused; two leave, and one for several
-- threads comes.
abbrev some_ops : List Op
some_ops =
    inits single_threaded
    ∷ inits multi_threaded
    ∷ inits_conditionally multi_threaded
    ∷ uninits
    ∷ uninits
    ∷ inits multi_threaded
    ∷ []

run_ops-Shows_example :
    (s : InitState) × (run_ops old_library some_ops not_yet
      ≡ some (s, no_error ∷ not_allowed ∷ no_error ∷ no_error ∷ no_error ∷ no_error ∷ []))
    × Shows old_library (up multi_threaded 0) s
run_ops-Shows_example =
    run_ops-Shows old_library some_ops down (up multi_threaded 0)
      (no_error ∷ not_allowed ∷ no_error ∷ no_error ∷ no_error ∷ no_error ∷ []) not_yet
      (refl, (refl, refl)) refl

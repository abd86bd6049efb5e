-- ===== src/OpensslInit.antt =====
-- src/psl_openssl_init.c: OpenSSL is initialized for the first of its users, and cleaned up after the
-- last. The mutex makes each operation one step. `none` is a failed assertion.
pub mod Users
mod Tests
use libpalmsocket.Base.{
  ℕ, Bool, true, false, not, ◌&&◌, Option, none, some, List, [], ◌∷◌, ◌==◌, if◌then◌else◌, ◌>>=◌,
  ◌>>◌, psl_assert,
}
use libpalmsocket.Errors.{PslError, no_error, openssl, not_allowed, is_error}
use libpalmsocket.Refcount.{atomic_ref, atomic_unref}
use libpalmsocket.Refcount

-- `PmSockOpensslInitType`
pub data InitType : Type 0 where
  single_threaded multi_threaded : InitType

-- `ThreadSafetyInfo`, for an OpenSSL before 1.1: the locks are there where `num_locks` is not 0.
pub record ThreadSafety : Type 0 where
  pub is_initialized : Bool
  pub num_locks : ℕ

-- `gInitState`
pub record InitState : Type 0 where
  pub is_initialized : Bool
  pub init_type : InitType
  pub ref_count : ℕ
  pub thread_safety : ThreadSafety

-- What the build and OpenSSL say: PSL_OPENSSL_LEGACY_INIT, whether the library's own initialization
-- succeeds, and CRYPTO_num_locks.
pub record Library : Type 0 where
  pub legacy_init : Bool
  pub init_succeeds : Bool
  pub num_locks : ℕ

abbrev pub is_multi : InitType → Bool
is_multi multi_threaded = true
is_multi single_threaded = false

-- `thread_safety_init`; `malloc` aborts here where it fails.
abbrev pub thread_safety_init : ℕ → ThreadSafety → Option ThreadSafety
thread_safety_init n t = do
  psl_assert (not t.is_initialized)
  psl_assert (t.num_locks == 0)
  some (record { is_initialized = true; num_locks = n })

-- `thread_safety_cleanup`
abbrev pub thread_safety_cleanup : ThreadSafety → ThreadSafety
thread_safety_cleanup t = record t {
  num_locks = if t.is_initialized then 0 else t.num_locks;
  is_initialized = false;
}

module _ (lib : Library) where
  -- `init_openssl_low`; seeding never fails it.
  unfoldable pub init_low : InitType → InitState → Option (InitState × PslError)
  init_low ty s =
      if not lib.init_succeeds
      then some (s, openssl)
      else if lib.legacy_init && is_multi ty
      then (thread_safety_init lib.num_locks s.thread_safety >>= λ t.
          some (record s { thread_safety = t }, no_error))
      else some (s, no_error)

  -- `uninit_openssl_low`
  abbrev pub uninit_low : InitState → InitState
  uninit_low s = record s {
    thread_safety =
        if lib.legacy_init then thread_safety_cleanup s.thread_safety else s.thread_safety;
  }

  abbrev first_user : InitType → InitState × PslError → InitState × PslError
  first_user ty (s, e) =
      if is_error e
      then (s, e)
      else (record s { is_initialized = true; init_type = ty; ref_count = Refcount.init }, e)

  -- `init_openssl_already_locked`
  unfoldable pub init_already_locked : InitType → InitState → Option (InitState × PslError)
  unfolding init_low
  init_already_locked ty s =
      if s.is_initialized
      then some (
          if not (is_multi s.init_type) && is_multi ty
          then (s, not_allowed)
          else (record s { ref_count = atomic_ref s.ref_count }, no_error))
      else (init_low ty s >>= λ r. some (first_user ty r))

  -- `PmSockOpensslInit`
  unfoldable pub openssl_init : InitType → InitState → Option (InitState × PslError)
  unfolding init_already_locked
  openssl_init ty s = init_already_locked ty s

  -- `psl_openssl_init_conditional`
  unfoldable pub init_conditional : InitType → InitState → Option (InitState × PslError)
  unfolding init_already_locked
  init_conditional ty s =
      if s.is_initialized
      then some (record s { ref_count = atomic_ref s.ref_count }, no_error)
      else init_already_locked ty s

  -- `PmSockOpensslUninit`
  unfoldable pub openssl_uninit : InitState → Option InitState
  openssl_uninit s =
      psl_assert s.is_initialized
      >> (let (n, last) = atomic_unref s.ref_count in
          let t : InitState = record s { ref_count = n } in
          some (if last then record (uninit_low t) { is_initialized = false } else t))

-- `PmSockOpensslThreadCleanup`
unfoldable pub thread_cleanup : InitState → PslError
thread_cleanup s = if s.is_initialized then no_error else not_allowed

-- ===== src/Refcount.antt =====
-- src/psl_refcount.h: the reference count. A `gint` is kept as its 32 bits; the label and the cookie
-- are for logging.
use libpalmsocket.Base.{ℕ, suc, ◌+◌, ◌-◌, ◌%◌, ◌^◌, ◌<◌, ◌≡◌, Bool, ◌==◌, arith}

-- `psl_refcount_init`
abbrev pub init : ℕ
init = 1

-- `psl_refcount_atomic_ref`
abbrev pub atomic_ref : ℕ → ℕ
atomic_ref n = (n + 1) % 2 ^ 32

-- `psl_refcount_atomic_unref`: the count, and whether it was the last reference
abbrev pub atomic_unref : ℕ → ℕ × Bool
atomic_unref n = ((n + (2 ^ 32 - 1)) % 2 ^ 32, n == 1)

pub atomic_ref_lem : (n : ℕ) → suc n < 2 ^ 32 → atomic_ref n ≡ suc n
atomic_ref_lem n h = omega (arith, h)

pub atomic_unref_lem : (n : ℕ) → suc n < 2 ^ 32 → (atomic_unref (suc n)).0 ≡ n
atomic_unref_lem n h = omega (arith, h)

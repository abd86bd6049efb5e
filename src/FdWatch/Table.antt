-- ===== src/FdWatch/Table.antt =====
-- The descriptor table of src/psl_multi_fd_watch.c, keyed by the descriptor, and the list of poll
-- records that glib keeps.
pub mod Laws
use libpalmsocket.Base.{
  ℕ, suc, ◌+◌, ◌-◌, ◌≡◌, ◌↔◌, ◌≢◌, refl, Bool, true, false, ◌||◌, Option, none, some, List, [], ◌∷◌,
  ℤ, eq_ℤ, eq_ℤ_iff, eq_ℤ_refl, if◌then◌else◌, arith, Bool-cases, inl, inr,
}
use libpalmsocket.FdWatch.Conditions.{Condition, nothing}

-- `PslMultiFdDescriptor`
pub record Desc : Type 0 where
  pub fd : ℤ
  pub events : Condition
  pub revents : Condition
  pub poll_added : Bool

-- `PslMultiFdPollRec`
pub record PollRec : Type 0 where
  pub fd : ℤ
  pub req_events : Condition
  pub ind_events : Condition

unfoldable pub lookup : ℤ → List Desc → Option Desc
lookup k [] = none
lookup k (d ∷ ds) = if eq_ℤ d.fd k then some d else lookup k ds

-- `g_new0` leaves the flags of a new descriptor clear.
unfoldable pub add_or_update : ℤ → Condition → List Desc → List Desc
add_or_update k c [] = record { fd = k; events = c; revents = nothing; poll_added = false } ∷ []
add_or_update k c (d ∷ ds) =
    if eq_ℤ d.fd k then record d { events = c } ∷ ds else d ∷ add_or_update k c ds

unfoldable pub remove : ℤ → List Desc → List Desc
remove k [] = []
remove k (d ∷ ds) = if eq_ℤ d.fd k then ds else d ∷ remove k ds

unfoldable pub erase : ℤ → List ℤ → List ℤ
erase k [] = []
erase k (x ∷ xs) = if eq_ℤ x k then xs else x ∷ erase k xs

-- How often a descriptor is in glib's list.
unfoldable pub count : ℤ → List ℤ → ℕ
count k [] = 0
count k (x ∷ xs) = if eq_ℤ x k then suc (count k xs) else count k xs

unfoldable pub has : ℤ → List Desc → Bool
has k [] = false
has k (d ∷ ds) = if eq_ℤ d.fd k then true else has k ds

-- How often the flags say that it is there.
unfoldable pub added : ℤ → List Desc → ℕ
added k [] = 0
added k (d ∷ ds) =
    if eq_ℤ d.fd k then (if d.poll_added then suc (added k ds) else added k ds) else added k ds

-- No descriptor has two entries.
abbrev pub IsDistinct : List Desc → Type 0
IsDistinct [] = Unit
IsDistinct (d ∷ ds) = (has d.fd ds ≡ false) × IsDistinct ds

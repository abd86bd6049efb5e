-- ===== src/FdWatch/Table/Laws.antt =====
-- How the table and the list of poll records change, key by key.
use libpalmsocket.Base.{
  ◌-◌, ◌≡◌, refl, false, some, List, [], ◌∷◌, ℤ, Option, none, some, eq_ℤ, eq_ℤ_iff, if◌then◌else◌,
  arith,
}
use libpalmsocket.FdWatch.Conditions.{Condition, nothing}
use libpalmsocket.FdWatch.Table.{
  Desc, lookup, add_or_update, remove, erase, count, has, added, IsDistinct,
}

-- the entry for a descriptor whose conditions are set
abbrev pub updated : ℤ → Condition → Option Desc → Desc
updated k c none = record { fd = k; events = c; revents = nothing; poll_added = false }
updated k c (some d) = record d { events = c }

pub count-erase :
    (k j : ℤ) (xs : List ℤ)
    → count j (erase k xs) ≡ (if eq_ℤ k j then count j xs - 1 else count j xs)
unfolding count erase
count-erase k j [] = ground arith
count-erase k j (x ∷ xs) =
    ground (arith, count-erase k j xs, eq_ℤ_iff x k, eq_ℤ_iff x j, eq_ℤ_iff k j)

pub added-has : (k : ℤ) (ds : List Desc) → has k ds ≡ false → added k ds ≡ 0
unfolding has added
added-has k [] h = refl
added-has k (d ∷ ds) h = ground (arith, added-has k ds)

pub has-add :
    (k j : ℤ) (c : Condition) (ds : List Desc)
    → eq_ℤ k j ≡ false
    → has j (add_or_update k c ds) ≡ has j ds
unfolding has add_or_update
has-add k j c [] h = ground arith
has-add k j c (d ∷ ds) h =
    ground (arith, has-add k j c ds, eq_ℤ_iff d.fd k, eq_ℤ_iff d.fd j, eq_ℤ_iff k j)

pub added-add :
    (k j : ℤ) (c : Condition) (ds : List Desc) → added j (add_or_update k c ds) ≡ added j ds
unfolding added add_or_update
added-add k j c [] = ground arith
added-add k j c (d ∷ ds) = ground (arith, added-add k j c ds)

pub add-IsDistinct :
    (k : ℤ) (c : Condition) (ds : List Desc) → IsDistinct ds → IsDistinct (add_or_update k c ds)
unfolding add_or_update has
add-IsDistinct k c [] h = (refl, tt)
add-IsDistinct k c (d ∷ ds) h =
    ground (arith, add-IsDistinct k c ds, has-add k d.fd c ds, eq_ℤ_iff d.fd k, eq_ℤ_iff k d.fd)

pub has-remove : (k j : ℤ) (ds : List Desc) → has j ds ≡ false → has j (remove k ds) ≡ false
unfolding has remove
has-remove k j [] h = h
has-remove k j (d ∷ ds) h = ground (arith, has-remove k j ds)

pub remove-IsDistinct : (k : ℤ) (ds : List Desc) → IsDistinct ds → IsDistinct (remove k ds)
unfolding remove
remove-IsDistinct k [] h = tt
remove-IsDistinct k (d ∷ ds) h = ground (arith, remove-IsDistinct k ds, has-remove k d.fd ds)

-- What is left of the flags when a descriptor goes.
pub added-remove :
    (k j : ℤ) (ds : List Desc)
    → IsDistinct ds
    → added j (remove k ds) ≡ (if eq_ℤ k j then 0 else added j ds)
unfolding added remove
added-remove k j [] h = ground arith
added-remove k j (d ∷ ds) h = ground (
  arith,
  added-remove k j ds,
  added-has k ds,
  added-has j ds,
  eq_ℤ_iff d.fd k,
  eq_ℤ_iff d.fd j,
  eq_ℤ_iff k j,
)

pub flag-lookup :
    (k : ℤ) (ds : List Desc) {d : Desc}
    → IsDistinct ds
    → lookup k ds ≡ some d
    → (d.fd ≡ k) × (added k ds ≡ (if d.poll_added then 1 else 0))
unfolding lookup added
flag-lookup k [] h e = ground arith
flag-lookup k (x ∷ ds) {d} h e =
    ground (arith, flag-lookup k ds {d = d}, added-has k ds, eq_ℤ_iff x.fd k)

pub lookup-has : (k : ℤ) (ds : List Desc) → has k ds ≡ false → lookup k ds ≡ none
unfolding has lookup
lookup-has k [] h = refl
lookup-has k (d ∷ ds) h = ground (arith, lookup-has k ds)

-- A table entry after an update: the conditions are new, the rest of an old entry stays.
pub lookup-add :
    (k j : ℤ) (c : Condition) (ds : List Desc)
    → lookup j (add_or_update k c ds)
      ≡ (if eq_ℤ k j then some (updated k c (lookup k ds)) else lookup j ds)
unfolding lookup add_or_update
lookup-add k j c [] = ground (arith, eq_ℤ_iff k j)
lookup-add k j c (d ∷ ds) =
    ground (arith, lookup-add k j c ds, eq_ℤ_iff d.fd k, eq_ℤ_iff d.fd j, eq_ℤ_iff k j)

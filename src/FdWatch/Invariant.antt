-- ===== src/FdWatch/Invariant.antt =====
-- The table of src/psl_multi_fd_watch.c and the poll records that glib holds: each operation keeps
-- them in step, so glib never polls a record whose memory was freed with its table entry.
use libpalmsocket.Base.{
  ℕ, suc, ◌+◌, ◌-◌, ◌≡◌, refl, sym, ◌∙◌, Bool, true, ◌&&◌, ◌≤◌, Option, none, some, List, [], ◌∷◌,
  ℤ, eq_ℤ, eq_ℤ_iff, eq_ℤ_refl, if◌then◌else◌, arith, Option-cases, inl, inr,
}
use libpalmsocket.FdWatch.Conditions.{Condition, is_set}
use libpalmsocket.FdWatch.Table.{Desc, lookup, remove, count, has, added, IsDistinct}
use libpalmsocket.FdWatch.Table.Laws.{
  count-erase, added-has, added-add, add-IsDistinct, remove-IsDistinct, added-remove, flag-lookup,
}
use libpalmsocket.Time.{Timespec}
use libpalmsocket.FdWatch.{
  Watch, new, add_or_update_fd, remove_fd, remove_poll, remove_polls, reset, prepare, prepare_poll,
  prepare_loop,
}

-- Descriptors are distinct, and glib holds exactly the poll records that are flagged, once each.
pub record IsValid (w : Watch) : Type 0 where
  pub distinct : IsDistinct w.desc_table
  pub in_step : (k : ℤ) → count k w.polls ≡ added k w.desc_table

pub new-IsValid : IsValid new
unfolding new count added
new-IsValid = record { distinct = tt; in_step = λ k. refl }

-- Adding a descriptor, or changing what it waits for, keeps a watch valid.
pub add_or_update_fd-IsValid :
    {w : Watch} (k : ℤ) (c : Condition) → IsValid w → IsValid (add_or_update_fd w k c)
unfolding add_or_update_fd
add_or_update_fd-IsValid {w} k c v = record {
  distinct = add-IsDistinct k c w.desc_table v.distinct;
  in_step = λ j. v.in_step j ∙ sym (added-add k j c w.desc_table);
}

drop_found :
    (w : Watch) (k : ℤ) (d : Desc)
    → IsValid w
    → (d.fd ≡ k) × (added k w.desc_table ≡ (if d.poll_added then 1 else 0))
    → IsValid (record w { desc_table = remove d.fd w.desc_table; polls = remove_poll d w.polls })
drop_found w k d v f = record {
  distinct = remove-IsDistinct d.fd w.desc_table v.distinct;
  in_step = λ j. ground (
    arith,
    v.in_step j,
    v.in_step k,
    count-erase d.fd j w.polls,
    added-remove d.fd j w.desc_table v.distinct,
    eq_ℤ_iff d.fd j,
  );
}

-- Removing a descriptor keeps a watch valid: its poll record leaves glib's list with it.
pub remove_fd-IsValid : {w : Watch} (k : ℤ) → IsValid w → IsValid (remove_fd w k).0
unfolding remove_fd
remove_fd-IsValid {w} k v = elim (Option-cases (lookup k w.desc_table)) [
  | inl gone ↦ rw gone v
  | inr (d, found) ↦ rw found (drop_found w k d v (flag-lookup k w.desc_table v.distinct found))
]

-- Clearing the table takes out of glib's list exactly what the table's flags count.
count-remove_polls :
    (k : ℤ) (ds : List Desc) (polls : List ℤ)
    → count k (remove_polls ds polls) ≡ count k polls - added k ds
unfolding remove_polls added
count-remove_polls k [] polls = omega arith
count-remove_polls k (d ∷ ds) polls =
    ground (arith, count-remove_polls k ds (remove_poll d polls), count-erase d.fd k polls)

nil_of_count : (xs : List ℤ) → ((k : ℤ) → count k xs ≡ 0) → xs ≡ []
unfolding count
nil_of_count [] h = refl
nil_of_count (x ∷ xs) h = ground (arith, h x, eq_ℤ_refl x)

-- A reset of a valid watch leaves no descriptor, no poll record with glib, and no timeout.
pub reset_lem :
    {w : Watch}
    → IsValid w
    → ((reset w).desc_table ≡ [])
      × ((reset w).polls ≡ [])
      × ((reset w).timeout_millisec ≡ none)
      × IsValid (reset w)
unfolding reset
reset_lem {w} v = (
  refl,
  gone,
  refl,
  record { distinct = tt; in_step = λ k. empty k ∙ sym (unfold added in refl) },
)
  where
    empty : (k : ℤ) → count k (remove_polls w.desc_table w.polls) ≡ 0
    empty k = omega (arith, count-remove_polls k w.desc_table w.polls, v.in_step k)

    gone : remove_polls w.desc_table w.polls ≡ []
    gone = nil_of_count _ empty

has-prepare_loop :
    (k : ℤ) (ds : List Desc) (polls : List ℤ) → has k (prepare_loop ds polls).0 ≡ has k ds
unfolding prepare_loop has
has-prepare_loop k [] polls = refl
has-prepare_loop k (d ∷ ds) polls = ground (arith, has-prepare_loop k ds (prepare_poll d polls))

prepare_loop-IsDistinct :
    (ds : List Desc) (polls : List ℤ) → IsDistinct ds → IsDistinct (prepare_loop ds polls).0
unfolding prepare_loop
prepare_loop-IsDistinct [] polls h = tt
prepare_loop-IsDistinct (d ∷ ds) polls h =
    (has-prepare_loop d.fd ds _ ∙ h.0, prepare_loop-IsDistinct ds (prepare_poll d polls) h.1)

-- The flags after the loop do not depend on glib's list.
abbrev pub wanted : ℤ → List Desc → ℕ
wanted k [] = 0
wanted k (d ∷ ds) =
    if eq_ℤ d.fd k
    then (if is_set d.events then suc (wanted k ds) else wanted k ds)
    else wanted k ds

added-prepare_loop :
    (k : ℤ) (ds : List Desc) (polls : List ℤ) → added k (prepare_loop ds polls).0 ≡ wanted k ds
unfolding prepare_loop added
added-prepare_loop k [] polls = refl
added-prepare_loop k (d ∷ ds) polls = ground (arith, added-prepare_loop k ds (prepare_poll d polls))

count-prepare_poll :
    (k : ℤ) (d : Desc) (polls : List ℤ)
    → (d.poll_added ≡ true → 1 ≤ count d.fd polls)
    → count k (prepare_poll d polls) + (if eq_ℤ d.fd k && d.poll_added then 1 else 0)
      ≡ count k polls + (if eq_ℤ d.fd k && is_set d.events then 1 else 0)
unfolding count
count-prepare_poll k d polls h = ground (arith, count-erase d.fd k polls, eq_ℤ_iff d.fd k)

tail_flagged :
    (d : Desc) (ds : List Desc) (polls : List ℤ)
    → IsDistinct (d ∷ ds)
    → ((j : ℤ) → added j (d ∷ ds) ≤ count j polls)
    → (j : ℤ) → added j ds ≤ count j (prepare_poll d polls)
unfolding added
tail_flagged d ds polls h f j = ground (
  arith,
  f j,
  f d.fd,
  eq_ℤ_refl d.fd,
  eq_ℤ_iff d.fd j,
  added-has d.fd ds h.0,
  count-prepare_poll j d polls,
)

count-prepare_loop :
    (ds : List Desc) (polls : List ℤ)
    → IsDistinct ds
    → ((j : ℤ) → added j ds ≤ count j polls)
    → (k : ℤ) → count k (prepare_loop ds polls).1 + added k ds ≡ count k polls + wanted k ds
unfolding prepare_loop added
count-prepare_loop [] polls h f k = refl
count-prepare_loop (d ∷ ds) polls h f k = ground (
  arith,
  f d.fd,
  eq_ℤ_refl d.fd,
  count-prepare_poll k d polls,
  count-prepare_loop ds (prepare_poll d polls) h.1 (tail_flagged d ds polls h f) k,
)

-- What the loop of `prepare` leaves: a valid watch, in which glib polls exactly the descriptors that
-- have a condition to wait for.
pub prepared-IsValid :
    {w : Watch}
    → IsValid w
    → (IsDistinct (prepare_loop w.desc_table w.polls).0)
      × ((k : ℤ)
          → (count k (prepare_loop w.desc_table w.polls).1
              ≡ added k (prepare_loop w.desc_table w.polls).0)
            × (count k (prepare_loop w.desc_table w.polls).1 ≡ wanted k w.desc_table))
prepared-IsValid {w} v = (
  prepare_loop-IsDistinct w.desc_table w.polls v.distinct,
  λ k. (polled k ∙ sym (added-prepare_loop k w.desc_table w.polls), polled k),
)
  where
    polled : (k : ℤ) → count k (prepare_loop w.desc_table w.polls).1 ≡ wanted k w.desc_table
    polled k = omega (
      arith,
      v.in_step k,
      count-prepare_loop w.desc_table w.polls v.distinct (λ j. omega (arith, v.in_step j)) k,
    )

prepare-fields :
    (w : Watch) (now : Option Timespec) {w' : Watch} {t : ℤ} {r : Bool}
    → prepare w now ≡ some (w', t, r)
    → (w'.desc_table ≡ (prepare_loop w.desc_table w.polls).0)
      × (w'.polls ≡ (prepare_loop w.desc_table w.polls).1)
unfolding prepare
prepare-fields w now e = ground arith

-- Where `prepare` returns, a valid watch is valid again, and glib polls a descriptor, once, exactly if the
-- table has it with a condition to wait for.
pub prepare-IsValid :
    {w w' : Watch} (now : Option Timespec) {t : ℤ} {r : Bool}
    → IsValid w
    → prepare w now ≡ some (w', t, r)
    → IsValid w' × ((k : ℤ) → count k w'.polls ≡ wanted k w.desc_table)
prepare-IsValid {w} {w'} now v e =
    let (table, polls) = prepare-fields w now e in
    let (distinct, counted) = prepared-IsValid v in
    (
      record { distinct = rw table distinct; in_step = λ k. rw (table, polls) (counted k).0 },
      λ k. rw polls (counted k).1,
    )

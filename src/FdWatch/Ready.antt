-- ===== src/FdWatch/Ready.antt =====
-- What src/psl_multi_fd_watch.c reports to the user's callback.
use libpalmsocket.Base.{
  ◌&&◌, ◌||◌, ◌∙◌, ap, ◌⊎◌, ◌≡◌, ◌≢◌, ◌↔◌, refl, Bool, true, false, Option, none, some, List, [],
  ◌∷◌, ℤ, eq_ℤ, eq_ℤ_iff, if◌then◌else◌, ◌>>=◌, arith,
}
use libpalmsocket.Time.{Timespec}
use libpalmsocket.FdWatch.Conditions.{Condition, is_set, indicated}
use libpalmsocket.FdWatch.Table.{Desc, PollRec, lookup, IsDistinct}
use libpalmsocket.FdWatch.Table.Laws.{lookup-has}
use libpalmsocket.FdWatch.{Watch, any_ready, ready_recs, check, is_timer_expired, dispatch}

-- All the records of one descriptor
abbrev pub recs_of : ℤ → List PollRec → List PollRec
recs_of k [] = []
recs_of k (r ∷ rs) = let rest = recs_of k rs in if eq_ℤ r.fd k then r ∷ rest else rest

-- What is indicated of a descriptor: what it waits for, and the failures whether it does or not.
abbrev pub seen : Desc → Condition
seen d = record {
  io_in = d.revents.io_in && d.events.io_in;
  io_pri = d.revents.io_pri && d.events.io_pri;
  io_out = d.revents.io_out && d.events.io_out;
  io_err = d.revents.io_err;
  io_hup = d.revents.io_hup;
  io_nval = d.revents.io_nval;
}

-- The record of a condition: none where nothing is set in it.
abbrev pub record_of : Desc → Condition → List PollRec
record_of d c =
    if c.io_in || c.io_pri || c.io_out || c.io_err || c.io_hup || c.io_nval
    then record { fd = d.fd; req_events = d.events; ind_events = c } ∷ []
    else []

-- What the callback should hear of a descriptor.
abbrev pub report : Option Desc → List PollRec
report none = []
report (some d) = record_of d (seen d)

-- the same with the mask of the code
abbrev masked : Option Desc → List PollRec
masked none = []
masked (some d) =
    if is_set (indicated d.revents d.events)
    then record { fd = d.fd; req_events = d.events; ind_events = indicated d.revents d.events } ∷ []
    else []

masked-report : (o : Option Desc) → masked o ≡ report o
masked-report none = refl
masked-report (some d) = refl

recs_of-ready :
    (k : ℤ) (ds : List Desc) → IsDistinct ds → recs_of k (ready_recs ds) ≡ masked (lookup k ds)
unfolding ready_recs lookup
recs_of-ready k [] h = refl
recs_of-ready k (d ∷ ds) h =
    ground (arith, recs_of-ready k ds h.1, lookup-has k ds, eq_ℤ_iff d.fd k)

any_ready-recs : (ds : List Desc) → any_ready ds ≡ true ↔ ready_recs ds ≢ []
unfolding any_ready ready_recs
any_ready-recs [] = ground arith
any_ready-recs (d ∷ ds) = ground (arith, any_ready-recs ds)

-- `dispatch` hands the callback, for every descriptor, exactly the report that is due to it, where the
-- table has no duplicates: one record where a condition that it waits for or a failure is indicated, with
-- that descriptor's own conditions, and no record otherwise, or where the table has no such descriptor.
pub dispatch_lem :
    (w : Watch) (k : ℤ)
    → IsDistinct w.desc_table
    → ((dispatch w true).1 >>= λ recs. some (recs_of k recs))
      ≡ some (report (lookup k w.desc_table))
unfolding dispatch
dispatch_lem w k h =
    ap some (recs_of-ready k w.desc_table h ∙ masked-report (lookup k w.desc_table))

-- Where `check` says that the source is ready, the timer has expired or `dispatch` has a record to
-- report; and where it says that it is not, the timer has not expired and `dispatch` reports none.
pub check-dispatch :
    (w : Watch) (now : Option Timespec) {ready expired : Bool}
    → check w now ≡ some ready
    → is_timer_expired w now ≡ some expired
    → ((ready ≡ true) × ((expired ≡ true) ⊎ ((dispatch w true).1 ≢ some [])))
      ⊎ ((ready ≡ false) × (expired ≡ false) × ((dispatch w true).1 ≡ some []))
unfolding check dispatch
check-dispatch w now {ready} {expired} e x = ground (arith, any_ready-recs w.desc_table)

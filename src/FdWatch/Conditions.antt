-- ===== src/FdWatch/Conditions.antt =====
-- `GIOCondition` of glib, a set of flags, and the masks of src/psl_common.h.
use libpalmsocket.Base.{Bool, true, false, ◌&&◌, ◌||◌}

pub record Condition : Type 0 where
  pub io_in : Bool
  pub io_pri : Bool
  pub io_out : Bool
  pub io_err : Bool
  pub io_hup : Bool
  pub io_nval : Bool

abbrev pub nothing : Condition
nothing = record {
  io_in = false;
  io_pri = false;
  io_out = false;
  io_err = false;
  io_hup = false;
  io_nval = false;
}

-- G_IO_OUT
abbrev pub only_out : Condition
only_out = record nothing { io_out = true }

-- a condition that is not 0
abbrev pub is_set : Condition → Bool
is_set c = c.io_in || c.io_pri || c.io_out || c.io_err || c.io_hup || c.io_nval

-- `c & PSL_FAIL_GIOCONDITIONS` is not 0
abbrev pub has_failure : Condition → Bool
has_failure c = c.io_err || c.io_hup || c.io_nval

-- `revents & (events | PSL_FAIL_GIOCONDITIONS)`
abbrev pub indicated : Condition → Condition → Condition
indicated r e = record {
  io_in = r.io_in && e.io_in;
  io_pri = r.io_pri && e.io_pri;
  io_out = r.io_out && e.io_out;
  io_err = r.io_err;
  io_hup = r.io_hup;
  io_nval = r.io_nval;
}

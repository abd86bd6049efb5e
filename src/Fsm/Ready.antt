-- ===== src/Fsm/Ready.antt =====
-- When a transition may begin: the request buffer of src/psl_sme.c.
use libpalmsocket.Base.{◌≡◌, true, Option, none, some, arith}
use libpalmsocket.Errors.{PslError, is_error}
use libpalmsocket.Fsm.Types.{
  StateId, plain_conn, plain_lookup, plain_fail, ConnectArgs, AddrText, BeginArg, plain_conn_arg,
  plain_lookup_arg, plain_fail_arg, Fsm,
}
use libpalmsocket.Fsm.Transitions.{
  begin_transition, stored, ref_ctx, goto_plain_conn, goto_plain_lookup, goto_plain_fail,
}

-- What may be asked for a transition: a handler is running, and no argument waits for another one.
pub record IsReady (f : Fsm) : Type 0 where
  pub dispatching : f.in_evt_dispatch ≡ true
  pub no_request : f.begin_arg ≡ none

-- The transition, once it is granted
abbrev pub going : StateId → Option BeginArg → Fsm → Fsm
going t arg f = record f { target = some t; begin_arg = stored t arg f.begin_arg }

-- A transition that may begin does begin.
pub begin_transition_lem :
    (t : StateId) (arg : Option BeginArg) (f : Fsm)
    → IsReady f
    → begin_transition t arg f ≡ some (going t arg f)
unfolding begin_transition
begin_transition_lem t arg f r = ground arith

pub ref_ctx-IsReady : (a : ConnectArgs) (f : Fsm) → IsReady f → IsReady (ref_ctx a f)
ref_ctx-IsReady a f r = record { dispatching = r.dispatching; no_request = r.no_request }

pub goto_plain_conn_lem :
    (a : ConnectArgs) (text : AddrText) (f : Fsm)
    → IsReady f
    → goto_plain_conn a text f
      ≡ some (going plain_conn (some (plain_conn_arg a text)) (ref_ctx a f))
unfolding goto_plain_conn
goto_plain_conn_lem a text f r =
    begin_transition_lem plain_conn (some (plain_conn_arg a text)) (ref_ctx a f)
      (ref_ctx-IsReady a f r)

pub goto_plain_lookup_lem :
    (a : ConnectArgs) (f : Fsm)
    → IsReady f
    → goto_plain_lookup a f ≡ some (going plain_lookup (some (plain_lookup_arg a)) (ref_ctx a f))
unfolding goto_plain_lookup
goto_plain_lookup_lem a f r =
    begin_transition_lem plain_lookup (some (plain_lookup_arg a)) (ref_ctx a f)
      (ref_ctx-IsReady a f r)

pub goto_plain_fail_lem :
    (e : PslError) (f : Fsm)
    → is_error e ≡ true
    → IsReady f
    → goto_plain_fail e f ≡ some (going plain_fail (some (plain_fail_arg e)) f)
unfolding goto_plain_fail begin_transition
goto_plain_fail_lem e f h r = ground arith

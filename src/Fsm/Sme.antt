-- ===== src/Fsm/Sme.antt =====
-- Dispatching events to the state handlers: src/psl_sme.c and src/psl_sme.h on top of the state machine
-- engine, whose FsmDispatchEvent is a parameter.
use libpalmsocket.Base.{
  ℕ, ◌==◌, Bool, true, false, not, Option, none, some, ◌>>=◌, ◌>>◌, psl_assert,
}
use libpalmsocket.Fsm.Types.{
  Status, not_handled, StateId, final, alive, init, closed, plain_mode, plain_fail, plain_lookup,
  plain_conn, plain_tcp, plain_shut, crypto_mode, crypto_fail, crypto_conn, crypto_ssl,
  crypto_renegotiate, crypto_shut, BeginArg, UserEvent, Event, enter_scope, exit_scope, begin, user,
  Fsm,
}

-- An event as the engine dispatches it: it knows nothing of arguments of kFsmEventBegin.
pub data RawEvent : Type 0 where
  raw_enter_scope raw_exit_scope raw_begin : RawEvent
  raw_user : UserEvent → RawEvent

-- States are compared as pointers; they are numbered here.
abbrev pub state_index : StateId → ℕ
state_index final = 0
state_index alive = 1
state_index init = 2
state_index closed = 3
state_index plain_mode = 4
state_index plain_fail = 5
state_index plain_lookup = 6
state_index plain_conn = 7
state_index plain_tcp = 8
state_index plain_shut = 9
state_index crypto_mode = 10
state_index crypto_fail = 11
state_index crypto_conn = 12
state_index crypto_ssl = 13
state_index crypto_renegotiate = 14
state_index crypto_shut = 15

abbrev pub is_handled : Status → Bool
is_handled not_handled = false
is_handled _ = true

-- The machine together with the `status` of the event's result, and whether the event was handled
abbrev pub Run : Type 0
Run = Option ((Fsm × Status) × Bool)

abbrev pub Handlers : Type 0
Handlers = StateId → Event → Fsm → Option (Fsm × Status)

-- The argument that waits for kFsmEventBegin, which has to be meant for this state
abbrev pub reap : StateId → Option (StateId × BeginArg) → Option (Option BeginArg)
reap s none = some none
reap s (some (t, a)) = psl_assert (state_index s == state_index t) >> some (some a)

-- A system event leaves the result's status alone.
abbrev pub system_done : Status → Option (Fsm × Status) → Run
system_done res m = m >>= λ x. some ((x.0, res), is_handled x.1)

abbrev pub user_done : Option (Fsm × Status) → Run
user_done m = m >>= λ x. some ((x.0, x.1), is_handled x.1)

-- `psl_sme_default_state_evt_handler`
unfoldable pub default_state_evt_handler : Handlers → StateId → RawEvent → Fsm × Status → Run
default_state_evt_handler handler s raw_enter_scope (f, res) =
    system_done res (handler s enter_scope f)
default_state_evt_handler handler s raw_exit_scope (f, res) =
    system_done res (handler s exit_scope f)
default_state_evt_handler handler s raw_begin (f, res) = reap s f.begin_arg >>= λ a.
    system_done res (handler s (begin a) (record f { begin_arg = none }))
default_state_evt_handler handler s (raw_user u) (f, res) = user_done (handler s (user u) f)

-- FsmDispatchEvent, given the machine's handler of each state
abbrev pub Engine : Type 0
Engine = (StateId → RawEvent → Fsm × Status → Run) → RawEvent → Fsm × Status → Run

abbrev eq_bool : Bool → Bool → Bool
eq_bool true b = b
eq_bool false b = not b

abbrev pub dispatched : (Fsm × Status) × Bool → Option (Fsm × Status)
dispatched ((f, res), handled) =
    psl_assert (eq_bool handled (is_handled res))
    >> some (record f { in_evt_dispatch = false }, res)

-- `psl_sme_dispatch_event`
unfoldable pub dispatch_event : Engine → Handlers → UserEvent → Fsm → Option (Fsm × Status)
unfolding default_state_evt_handler
dispatch_event engine handler u f =
    psl_assert (not f.in_evt_dispatch)
    >> (engine (default_state_evt_handler handler) (raw_user u)
          (record f { in_evt_dispatch = true }, not_handled)
        >>= dispatched)

-- ===== src/Fsm/Delivery.antt =====
-- What src/psl_sme.c promises of the argument of a transition.
use libpalmsocket.Base.{◌≡◌, ◌⊎◌, none, some, arith}
use libpalmsocket.Fsm.Types.{Status, StateId, BeginArg, begin, Fsm}
use libpalmsocket.Fsm.Transitions.{begin_transition}
use libpalmsocket.Fsm.Sme.{raw_begin, state_index, Handlers, system_done, default_state_evt_handler}
use libpalmsocket.Fsm.Ready.{IsReady}

-- An argument given with a transition reaches the handler of kFsmEventBegin of the target state, which
-- finds the buffer empty again so that it may begin a transition itself; at any other state the
-- assertion fails.
pub default_state_evt_handler-begin_transition :
    (h : Handlers) (s t : StateId) (a : BeginArg) (res : Status) (f : Fsm) {g : Fsm}
    → begin_transition t (some a) f ≡ some g
    → (default_state_evt_handler h t raw_begin (g, res)
        ≡ system_done res (h t (begin (some a)) (record g { begin_arg = none })))
      × IsReady (record g { begin_arg = none })
      × ((state_index s ≡ state_index t)
          ⊎ (default_state_evt_handler h s raw_begin (g, res) ≡ none))
unfolding default_state_evt_handler begin_transition
default_state_evt_handler-begin_transition h s t a res f e = ground arith

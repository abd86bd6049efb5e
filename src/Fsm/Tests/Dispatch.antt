-- ===== src/Fsm/Tests/Dispatch.antt =====
-- Runs of the dispatch of events and callbacks of the channel's state machine.
use libpalmsocket.Base.{◌≡◌, ◌⊎◌, refl, true, false, Option, some, none, [], ◌∷◌}
use libpalmsocket.Errors.{no_error, pslerror_from_connect_errno}
use libpalmsocket.FdWatch.{new, reset}
use libpalmsocket.Fsm.Types.{
  Status, success, init, plain_conn, plain_tcp, plain_conn_arg, begin, user, UserEvent, fd_watch,
  Fsm, no_cb, completion_cb, user_callback,
}
use libpalmsocket.Fsm.Transitions.{begin_transition}
use libpalmsocket.Fsm.Sme.{raw_begin, Handlers, default_state_evt_handler, system_done, state_index}
use libpalmsocket.Fsm.Main.{alive_handler}
use libpalmsocket.Fsm.Conn.{plain_conn_handler}
use libpalmsocket.Fsm.Callbacks.{fd_watch_cb}
use libpalmsocket.Fsm.Ready.{IsReady}
use libpalmsocket.Fsm.Delivery.{default_state_evt_handler-begin_transition}
use libpalmsocket.Fsm.Closing.{fd_watch_cb_lem}
use libpalmsocket.Errors.{bad_serv_addr}
use libpalmsocket.Inet.{af_inet}
use libpalmsocket.Fsm.Types.{Hosts, plain_fail}
use libpalmsocket.Fsm.Plain.{plain_lookup_handler}
use libpalmsocket.Fsm.Events.{host_lookup_cb}
use libpalmsocket.Fsm.Running.{host_lookup_cb_lem}
use libpalmsocket.Fsm.Fixtures.{sys, plain_args, some_addr, fresh, connecting, writeable}

abbrev asked : Fsm
asked = record fresh {
  target = some plain_conn;
  begin_arg = some (plain_conn, plain_conn_arg plain_args some_addr);
}

asked_run :
    begin_transition plain_conn (some (plain_conn_arg plain_args some_addr)) fresh ≡ some asked
unfolding begin_transition
asked_run = refl

-- every state handled as ALIVE
abbrev as_alive : Handlers
as_alive s e f = alive_handler e f

default_state_evt_handler-begin_transition_example :
    (default_state_evt_handler as_alive plain_conn raw_begin (asked, success)
      ≡ system_done success (
          as_alive plain_conn
            (begin (some (plain_conn_arg plain_args some_addr)))
            (record asked { begin_arg = none })))
    × IsReady (record asked { begin_arg = none })
    × ((state_index init ≡ state_index plain_conn)
        ⊎ (default_state_evt_handler as_alive init raw_begin (asked, success) ≡ none))
default_state_evt_handler-begin_transition_example =
    default_state_evt_handler-begin_transition as_alive init plain_conn
      (plain_conn_arg plain_args some_addr) success fresh asked_run

-- The connection is made, and its callback is due.
abbrev in_conn : UserEvent → Fsm → Option (Fsm × Status)
in_conn u f = plain_conn_handler sys (user u) f

abbrev connected : Fsm
connected = record connecting {
  watch = some (reset new);
  target = some plain_tcp;
  completion = record { cb = completion_cb 1; psl_err = no_error; switching_to_crypto = false };
}

connected_run : in_conn (fd_watch (writeable ∷ [])) connecting ≡ some (connected, success)
unfolding plain_conn_handler pslerror_from_connect_errno
connected_run = refl

fd_watch_cb_lem_example :
    (h : Fsm) × (fd_watch_cb in_conn (writeable ∷ []) (record connecting { in_fd_watch_cb = false })
      ≡ some h)
    × (h.in_fd_watch_cb ≡ false)
    × (h.completion.cb ≡ no_cb)
    × (((h.calls ≡ connected.calls)
          × ((connected.fsm_closed ≡ true) ⊎ (connected.completion.cb ≡ no_cb)))
        ⊎ ((connected.fsm_closed ≡ false)
            × (h.calls ≡ user_callback (completion_cb 1) no_error false ∷ connected.calls)))
fd_watch_cb_lem_example =
    fd_watch_cb_lem in_conn (writeable ∷ []) (record connecting { in_fd_watch_cb = false }) refl
      connected_run

-- The host lookup's callback

abbrev in_lookup : UserEvent → Fsm → Option (Fsm × Status)
in_lookup u f = plain_lookup_handler sys (user u) f

abbrev nowhere : Hosts
nowhere = record { addr_type = af_inet; first_addr = none }

abbrev looking_up : Fsm
looking_up = record fresh { lookup_args = plain_args; lookup_ses = true }

host_lookup_cb_lem_example :
    (g : Fsm) × (host_lookup_cb in_lookup no_error (some nowhere) looking_up ≡ some g)
    × (g.target ≡ some plain_fail)
    × (((false ≡ false) × (g.last_error ≡ bad_serv_addr) × (g.calls ≡ []))
        ⊎ ((false ≡ true)
            × (g.last_error ≡ no_error)
            × ((completion_cb 1 ≡ no_cb)
                ⊎ (g.calls ≡ user_callback (completion_cb 1) no_error false ∷ []))))
host_lookup_cb_lem_example =
    host_lookup_cb_lem sys no_error nowhere looking_up
      (record { dispatching = refl; no_request = refl }) refl refl refl

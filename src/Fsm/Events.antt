-- ===== src/Fsm/Events.antt =====
-- Events from outside the state machine: psl_chan_fsm_evt_dispatch_full_ of
-- src/psl_channel_fsm_events.c, psl_chan_fsm_finalize of src/psl_channel_fsm_main.c and
-- plain_host_lookup_cb of src/psl_channel_fsm_plain.c, given the dispatch of events by src/psl_sme.h.
-- `none` is a failed assertion, or that the fuel has run out.
use libpalmsocket.Base.{
  ℕ, zero, suc, Bool, true, false, not, ◌||◌, Option, none, some, if◌then◌else◌, ◌>>=◌, ◌>>◌,
  psl_assert,
}
use libpalmsocket.Errors.{PslError, is_error}
use libpalmsocket.Inet.{af_inet, af_inet6}
use libpalmsocket.Fsm.Types.{
  Status, Hosts, is_crypto_conn_kind, UserEvent, close, finalize, heartbeat, lookup_done, Fsm,
}
use libpalmsocket.Fsm.Sme.{is_handled}
use libpalmsocket.Fsm.Callbacks.{dispatch_completion_cb}

-- `psl_chan_fsm_evt_req_heartbeat`
unfoldable pub req_heartbeat : Fsm → Option Fsm
req_heartbeat f = psl_assert f.in_evt_dispatch >> some (record f { heartbeat_pending = true })

module _ (dispatch : UserEvent → Fsm → Option (Fsm × Status)) where
  -- One round of the loop: HEARTBEAT has to be handled.
  abbrev pub beat : Fsm → Option Fsm
  beat f = do
    (g, status) ← dispatch heartbeat (record f { heartbeat_pending = false })
    psl_assert (is_handled status)
    some g

  -- `while (fsm->heartbeatPending)`, on fuel
  unfoldable pub heartbeats : ℕ → Fsm → Option Fsm
  heartbeats zero f = if f.heartbeat_pending then none else some f
  heartbeats (suc n) f = elim f.heartbeat_pending [
    | true ↦ beat f >>= λ g. heartbeats n g
    | false ↦ some f
  ]

  -- `psl_chan_fsm_evt_dispatch_full_`
  unfoldable pub dispatch_full : ℕ → UserEvent → Fsm → Option (Fsm × Status)
  unfolding heartbeats
  dispatch_full n e f = do
    psl_assert (not f.heartbeat_pending)
    (g, status) ← dispatch e f
    psl_assert (is_handled status)
    h ← heartbeats n g
    some (h, status)

  abbrev close_first : Fsm → Option Fsm
  close_first f =
      if f.fsm_closed
      then some f
      else (do (g, status) ← dispatch close f; psl_assert g.fsm_closed; some g)

  -- `psl_chan_fsm_finalize`, where `dispatch` is that of full events
  unfoldable pub finalize_fsm : Fsm → Option Fsm
  finalize_fsm f =
      if f.fsm_started
      then (do g ← close_first f; (h, status) ← dispatch finalize g; some h)
      else some f

  abbrev is_inet_hosts : Option Hosts → Bool
  is_inet_hosts none = false
  is_inet_hosts (some h) = elim h.addr_type [ af_inet ↦ true | af_inet6 ↦ true | _ ↦ false ]

  abbrev lookup_call_back : PslError → Fsm → Fsm
  unfolding dispatch_completion_cb
  lookup_call_back e f =
      if is_error e
      then dispatch_completion_cb f.lookup_args.cb e (is_crypto_conn_kind f.lookup_args.conn_kind) f
      else f

  -- `plain_host_lookup_cb`
  unfoldable pub host_lookup_cb : PslError → Option Hosts → Fsm → Option Fsm
  unfolding lookup_call_back
  host_lookup_cb e hosts f = do
    psl_assert (is_error e || is_inet_hosts hosts)
    (g, status) ← dispatch (lookup_done e hosts) f
    some (lookup_call_back e g)

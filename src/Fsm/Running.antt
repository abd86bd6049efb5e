-- ===== src/Fsm/Running.antt =====
-- What the callback of the host lookup promises.
use libpalmsocket.Base.{
  ◌≡◌, ◌⊎◌, inl, inr, refl, Bool, true, false, Bool-cases, none, some, ◌∷◌, arith,
}
use libpalmsocket.Errors.{PslError, bad_serv_addr, is_error}
use libpalmsocket.Inet.{af_inet}
use libpalmsocket.Fsm.Types.{
  plain_fail, plain_fail_arg, CompletionCb, no_cb, Hosts, is_crypto_conn_kind, user, Fsm,
  user_callback,
}
use libpalmsocket.Fsm.Transitions.{goto_plain_fail}
use libpalmsocket.Fsm.Callbacks.{dispatch_completion_cb}
use libpalmsocket.Fsm.System.{Sys}
use libpalmsocket.Fsm.Plain.{plain_lookup_handler}
use libpalmsocket.Fsm.Events.{host_lookup_cb}
use libpalmsocket.Fsm.Ready.{goto_plain_fail_lem, IsReady, going}

called_back :
    (cb : CompletionCb) (e : PslError) (to_crypto : Bool) (f : Fsm)
    → f.fsm_closed ≡ false
    → ((dispatch_completion_cb cb e to_crypto f).target ≡ f.target)
      × ((dispatch_completion_cb cb e to_crypto f).last_error ≡ f.last_error)
      × ((cb ≡ no_cb)
          ⊎ ((dispatch_completion_cb cb e to_crypto f).calls
              ≡ user_callback cb e to_crypto ∷ f.calls))
unfolding dispatch_completion_cb
called_back cb e to_crypto f h = ground arith

-- The channel on its way to FAIL
abbrev failed_with : PslError → Fsm → Fsm
failed_with e f = going plain_fail (some (plain_fail_arg e)) (record f { last_error = e })

-- Where a host lookup ends with hosts of AF_INET that have no address, in the LOOKUP state of a channel
-- that is not closed and may begin a transition, the channel goes on to FAIL. If the lookup reports an
-- error, that is the channel's last error and the user is called back with it once, if there is a
-- callback; if it reports none, the last error is PSL_ERR_BAD_SERV_ADDR and the user is not called back.
pub host_lookup_cb_lem :
    (sys : Sys) (e : PslError) (h : Hosts) (f : Fsm)
    → IsReady f
    → f.fsm_closed ≡ false
    → h.addr_type ≡ af_inet
    → h.first_addr ≡ none
    → (g : Fsm) × (host_lookup_cb (λ u k. plain_lookup_handler sys (user u) k) e (some h) f
        ≡ some g)
      × (g.target ≡ some plain_fail)
      × (((is_error e ≡ false) × (g.last_error ≡ bad_serv_addr) × (g.calls ≡ f.calls))
          ⊎ ((is_error e ≡ true)
              × (g.last_error ≡ e)
              × ((f.lookup_args.cb ≡ no_cb)
                  ⊎ (g.calls
                      ≡ user_callback f.lookup_args.cb e
                          (is_crypto_conn_kind f.lookup_args.conn_kind)
                        ∷ f.calls))))
unfolding host_lookup_cb plain_lookup_handler
host_lookup_cb_lem sys e h f r is_open inet none_found = elim (Bool-cases (is_error e)) [
  | inl bad ↦
      (let k = failed_with e f in
        let (target, last_error, calls) =
          called_back f.lookup_args.cb e (is_crypto_conn_kind f.lookup_args.conn_kind) k is_open in
        (
          dispatch_completion_cb f.lookup_args.cb e (is_crypto_conn_kind f.lookup_args.conn_kind) k,
          rw (bad, to_fail e bad) refl,
          target,
          inr (bad, last_error, calls),
        ))
  | inr good ↦ (
    failed_with bad_serv_addr f,
    rw (good, inet, none_found, to_fail bad_serv_addr refl) refl,
    refl,
    inl (good, refl, refl),
  )
]
  where
    to_fail :
        (d : PslError)
        → is_error d ≡ true
        → goto_plain_fail d (record f { last_error = d }) ≡ some (failed_with d f)
    to_fail d q =
        goto_plain_fail_lem d (record f { last_error = d }) q
          (record { dispatching = r.dispatching; no_request = r.no_request })

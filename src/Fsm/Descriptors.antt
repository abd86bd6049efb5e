-- ===== src/Fsm/Descriptors.antt =====
-- Who owns the channel's descriptor, and that none is leaked: the sockets that
-- src/psl_channel_fsm_plain.c opens and src/psl_channel_fsm_main.c closes.
use libpalmsocket.Base.{
  ℤ, eq_ℤ, ℕ, suc, ◌+◌, ◌≡◌, ◌⊎◌, inl, inr, true, false, not, ◌&&◌, Bool-cases, if-true, if-false,
  bind-some, Option, none, some, List, [], ◌∷◌, pos, is_nonneg, if◌then◌else◌, arith,
}
use libpalmsocket.Errors.{is_error}
use libpalmsocket.Inet.{Outcome, ok, err, Family}
use libpalmsocket.Fsm.Types.{
  Status, success, BeginArg, plain_conn_arg, Event, user, UserEvent, fd_watch, set_conn_fd,
  enter_scope, exit_scope, begin, Fsm, Call, opened, closed_fd, closed_fd_value,
}
use libpalmsocket.Fsm.Main.{answer, init_handler, closed_handler}
use libpalmsocket.FdWatch.Table.{PollRec}
use libpalmsocket.Fsm.Transitions.{
  reset_watch, sched_completion, set_last_error, goto_plain_fail, goto_plain_tcp, goto_crypto_conn,
  begin_transition,
}
use libpalmsocket.Fsm.Conn.{
  start_connect, await_connect, check_unless_failed, sched_if_due, leave_conn, plain_conn_handler,
}
use libpalmsocket.Fsm.Sockets.{make_and_config_sock, config_made, config_sock, make_sock}
use libpalmsocket.Fsm.System.{Sys}
use libpalmsocket.Fsm.Configured.{
  IsConfigured, reset_watch_frame, check_unless_failed_frame, begin_conn-IsConfigured,
  conn_user-IsConfigured, enter_conn-IsConfigured, exit_conn-IsConfigured,
}

-- How often the descriptor `d` was opened
unfoldable pub opens : ℤ → List Call → ℕ
opens d [] = 0
opens d (opened x ∷ cs) = let rest = opens d cs in if eq_ℤ x d then suc rest else rest
opens d (_ ∷ cs) = opens d cs

-- How often it was closed
unfoldable pub closes : ℤ → List Call → ℕ
closes d [] = 0
closes d (closed_fd x ∷ cs) = let rest = closes d cs in if eq_ℤ x d then suc rest else rest
closes d (_ ∷ cs) = closes d cs

-- 1 if it is held by the channel, which has to close it
abbrev pub held : ℤ → Fsm → ℕ
held d f =
    if eq_ℤ f.fd d then (if is_nonneg f.fd && not f.settings.fd_do_not_close then 1 else 0) else 0

-- Every descriptor was closed as often as it was opened or, by `given`, handed over by the user, but for
-- the one that is held; and a descriptor that is to be left open was given by the user.
pub record IsBalanced (given : ℤ → ℕ) (f : Fsm) : Type 0 where
  pub balance : (d : ℤ) → closes d f.calls + held d f ≡ opens d f.calls + given d
  pub kept_by_user : (f.settings.fd_do_not_close ≡ false) ⊎ (f.settings.fd_is_user_provided ≡ true)

-- Making a socket where none is held keeps the balance on every path: an error leaves the channel
-- without a descriptor and everything opened closed again, success leaves exactly the one opened.
pub make_and_config_sock-IsBalanced :
    (sys : Sys) (family : Family) (n : ℤ → ℕ) (f : Fsm)
    → is_nonneg f.fd ≡ false
    → f.settings.fd_do_not_close ≡ false
    → IsBalanced n f
    → IsBalanced n ((make_and_config_sock sys family f).0)
unfolding make_and_config_sock opens closes
make_and_config_sock-IsBalanced sys family n f h k v = go (make_sock sys family)
  where
    go : (m : Outcome ℕ) → IsBalanced n ((config_made sys m f).0)
    go (err e) = v
    go (ok s) = elim (Bool-cases (is_error (config_sock sys f.settings (pos s)))) [
      | inl bad ↦
          rw bad
            (record { balance = λ d. ground (arith, v.balance d); kept_by_user = v.kept_by_user })
      | inr good ↦
          rw good
            (record { balance = λ d. ground (arith, v.balance d); kept_by_user = v.kept_by_user })
    ]

-- 1 for a descriptor that INIT takes from the user and that is not to be left open
abbrev pub handed_over : Event → Status → ℤ → ℕ
handed_over (user (set_conn_fd x false)) success d = if eq_ℤ x d then 1 else 0
handed_over _ _ d = 0

-- Whatever event the INIT state answers, the balance of descriptors is kept, counting one more that the
-- user hands over to be closed.
pub init_handler-IsBalanced :
    (e : Event) (n : ℤ → ℕ) (f : Fsm) {g : Fsm} {s : Status}
    → IsBalanced n f
    → init_handler e f ≡ some (g, s)
    → IsBalanced (λ d. n d + handed_over e s d) g
unfolding init_handler opens closes
init_handler-IsBalanced e n f v h = record {
  balance = λ d. ground (arith, v.balance d);
  kept_by_user = ground (arith, v.kept_by_user);
}

-- Entering CLOSED in balance closes what is held: then as many descriptors are closed as were opened or
-- handed over by the user, the channel has none, and it is in balance.
pub closed_handler-released :
    (n : ℤ → ℕ) (f : Fsm) {g : Fsm} {s : Status}
    → IsBalanced n f
    → closed_handler enter_scope f ≡ some (g, s)
    → ((d : ℤ) → closes d g.calls ≡ opens d g.calls + n d)
      × (g.fd ≡ closed_fd_value)
      × IsBalanced n g
unfolding closed_handler opens closes
closed_handler-released n f v h = (
  λ d. ground (arith, v.balance d),
  ground arith,
  record {
    balance = λ d. ground (arith, v.balance d);
    kept_by_user = ground (arith, v.kept_by_user);
  },
)

start_connect-IsBalanced :
    (sys : Sys) (n : ℤ → ℕ) (f : Fsm)
    → (is_nonneg f.fd ≡ false) ⊎ (f.settings.fd_is_user_provided ≡ true)
    → IsBalanced n f
    → IsBalanced n (start_connect sys f)
unfolding make_and_config_sock opens closes
start_connect-IsBalanced sys n f h v = elim (Bool-cases f.settings.fd_is_user_provided) [
  | inl given ↦ rw (if-true _ given) (record { balance = v.balance; kept_by_user = v.kept_by_user })
  | inr own ↦ rw (if-false _ own) (
      let w =
        make_and_config_sock-IsBalanced sys f.conn_addr.family n f (ground arith) (ground arith)
          v in
      record { balance = w.balance; kept_by_user = w.kept_by_user })
]

reset_watch-IsBalanced :
    (n : ℤ → ℕ) (f : Fsm) {g : Fsm} → IsBalanced n f → reset_watch f ≡ some g → IsBalanced n g
unfolding reset_watch
reset_watch-IsBalanced n f v h = ground arith

framed :
    (n : ℤ → ℕ) (f g : Fsm)
    → IsBalanced n f
    → (g.calls ≡ f.calls) × (g.fd ≡ f.fd) × (g.settings ≡ f.settings)
    → IsBalanced n g
framed n f g v (calls, fd, settings) = record {
  balance = λ d. rw (calls, fd, settings) (v.balance d);
  kept_by_user = rw settings v.kept_by_user;
}

check_unless_failed-IsBalanced :
    (sys : Sys) (recs : List PollRec) (n : ℤ → ℕ) (f : Fsm) {g : Fsm}
    → IsBalanced n f
    → check_unless_failed sys recs f ≡ some g
    → IsBalanced n g
check_unless_failed-IsBalanced sys recs n f {g} v h =
    framed n f g v (check_unless_failed_frame sys recs f h)

sched_if_due-IsBalanced :
    (sys : Sys) (n : ℤ → ℕ) (f : Fsm) {g : Fsm}
    → IsBalanced n f
    → sched_if_due sys f ≡ some g
    → IsBalanced n g
unfolding sched_completion
sched_if_due-IsBalanced sys n f v h = ground arith

leave_conn-IsBalanced :
    (sys : Sys) (n : ℤ → ℕ) (f : Fsm) {g : Fsm} {s : Status}
    → IsBalanced n f
    → leave_conn sys f ≡ some (g, s)
    → IsBalanced n g
unfolding set_last_error goto_plain_fail goto_plain_tcp goto_crypto_conn begin_transition opens
    closes
leave_conn-IsBalanced sys n f v h = ground arith

conn_user-IsBalanced :
    (sys : Sys) (e : UserEvent) (n : ℤ → ℕ) (f : Fsm) {g : Fsm} {s : Status}
    → IsBalanced n f
    → plain_conn_handler sys (user e) f ≡ some (g, s)
    → IsBalanced n g
unfolding plain_conn_handler opens closes
conn_user-IsBalanced sys (fd_watch recs) n f v h =
    let (a, ha, ka) = bind-some (reset_watch f) h in
    let (b, hb, kb) = bind-some (check_unless_failed sys recs a) ka in
    let (c, hc, kc) = bind-some (sched_if_due sys b) kb in
    leave_conn-IsBalanced sys n c
      (sched_if_due-IsBalanced sys n b
        (check_unless_failed-IsBalanced sys recs n a (reset_watch-IsBalanced n f v ha) hb) hc)
      kc
conn_user-IsBalanced sys _ n f v h = ground arith

answered-IsBalanced :
    (sys : Sys) (n : ℤ → ℕ) (f : Fsm) {g : Fsm} {s : Status}
    → IsBalanced n f
    → answer success (await_connect sys f) ≡ some (g, s)
    → IsBalanced n g
answered-IsBalanced sys n f v h = ground arith

begin_conn-IsBalanced :
    (sys : Sys) (a : Option BeginArg) (n : ℤ → ℕ) (f : Fsm) {g : Fsm} {s : Status}
    → (is_nonneg f.fd ≡ false) ⊎ (f.settings.fd_is_user_provided ≡ true)
    → IsBalanced n f
    → plain_conn_handler sys (begin a) f ≡ some (g, s)
    → IsBalanced n g
unfolding plain_conn_handler
begin_conn-IsBalanced sys none n f h v e = ground arith
begin_conn-IsBalanced sys (some (plain_conn_arg a text)) n f h v e =
    let k = record f { conn_args = a; conn_addr = text } in
    let (r, hr, kr) = bind-some (reset_watch k) e in
    let (fd, settings) = reset_watch_frame k hr in
    answered-IsBalanced sys n (start_connect sys r)
      (start_connect-IsBalanced sys n r (rw (fd, settings) h) (
        reset_watch-IsBalanced n k (record { balance = v.balance; kept_by_user = v.kept_by_user })
          hr))
      kr
begin_conn-IsBalanced sys _ n f h v e = ground arith

enter_conn-IsBalanced :
    (sys : Sys) (n : ℤ → ℕ) (f : Fsm) {g : Fsm} {s : Status}
    → IsBalanced n f
    → plain_conn_handler sys enter_scope f ≡ some (g, s)
    → IsBalanced n g
unfolding plain_conn_handler opens closes
enter_conn-IsBalanced sys n f v e = ground arith

exit_conn-IsBalanced :
    (sys : Sys) (n : ℤ → ℕ) (f : Fsm) {g : Fsm} {s : Status}
    → IsBalanced n f
    → plain_conn_handler sys exit_scope f ≡ some (g, s)
    → IsBalanced n g
unfolding plain_conn_handler opens closes
exit_conn-IsBalanced sys n f v e = ground arith

-- Every event that the CONN state answers keeps every descriptor closed as often as it was opened, but
-- for the one that the channel holds, where the channel is without a descriptor or has the user's. A
-- descriptor that the channel has then and had not before is one that could be configured: so a socket
-- that cannot be configured is closed again, and one that is left open is the channel's.
pub plain_conn_handler-IsBalanced :
    (sys : Sys) (e : Event) (n : ℤ → ℕ) (f : Fsm) {g : Fsm} {s : Status}
    → (is_nonneg f.fd ≡ false) ⊎ (f.settings.fd_is_user_provided ≡ true)
    → IsBalanced n f
    → plain_conn_handler sys e f ≡ some (g, s)
    → IsBalanced n g × IsConfigured sys f g
plain_conn_handler-IsBalanced sys (begin a) n f h v e =
    (begin_conn-IsBalanced sys a n f h v e, begin_conn-IsConfigured sys a f e)
plain_conn_handler-IsBalanced sys (user u) n f h v e =
    (conn_user-IsBalanced sys u n f v e, conn_user-IsConfigured sys u f e)
plain_conn_handler-IsBalanced sys enter_scope n f h v e =
    (enter_conn-IsBalanced sys n f v e, enter_conn-IsConfigured sys f e)
plain_conn_handler-IsBalanced sys exit_scope n f h v e =
    (exit_conn-IsBalanced sys n f v e, exit_conn-IsConfigured sys f e)

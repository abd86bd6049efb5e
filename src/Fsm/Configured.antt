-- ===== src/Fsm/Configured.antt =====
-- Which sockets the CONN state of src/psl_channel_fsm_plain.c leaves open.
use libpalmsocket.Base.{
  ap, refl, sym, ◌∙◌, ℕ, ◌≡◌, ◌⊎◌, inl, inr, false, Bool-cases, if-true, if-false, bind-some,
  Option, none, some, List, pos, arith,
}
use libpalmsocket.Errors.{is_error}
use libpalmsocket.Inet.{Outcome, ok, err}
use libpalmsocket.Fsm.Types.{
  Status, success, BeginArg, plain_conn_arg, user, UserEvent, fd_watch, enter_scope, exit_scope,
  begin, Fsm,
}
use libpalmsocket.Fsm.Main.{answer}
use libpalmsocket.FdWatch.Table.{PollRec}
use libpalmsocket.Fsm.Transitions.{
  reset_watch, sched_completion, set_last_error, goto_plain_fail, goto_plain_tcp, goto_crypto_conn,
  begin_transition,
}
use libpalmsocket.Fsm.Conn.{
  start_connect, await_connect, check_unless_failed, sched_if_due, leave_conn, plain_conn_handler,
}
use libpalmsocket.Fsm.Sockets.{make_and_config_sock, config_made, config_sock, make_sock}
use libpalmsocket.Fsm.System.{Sys}

pub reset_watch_frame :
    (f : Fsm) {g : Fsm} → reset_watch f ≡ some g → (g.fd ≡ f.fd) × (g.settings ≡ f.settings)
unfolding reset_watch
reset_watch_frame f h = ground arith

pub check_unless_failed_frame :
    (sys : Sys) (recs : List PollRec) (f : Fsm) {g : Fsm}
    → check_unless_failed sys recs f ≡ some g
    → (g.calls ≡ f.calls) × (g.fd ≡ f.fd) × (g.settings ≡ f.settings)
check_unless_failed_frame sys recs f h = ground arith

config_made-configured :
    (sys : Sys) (f : Fsm) (m : Outcome ℕ)
    → (((config_made sys m f).0).fd ≡ f.fd)
      ⊎ (is_error (config_sock sys f.settings ((config_made sys m f).0).fd) ≡ false)
config_made-configured sys f (err e) = inl refl
config_made-configured sys f (ok s) =
    elim (Bool-cases (is_error (config_sock sys f.settings (pos s)))) [
      | inl bad ↦ inl (rw bad refl)
      | inr good ↦ inr (rw good good)
    ]

start_connect-configured :
    (sys : Sys) (f : Fsm)
    → ((start_connect sys f).fd ≡ f.fd)
      ⊎ (is_error (config_sock sys f.settings (start_connect sys f).fd) ≡ false)
unfolding make_and_config_sock
start_connect-configured sys f = elim (Bool-cases f.settings.fd_is_user_provided) [
  | inl given ↦ rw (if-true _ given) (inl refl)
  | inr own ↦ rw (if-false _ own) (config_made-configured sys f (make_sock sys f.conn_addr.family))
]

-- A descriptor that is new is one that was configured.
abbrev pub IsConfigured : Sys → Fsm → Fsm → Type 0
IsConfigured sys f g = (g.fd ≡ f.fd) ⊎ (is_error (config_sock sys f.settings g.fd) ≡ false)

await_connect_fd :
    (sys : Sys) (f : Fsm) {g : Fsm} {s : Status}
    → answer success (await_connect sys f) ≡ some (g, s)
    → g.fd ≡ f.fd
await_connect_fd sys f h = ground arith

sched_if_due_fd : (sys : Sys) (f : Fsm) {g : Fsm} → sched_if_due sys f ≡ some g → g.fd ≡ f.fd
unfolding sched_completion
sched_if_due_fd sys f h = ground arith

leave_conn_fd :
    (sys : Sys) (f : Fsm) {g : Fsm} {s : Status} → leave_conn sys f ≡ some (g, s) → g.fd ≡ f.fd
unfolding set_last_error goto_plain_fail goto_plain_tcp goto_crypto_conn begin_transition
leave_conn_fd sys f h = ground arith

pub enter_conn-IsConfigured :
    (sys : Sys) (f : Fsm) {g : Fsm} {s : Status}
    → plain_conn_handler sys enter_scope f ≡ some (g, s)
    → IsConfigured sys f g
unfolding plain_conn_handler
enter_conn-IsConfigured sys f e = inl (ground arith)

pub exit_conn-IsConfigured :
    (sys : Sys) (f : Fsm) {g : Fsm} {s : Status}
    → plain_conn_handler sys exit_scope f ≡ some (g, s)
    → IsConfigured sys f g
unfolding plain_conn_handler
exit_conn-IsConfigured sys f e = inl (ground arith)

IsConfigured-as :
    (sys : Sys) (f f' g g' : Fsm)
    → f'.fd ≡ f.fd
    → f'.settings ≡ f.settings
    → g.fd ≡ g'.fd
    → IsConfigured sys f' g'
    → IsConfigured sys f g
IsConfigured-as sys f f' g g' fd settings same (inl kept) = inl (same ∙ kept ∙ fd)
IsConfigured-as sys f f' g g' fd settings same (inr good) = inr (
    ap (λ u. is_error (config_sock sys u g.fd)) (sym settings)
    ∙ ap (λ x. is_error (config_sock sys f'.settings x)) same
    ∙ good)

pub begin_conn-IsConfigured :
    (sys : Sys) (a : Option BeginArg) (f : Fsm) {g : Fsm} {s : Status}
    → plain_conn_handler sys (begin a) f ≡ some (g, s)
    → IsConfigured sys f g
unfolding plain_conn_handler
begin_conn-IsConfigured sys none f e = ground arith
begin_conn-IsConfigured sys (some (plain_conn_arg a text)) f {g} e =
    let k = record f { conn_args = a; conn_addr = text } in
    let (r, hr, kr) = bind-some (reset_watch k) e in
    let (fd, settings) = reset_watch_frame k hr in
    let same = await_connect_fd sys (start_connect sys r) kr in
    IsConfigured-as sys f r g (start_connect sys r) fd settings same
      (start_connect-configured sys r)
begin_conn-IsConfigured sys _ f e = ground arith

pub conn_user-IsConfigured :
    (sys : Sys) (u : UserEvent) (f : Fsm) {g : Fsm} {s : Status}
    → plain_conn_handler sys (user u) f ≡ some (g, s)
    → IsConfigured sys f g
unfolding plain_conn_handler
conn_user-IsConfigured sys (fd_watch recs) f h =
    let (a, ha, ka) = bind-some (reset_watch f) h in
    let (b, hb, kb) = bind-some (check_unless_failed sys recs a) ka in
    let (c, hc, kc) = bind-some (sched_if_due sys b) kb in
    inl (
      leave_conn_fd sys c kc
      ∙ sched_if_due_fd sys b hc
      ∙ (check_unless_failed_frame sys recs a hb).1
      ∙ (reset_watch_frame f ha).0)
conn_user-IsConfigured sys _ f h = ground arith

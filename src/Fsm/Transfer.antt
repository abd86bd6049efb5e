-- ===== src/Fsm/Transfer.antt =====
-- The contract of READ, WRITE and SHUT_SOCK over a plaintext socket: src/psl_channel_fsm_plain.c.
use libpalmsocket.Base.{
  ℕ, ◌<◌, ◌≡◌, ◌≢◌, ◌⊎◌, inl, inr, refl, Bool, true, false, none, some, List, [], ◌∷◌, ◌++◌, ap,
  ltb, ◌==◌, ◌||◌, ℤ, min, arith, All, Bool-cases,
}
use libpalmsocket.Errors.{is_error, Errno, eintr, eagain, failed, pslerror_from_errno}
use libpalmsocket.Inet.{Outcome, ok, err}
use libpalmsocket.Fsm.Types.{
  Status, success, error, plain_shut, shut_down, gio_status_error, gio_status_normal,
  gio_status_eof, gio_status_again, Fsm,
}
use libpalmsocket.Fsm.Transitions.{
  log, set_last_errno, set_last_error, goto_plain_shut, begin_transition,
}
use libpalmsocket.Fsm.Ready.{IsReady, going}
use libpalmsocket.Fsm.Io.{
  io_failed, replied, read_done, write_done, ssize_max, until_not_interrupted, handle_read,
  handle_write, shut_sock, shut_sock_and_goto_shut,
}

-- A call that a signal interrupted
abbrev pub is_interrupted : Outcome ℕ → Bool
is_interrupted (err eintr) = true
is_interrupted _ = false

-- The loop ends at the first call that is not interrupted, and there is one unless all are.
until_not_interrupted_lem :
    (pre : List (Outcome ℕ)) (r : Outcome ℕ) (post : List (Outcome ℕ))
    → All (λ o. is_interrupted o ≡ true) pre
    → is_interrupted r ≡ false
    → until_not_interrupted (pre ++ r ∷ post) ≡ some r
unfolding until_not_interrupted
until_not_interrupted_lem [] (ok n) post h k = refl
until_not_interrupted_lem [] (err e) post h k = ground arith
until_not_interrupted_lem (ok n ∷ pre) r post h k = ground arith
until_not_interrupted_lem (err eintr ∷ pre) r post h k = until_not_interrupted_lem pre r post h.1 k
until_not_interrupted_lem (err e ∷ pre) r post h k = ground arith

-- A failed call: EAGAIN is to be tried again, any other is an error that is kept as the channel's last.
abbrev pub Failed : Errno → Fsm → Status → Type 0
Failed e g s =
    ((e ≡ eagain) × (s ≡ success) × (g.reply.gio_status ≡ gio_status_again) × (g.reply.num ≡ 0))
    ⊎ ((e ≢ eagain)
        × (s ≡ error)
        × (g.reply.gio_status ≡ gio_status_error)
        × (g.reply.num ≡ 0)
        × (g.last_error ≡ pslerror_from_errno e failed)
        × (is_error g.last_error ≡ true))

-- What READ answers to the result of the call: end of file is no byte where some were wanted.
abbrev pub ReadAnswer : ℕ → Outcome ℕ → Fsm → Status → Type 0
ReadAnswer cnt (err e) g s = Failed e g s
ReadAnswer cnt (ok n) g s =
    (s ≡ success)
    × (g.reply.num ≡ n)
    × (((g.reply.gio_status ≡ gio_status_normal) × ((0 < n) ⊎ (cnt ≡ 0)))
        ⊎ ((g.reply.gio_status ≡ gio_status_eof) × (n ≡ 0) × (0 < cnt)))

abbrev pub WriteAnswer : Outcome ℕ → Fsm → Status → Type 0
WriteAnswer (err e) g s = Failed e g s
WriteAnswer (ok n) g s =
    (s ≡ success) × (g.reply.num ≡ n) × (g.reply.gio_status ≡ gio_status_normal)

io_failed-Failed :
    (e : Errno) (f : Fsm)
    → e ≢ Errno.success
    → (g : Fsm) × (s : Status) × (io_failed e f ≡ some (g, s)) × Failed e g s
unfolding set_last_errno pslerror_from_errno
io_failed-Failed eagain f h =
    (replied gio_status_again 0 f, success, refl, inl (refl, refl, refl, refl))
io_failed-Failed Errno.success f h = absurd (h refl)
io_failed-Failed e f h = (
  replied gio_status_error 0 (record f { last_error = pslerror_from_errno e failed }),
  error,
  refl,
  inr (λ q. ground arith, refl, refl, refl, refl, refl),
)

read_answered :
    (cnt : ℕ) (r : Outcome ℕ) (f : Fsm)
    → r ≢ err Errno.success
    → (g : Fsm) × (s : Status) × (read_done cnt r f ≡ some (g, s)) × ReadAnswer cnt r g s
read_answered cnt (ok n) f h = elim (Bool-cases (ltb 0 n || (cnt == 0))) [
  | inl some_bytes ↦ (
    replied gio_status_normal n f,
    success,
    rw some_bytes refl,
    (refl, refl, inl (refl, ground arith)),
  )
  | inr no_bytes ↦ (
    replied gio_status_eof n f,
    success,
    rw no_bytes refl,
    (refl, refl, inr (refl, ground arith, ground arith)),
  )
]
read_answered cnt (err e) f h = io_failed-Failed e f (λ p. h (ap err p))

write_answered :
    (r : Outcome ℕ) (f : Fsm)
    → r ≢ err Errno.success
    → (g : Fsm) × (s : Status) × (write_done r f ≡ some (g, s)) × WriteAnswer r g s
write_answered (ok n) f h = (replied gio_status_normal n f, success, refl, (refl, refl, refl))
write_answered (err e) f h = io_failed-Failed e f (λ p. h (ap err p))

-- READ asks for at most SSIZE_MAX bytes and repeats the call while signals interrupt it; where a result is
-- not an interruption, the first such is answered. Bytes read, or none where none were wanted, are
-- `normal`; no bytes where some were wanted is end of file; EAGAIN is `again`; and any other `errno` but 0
-- is an error status, with the error kept as the channel's last.
pub handle_read_lem :
    (reads : ℕ → List (Outcome ℕ)) (cnt : ℕ) (f : Fsm) (pre : List (Outcome ℕ)) (r : Outcome ℕ)
    (post : List (Outcome ℕ))
    → reads (min cnt ssize_max) ≡ pre ++ r ∷ post
    → All (λ o. is_interrupted o ≡ true) pre
    → is_interrupted r ≡ false
    → r ≢ err Errno.success
    → (g : Fsm) × (s : Status) × (handle_read reads cnt f ≡ some (g, s)) × ReadAnswer cnt r g s
unfolding handle_read
handle_read_lem reads cnt f pre r post e all k h =
    rw (e, until_not_interrupted_lem pre r post all k) (read_answered cnt r f h)

-- WRITE offers at most SSIZE_MAX bytes and repeats the call while signals interrupt it; where a result is
-- not an interruption, the first such is answered: bytes written are `normal`, EAGAIN is `again`, and any
-- other `errno` but 0 is an error status, with the error kept as the channel's last.
pub handle_write_lem :
    (writes : ℕ → List (Outcome ℕ)) (cnt : ℕ) (f : Fsm) (pre : List (Outcome ℕ)) (r : Outcome ℕ)
    (post : List (Outcome ℕ))
    → writes (min cnt ssize_max) ≡ pre ++ r ∷ post
    → All (λ o. is_interrupted o ≡ true) pre
    → is_interrupted r ≡ false
    → r ≢ err Errno.success
    → (g : Fsm) × (s : Status) × (handle_write writes cnt f ≡ some (g, s)) × WriteAnswer r g s
unfolding handle_write
handle_write_lem writes cnt f pre r post e all k h =
    rw (e, until_not_interrupted_lem pre r post all k) (write_answered r f h)

no_errno : (e : Errno) → is_error (pslerror_from_errno e failed) ≡ false → e ≡ Errno.success
unfolding pslerror_from_errno
no_errno e h = ground arith

-- SHUT_SOCK where a transition may begin: `shutdown` is called once; the next state is SHUT if it
-- succeeds, and otherwise no transition begins and its error is kept as the channel's last.
pub shut_sock_and_goto_shut_lem :
    (shutdown : ℤ → ℕ → Errno) (how : ℕ) (f : Fsm)
    → IsReady f
    → (g : Fsm) × (s : Status) × (shut_sock_and_goto_shut shutdown how f ≡ some (g, s))
      × (g.calls ≡ shut_down f.fd ∷ f.calls)
      × (((shutdown f.fd how ≡ Errno.success) × (s ≡ success) × (g.target ≡ some plain_shut))
          ⊎ ((s ≡ error)
              × (g.target ≡ f.target)
              × (g.last_error ≡ pslerror_from_errno (shutdown f.fd how) failed)
              × (is_error g.last_error ≡ true)))
unfolding shut_sock_and_goto_shut goto_plain_shut begin_transition set_last_error shut_sock
shut_sock_and_goto_shut_lem shutdown how f r =
    elim (Bool-cases (is_error (pslerror_from_errno (shutdown f.fd how) failed))) [
      | inl bad ↦ (
        record (log (shut_down f.fd) f) {
          last_error = pslerror_from_errno (shutdown f.fd how) failed;
        },
        error,
        ground arith,
        refl,
        inr (refl, refl, refl, bad),
      )
      | inr good ↦ (
        going plain_shut none (log (shut_down f.fd) f),
        success,
        ground arith,
        refl,
        inl (no_errno (shutdown f.fd how) good, refl, refl),
      )
    ]

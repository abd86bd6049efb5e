-- ===== src/Crypto/Fixtures.antt =====
-- A session of OpenSSL that keeps to the manual, and a channel on it: a pipe with some bytes to read
-- and room for some to write.
use mathlib.Core.Path.{subst}
use libpalmsocket.Base.{
  ℕ, zero, suc, ◌-◌, ◌≤◌, min, ◌≡◌, ◌≢◌, refl, sym, ap, ◌∙◌, inl, false, List, [], ◌∷◌, ◌++◌,
  negsuc, arith, length, take, drop, length-take,
}
use libpalmsocket.Errors.{no_error, Errno}
use libpalmsocket.Errors.Openssl.{
  ErrCodes, lib_other, other_reason, ssl_none, ssl_read, ssl_write, SslError,
}
use libpalmsocket.FdWatch.Conditions.{nothing}
use libpalmsocket.Fsm.Fixtures.{fresh}
use libpalmsocket.Crypto.Types.{
  Failure, ReadResult, read_ok, read_failed, WriteResult, write_ok, write_failed, Openssl, io_idle,
  Io,
}
use libpalmsocket.Crypto.Session.{IsReported, Streams}

pub record Pipe : Type 0 where
  pub waiting : List ℕ
  pub room : ℕ
  pub pipe_given : List ℕ
  pub pipe_taken : List ℕ

abbrev pub wants : SslError → Failure
wants e = record { status = e; ret = negsuc 0; saved_errno = Errno.success; stack = [] }

abbrev pub pull : ℕ → List ℕ → Pipe → ReadResult × Pipe
pull n [] s = (read_failed (wants ssl_read), s)
pull n (x ∷ xs) s = (
  read_ok (take n (x ∷ xs)),
  record s { waiting = drop n (x ∷ xs); pipe_given = s.pipe_given ++ take n (x ∷ xs) },
)

abbrev pub push : ℕ → List ℕ → Pipe → WriteResult × Pipe
push zero bs s = (write_failed (wants ssl_write), s)
push (suc r) bs s = (
  write_ok (min (suc r) (length bs)),
  record s {
    room = suc r - min (suc r) (length bs);
    pipe_taken = s.pipe_taken ++ take (min (suc r) (length bs)) bs;
  },
)

abbrev pub codes : ErrCodes
codes = record {
  get_lib = λ c. lib_other;
  get_errno = λ c. Errno.success;
  get_reason = λ c. other_reason c;
  error_string = λ c. [];
}

abbrev pub pipe : Openssl Pipe
pipe = record {
  codes = codes;
  buffered = λ s. length s.waiting;
  ssl_read = λ n s. pull n s.waiting s;
  ssl_write = λ bs s. push s.room bs s;
}

pub pull_lem :
    (n : ℕ) (w : List ℕ) (s s' : Pipe) (bs : List ℕ)
    → 1 ≤ n
    → pull n w s ≡ (read_ok bs, s')
    → (1 ≤ length bs)
      × (length bs ≤ n)
      × (s'.pipe_given ≡ s.pipe_given ++ bs)
      × (s'.pipe_taken ≡ s.pipe_taken)
pull_lem n [] s s' bs h e = ground arith
pull_lem n (x ∷ xs) s s' bs h e = (
  omega (arith, ap length same, length-take n (x ∷ xs)),
  omega (arith, ap length same, length-take n (x ∷ xs)),
  sym (ap (λ q. q.1.pipe_given) e) ∙ ap (λ ys. s.pipe_given ++ ys) same,
  sym (ap (λ q. q.1.pipe_taken) e),
)
  where
    bytes_of : ReadResult → List ℕ
    bytes_of (read_ok ys) = ys
    bytes_of (read_failed f) = []

    same : take n (x ∷ xs) ≡ bs
    same = ap (λ q. bytes_of q.0) e

pub wants-IsReported : (e : SslError) → e ≢ ssl_none → IsReported codes (wants e)
wants-IsReported e h = record { status_set = h; stack_set = inl refl }

abbrev pub failure_of : ReadResult → Failure
failure_of (read_ok ys) = wants ssl_read
failure_of (read_failed f) = f

pub pull_failed :
    (n : ℕ) (w : List ℕ) (s s' : Pipe) (x : Failure)
    → pull n w s ≡ (read_failed x, s')
    → IsReported codes x
      × (s'.pipe_given ≡ s.pipe_given)
      × (s'.pipe_taken ≡ s.pipe_taken)
      × (length w ≡ 0)
pull_failed n [] s s' x e = (
  subst (IsReported codes) (ap (λ q. failure_of q.0) e) (wants-IsReported ssl_read (ground arith)),
  sym (ap (λ q. q.1.pipe_given) e),
  sym (ap (λ q. q.1.pipe_taken) e),
  refl,
)
pull_failed n (y ∷ ys) s s' x e = absurd (ground arith)

pub push_lem :
    (r : ℕ) (bs : List ℕ) (s s' : Pipe) (k : ℕ)
    → 1 ≤ length bs
    → push r bs s ≡ (write_ok k, s')
    → (1 ≤ k)
      × (k ≤ length bs)
      × (s'.pipe_taken ≡ s.pipe_taken ++ take k bs)
      × (s'.pipe_given ≡ s.pipe_given)
push_lem zero bs s s' k h e = ground arith
push_lem (suc r) bs s s' k h e = (
  omega (arith, same),
  omega (arith, same),
  sym (ap (λ q. q.1.pipe_taken) e) ∙ ap (λ j. s.pipe_taken ++ take j bs) same,
  sym (ap (λ q. q.1.pipe_given) e),
)
  where
    count_of : WriteResult → ℕ
    count_of (write_ok j) = j
    count_of (write_failed f) = 0

    same : min (suc r) (length bs) ≡ k
    same = ap (λ q. count_of q.0) e

pub push_failed :
    (r : ℕ) (bs : List ℕ) (s s' : Pipe) (x : Failure)
    → push r bs s ≡ (write_failed x, s')
    → IsReported codes x × (s'.pipe_taken ≡ s.pipe_taken) × (s'.pipe_given ≡ s.pipe_given)
push_failed zero bs s s' x e = (
  subst (IsReported codes) (ap (λ q. reason_of q.0) e) (wants-IsReported ssl_write (ground arith)),
  sym (ap (λ q. q.1.pipe_taken) e),
  sym (ap (λ q. q.1.pipe_given) e),
)
  where
    reason_of : WriteResult → Failure
    reason_of (write_ok j) = wants ssl_write
    reason_of (write_failed f) = f
push_failed (suc r) bs s s' x e = absurd (ground arith)

abbrev pub pipe_streams : Streams pipe
pipe_streams = record {
  taken = λ s. s.pipe_taken;
  given = λ s. s.pipe_given;
  read_moves = λ n s s' bs h e. pull_lem n s.waiting s s' bs h e;
  read_stays = λ n s s' x h e. let f = pull_failed n s.waiting s s' x e in (f.0, f.1, f.2);
  read_ready = λ n s s' x b h e. absurd (omega (arith, b, (pull_failed n s.waiting s s' x e).3));
  write_moves = λ bs s s' k h e. push_lem s.room bs s s' k h e;
  write_stays = λ bs s s' x h e. push_failed s.room bs s s' x e;
}

-- A channel with three bytes to read and room for two.
abbrev pub idle_channel : Io Pipe
idle_channel = record {
  fsm = fresh;
  ssl = record { waiting = 10 ∷ 11 ∷ 12 ∷ []; room = 2; pipe_given = []; pipe_taken = [] };
  input = record {
    one_byte_buf = 0;
    byte_available = false;
    io_state = io_idle;
    psl_err = no_error;
  };
  output = record {
    buf = record { max_size = 4; bytes = []; next_consume_index = 0 };
    io_state = io_idle;
    psl_err = no_error;
  };
  last_cond = nothing;
}

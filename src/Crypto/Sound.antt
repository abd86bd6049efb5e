-- ===== src/Crypto/Sound.antt =====
-- What the input, the output and the buffer of src/psl_channel_fsm_crypto.c keep between events, and
-- the two streams of plaintext that they stand between.
use libpalmsocket.Base.{
  ℕ, suc, ◌-◌, ◌≤◌, ◌≡◌, ap, true, false, some, List, ◌++◌, leb, arith, length-drop, take_all,
}
use libpalmsocket.Errors.{is_error}
use libpalmsocket.IoBuf.{IoBuf, get_data_ptr}
use libpalmsocket.IoBuf.Bounds.{IsValid, left, get_data_size-left}
use libpalmsocket.IoBuf.Contents.{contents}
use libpalmsocket.FdWatch.{Watch}
use libpalmsocket.Crypto.Types.{
  Openssl, io_idle, io_pending, is_io_error, CryptoInput, CryptoOutput, Io,
}
use libpalmsocket.Crypto.Session.{Streams}
use libpalmsocket.Crypto.Deferred.{bytes_at}
use libpalmsocket.Crypto.Transfer.{held}

-- The state of a direction is the sticky error exactly if there is an error code, a byte that is held
-- waits for the user alone, and the buffer holds bytes while writing is deferred and none when idle.
pub record InputSound (i : CryptoInput) : Type 0 where
  pub sticky : is_io_error i.io_state ≡ is_error i.psl_err
  pub byte_idle : i.byte_available ≡ true → i.io_state ≡ io_idle

pub record OutputSound (out : CryptoOutput) : Type 0 where
  pub sticky : is_io_error out.io_state ≡ is_error out.psl_err
  pub buf_valid : IsValid out.buf
  pub buf_room : 1 ≤ out.buf.max_size
  pub pending_held : io_pending out.io_state ≡ true → 1 ≤ left out.buf
  pub idle_empty : out.io_state ≡ io_idle → left out.buf ≡ 0

pub record IsSound {S : Type 0} (c : Io S) : Type 0 where
  pub input : InputSound c.input
  pub output : OutputSound c.output
  pub watch : (w : Watch) × (c.fsm.watch ≡ some w)

-- The abstract channel: what the user has received so far, and what was accepted from the user.
pub record Between {S : Type 0} (o : Openssl S) (st : Streams o) (received accepted : List ℕ)
    (c : Io S) : Type 0 where
  pub reading : st.given c.ssl ≡ received ++ held c.input
  pub writing : st.taken c.ssl ++ contents c.output.buf ≡ accepted

positive : (n : ℕ) → leb (suc n) 0 ≡ false
positive n = ground arith

bytes_of :
    (b : IoBuf) (n : ℕ)
    → IsValid b
    → left b ≡ suc n
    → bytes_at (get_data_ptr b) b ≡ some (contents b)
unfolding get_data_ptr
bytes_of b n v h =
    rw (get_data_size-left v, h, positive n)
      (ap some
        (take_all (suc n) (contents b) (omega (arith, length-drop b.next_consume_index b.bytes))))

-- A buffer with bytes left gives exactly those.
pub bytes_at-contents :
    {b : IoBuf} → IsValid b → 1 ≤ left b → bytes_at (get_data_ptr b) b ≡ some (contents b)
bytes_at-contents {b} v h = bytes_of b (left b - 1) v (omega (arith, h))

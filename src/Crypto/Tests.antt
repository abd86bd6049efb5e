-- ===== src/Crypto/Tests.antt =====
-- Runs of a crypto channel on a pipe.
mod Sessions
use libpalmsocket.Base.{
  ℕ, Option, ◌≤◌, ◌≡◌, refl, ◌⊎◌, true, false, none, some, List, [], ◌∷◌, ◌++◌, length, take, arith,
}
use libpalmsocket.Errors.{no_error}
use libpalmsocket.FdWatch.Conditions.{Condition, nothing}
use libpalmsocket.Errors.Openssl.{ssl_channel_error}
use libpalmsocket.IoBuf.{consume}
use libpalmsocket.IoBuf.Bounds.{IsValid}
use libpalmsocket.IoBuf.Tests.{padded}
use libpalmsocket.Fsm.Types.{Status}
use libpalmsocket.Crypto.Types.{Io, io_want_read, io_want_write}
use libpalmsocket.Crypto.Deferred.{fresh_none, process_deferred_ssl_io}
use libpalmsocket.Crypto.Transfer.{Answer, handle_read, handle_write}
use libpalmsocket.Crypto.Sound.{IsSound, Between}
use libpalmsocket.Crypto.Rounds.{process_deferred_ssl_io-IsSound}
use libpalmsocket.Crypto.Receiving.{handle_read-IsSound}
use libpalmsocket.Crypto.Accepting.{handle_write-IsSound}
use libpalmsocket.Crypto.Stream.{
  Op, user_reads, user_writes, fd_ready, Progress, run_ops, run_ops-IsSound,
}
use libpalmsocket.Crypto.Fixtures.{Pipe, pipe, pipe_streams, idle_channel}

idle-IsSound : IsSound idle_channel
idle-IsSound = record {
  input = record { sticky = refl; byte_idle = λ _. refl };
  output = record {
    sticky = refl;
    buf_valid = record { index_in = omega arith; size_in = omega arith; limit_in = omega arith };
    buf_room = omega arith;
    pending_held = λ q. absurd (ground arith);
    idle_empty = λ _. refl;
  };
  watch = (_, refl);
}

idle-Between : Between pipe pipe_streams [] [] idle_channel
idle-Between = record { reading = refl; writing = refl }

-- A channel on which both directions are deferred, with two bytes in the buffer.
abbrev deferred_channel : Io Pipe
deferred_channel = record idle_channel {
  input = record (idle_channel.input) { io_state = io_want_read };
  output = record {
    buf = record { max_size = 4; bytes = 1 ∷ 2 ∷ []; next_consume_index = 0 };
    io_state = io_want_write;
    psl_err = no_error;
  };
}

deferred-IsSound : IsSound deferred_channel
deferred-IsSound = record {
  input = record { sticky = refl; byte_idle = λ q. absurd (ground arith) };
  output = record {
    sticky = refl;
    buf_valid = record { index_in = omega arith; size_in = omega arith; limit_in = omega arith };
    buf_room = omega arith;
    pending_held = λ _. omega arith;
    idle_empty = λ q. absurd (ground arith);
  };
  watch = (_, refl);
}

deferred-Between : Between pipe pipe_streams [] (1 ∷ 2 ∷ []) deferred_channel
deferred-Between = record { reading = refl; writing = refl }

-- Five bytes are written where there is room for two, three are deferred; one byte is read, and then
-- all that is left.
abbrev some_ops : List Op
some_ops =
    user_writes (1 ∷ 2 ∷ 3 ∷ 4 ∷ 5 ∷ []) ∷ user_reads 1 ∷ user_reads 9 ∷ fd_ready nothing ∷ []

abbrev outcome : Option (Progress Pipe) → List ℕ × List ℕ × List ℕ
outcome none = ([], [], [])
outcome (some m) = (m.received, m.accepted, m.io.ssl.pipe_taken)

some_ops_run :
    outcome (run_ops pipe padded some_ops idle_channel)
    ≡ (10 ∷ 11 ∷ 12 ∷ [], 1 ∷ 2 ∷ 3 ∷ 4 ∷ 5 ∷ [], 1 ∷ 2 ∷ [])
unfolding run_ops handle_write handle_read ssl_channel_error consume
some_ops_run = refl

run_ops-IsSound_example :
    (m : Progress Pipe) × (run_ops pipe padded some_ops idle_channel ≡ some m)
    × IsSound m.io
    × Between pipe pipe_streams ([] ++ m.received) ([] ++ m.accepted) m.io
run_ops-IsSound_example =
    run_ops-IsSound pipe padded pipe_streams some_ops idle_channel [] [] idle-IsSound idle-Between

handle_read-IsSound_example :
    (a : Answer Pipe) × (handle_read pipe 2 idle_channel ≡ some a)
    × IsSound a.io
    × Between pipe pipe_streams ([] ++ a.bytes) [] a.io
    × (length a.bytes ≤ 2)
handle_read-IsSound_example =
    handle_read-IsSound pipe pipe_streams [] [] 2 idle_channel idle-IsSound idle-Between

handle_write-IsSound_example :
    (d : Io Pipe) × (status : Status) × (n : ℕ) × (handle_write pipe padded
        (1 ∷ 2 ∷ 3 ∷ [])
        idle_channel
      ≡ some (d, status, n))
    × IsSound d
    × Between pipe pipe_streams [] ([] ++ take n (1 ∷ 2 ∷ 3 ∷ [])) d
    × (n ≤ length {A = ℕ} (1 ∷ 2 ∷ 3 ∷ []))
handle_write-IsSound_example =
    handle_write-IsSound pipe pipe_streams padded [] [] (1 ∷ 2 ∷ 3 ∷ []) idle_channel idle-IsSound
      idle-Between

process_deferred_ssl_io-IsSound_example :
    (d : Io Pipe) × (process_deferred_ssl_io pipe fresh_none nothing deferred_channel ≡ some d)
    × IsSound d
    × Between pipe pipe_streams [] (1 ∷ 2 ∷ []) d
process_deferred_ssl_io-IsSound_example =
    process_deferred_ssl_io-IsSound pipe pipe_streams [] (1 ∷ 2 ∷ []) fresh_none nothing
      deferred_channel deferred-IsSound deferred-Between

-- ===== src/Crypto/Stream.antt =====
-- A crypto channel as a pipe of bytes: sequences of the user's reads and writes and of the events of
-- the descriptor, for crypto_handle_READ, crypto_handle_WRITE and crypto_process_deferred_ssl_io of
-- src/psl_channel_fsm_crypto.c.
use mathlib.Core.List.{append-nil, append_assoc}
use libpalmsocket.Base.{ℕ, ◌≡◌, refl, sym, ap, ◌∙◌, Option, some, List, [], ◌∷◌, ◌++◌, ◌>>=◌, take}
use libpalmsocket.IoBuf.{GArray}
use libpalmsocket.FdWatch.Conditions.{Condition}
use libpalmsocket.Crypto.Types.{Openssl, Io}
use libpalmsocket.Crypto.Session.{Streams}
use libpalmsocket.Crypto.Deferred.{fresh_none, process_deferred_ssl_io}
use libpalmsocket.Crypto.Transfer.{held, handle_read, handle_write}
use libpalmsocket.Crypto.Sound.{IsSound, Between}
use libpalmsocket.Crypto.Rounds.{process_deferred_ssl_io-IsSound}
use libpalmsocket.Crypto.Receiving.{handle_read-IsSound}
use libpalmsocket.Crypto.Accepting.{handle_write-IsSound}

-- What happens to the channel: a read of a count of bytes, a write of bytes, or the descriptor is
-- ready.
pub data Op : Type 0 where
  user_reads : ℕ → Op
  user_writes : List ℕ → Op
  fd_ready : Condition → Op

-- The state, what the user received, and what was accepted from the user.
pub record Progress (S : Type 0) : Type 0 where
  pub io : Io S
  pub received : List ℕ
  pub accepted : List ℕ

module _ {S : Type 0} (o : Openssl S) (g : GArray) where
  abbrev pub run_op : Op → Io S → Option (Progress S)
  run_op (user_reads cnt) c =
      handle_read o cnt c >>= λ a. some (record { io = a.io; received = a.bytes; accepted = [] })
  run_op (user_writes src) c = handle_write o g src c >>= λ r.
      some (record { io = r.0; received = []; accepted = take r.2 src })
  run_op (fd_ready revents) c = process_deferred_ssl_io o fresh_none revents c >>= λ d.
      some (record { io = d; received = []; accepted = [] })

  abbrev after : Progress S → Progress S → Progress S
  after m n = record {
    io = n.io;
    received = m.received ++ n.received;
    accepted = m.accepted ++ n.accepted;
  }

  unfoldable pub run_ops : List Op → Io S → Option (Progress S)
  run_ops [] c = some (record { io = c; received = []; accepted = [] })
  run_ops (x ∷ xs) c = run_op x c >>= λ m. run_ops xs m.io >>= λ n. some (after m n)

  module _ (st : Streams o) where
    Goes : List ℕ → List ℕ → Option (Progress S) → Type 0
    Goes p q r =
        (m : Progress S) × (r ≡ some m)
        × IsSound m.io
        × Between o st (p ++ m.received) (q ++ m.accepted) m.io

    op_lem :
        (x : Op) (c : Io S) (p q : List ℕ) → IsSound c → Between o st p q c → Goes p q (run_op x c)
    unfolding Goes
    op_lem (user_reads cnt) c p q s b =
        let (a, ha, sa, ba, _) = handle_read-IsSound o st p q cnt c s b in
        (
          record { io = a.io; received = a.bytes; accepted = [] },
          ap (λ r. r >>= λ a'. some (record { io = a'.io; received = a'.bytes; accepted = [] })) ha,
          sa,
          record { reading = ba.reading; writing = ba.writing ∙ sym (append-nil q) },
        )
    op_lem (user_writes src) c p q s b =
        let (d, status, n, hd, sd, bd, _) = handle_write-IsSound o st g p q src c s b in
        (
          record { io = d; received = []; accepted = take n src },
          ap (λ r. r >>= λ r'. some (record { io = r'.0; received = []; accepted = take r'.2 src }))
              hd,
          sd,
          record {
            reading = bd.reading ∙ ap (λ xs. xs ++ held d.input) (sym (append-nil p));
            writing = bd.writing;
          },
        )
    op_lem (fd_ready revents) c p q s b =
        let (d, hd, sd, bd) = process_deferred_ssl_io-IsSound o st p q fresh_none revents c s b in
        (
          record { io = d; received = []; accepted = [] },
          ap (λ r. r >>= λ d'. some (record { io = d'; received = []; accepted = [] })) hd,
          sd,
          record {
            reading = bd.reading ∙ ap (λ xs. xs ++ held d.input) (sym (append-nil p));
            writing = bd.writing ∙ sym (append-nil q);
          },
        )

    -- On a session that keeps to OpenSSL's manual, from a sound state, any sequence of the user's reads
    -- and writes and of events of the descriptor runs without a failed assertion and leaves a sound
    -- state that still stands between the two streams: the channel is a pipe of bytes in either
    -- direction.
    pub run_ops-IsSound :
        (ops : List Op) (c : Io S) (received accepted : List ℕ)
        → IsSound c
        → Between o st received accepted c
        → (m : Progress S) × (run_ops ops c ≡ some m)
          × IsSound m.io
          × Between o st (received ++ m.received) (accepted ++ m.accepted) m.io
    unfolding run_ops Goes
    run_ops-IsSound [] c p q s b = (
      record { io = c; received = []; accepted = [] },
      refl,
      s,
      record {
        reading = b.reading ∙ ap (λ xs. xs ++ held c.input) (sym (append-nil p));
        writing = b.writing ∙ sym (append-nil q);
      },
    )
    run_ops-IsSound (x ∷ xs) c p q s b =
        let (m, hm, sm, bm) = op_lem x c p q s b in
        let (n, hn, sn, bn) = run_ops-IsSound xs m.io (p ++ m.received) (q ++ m.accepted) sm bm in
        (
          after m n,
          ap (λ r. r >>= λ m'. run_ops xs m'.io >>= λ n'. some (after m' n')) hm
              ∙ ap (λ r. r >>= λ n'. some (after m n')) hn,
          sn,
          record {
            reading =
                bn.reading
                ∙ ap (λ ys. ys ++ held n.io.input) (append_assoc p m.received n.received);
            writing = bn.writing ∙ append_assoc q m.accepted n.accepted;
          },
        )

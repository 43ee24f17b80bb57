-- ===== src/Net/Tests.antt =====
-- A stream that takes two bytes a call, and the property of src/net/stream_io_ops.hpp on it.
use mathlib.Core.Option
use rain.Base.{
  ℕ, ◌-◌, ◌≡◌, refl, true, List, [], ◌∷◌, ◌++◌, some, arith, min, ltb, if◌then◌else◌, length, take,
  ℤ, pos,
}
use rain.Core.{Errno, returned, failed, got, Result, ok}
use rain.Net.StreamIo.{Stream, write_some, stream_write_loop, stream_write_all}
use rain.Net.StreamIo.WriteAll.{StreamWrites, WroteAll, stream_write_all_lem}

-- The bytes sent, and how often the stream is still full.
pub record Peer : Type 0 where
  pub sent : List ℕ
  pub full : ℕ

abbrev slow : Stream Peer
slow = record {
  read_call = λ fd len p. (got [], p);
  write_call = λ fd bytes p.
      if ltb 0 p.full then (failed Errno.eagain, record p { full = p.full - 1 }) else (
        returned (min 2 (length bytes)),
        record p { sent = p.sent ++ take (min 2 (length bytes)) bytes },
      );
  sendfile_call = λ fd in_fd offset count p. (returned count, p);
  wait_ready = λ direction fd p. (ok tt, p);
  wait_within = λ direction fd timeout p. (ok tt, p);
  clock_now = λ p. (0, p);
  has_timer = λ p. true;
}

slow-StreamWrites : (fd : ℤ) → StreamWrites slow fd
slow-StreamWrites fd = record {
  written = λ p. p.sent;
  patience = λ p. p.full;
  wrote = λ n bytes p h. ground (arith, h);
  write_failed = λ e bytes p h. ground (arith, h);
  write_retried = λ e bytes p h k. ground (arith, h);
  waits = λ p. (refl, omega arith);
}

abbrev a_peer : Peer
a_peer = record { sent = 1 ∷ []; full = 3 }

abbrev a_message : List ℕ
a_message = 4 ∷ 5 ∷ 6 ∷ []

message_sent :
    Option.map (λ r. r.1.sent) (stream_write_all slow 4 4 (pos 3) a_message a_peer)
    ≡ some (1 ∷ 4 ∷ 5 ∷ 6 ∷ [])
unfolding stream_write_all stream_write_loop write_some
message_sent = refl

stream_write_all_lem_example :
    (r : Result ℕ) × (p : Peer) × (stream_write_all slow 4 4 (pos 3) a_message a_peer ≡ some (r, p))
    × WroteAll slow (pos 3) (slow-StreamWrites (pos 3)) a_message 0 a_peer r p
unfolding slow-StreamWrites
stream_write_all_lem_example =
    stream_write_all_lem slow (pos 3) (slow-StreamWrites (pos 3)) a_message a_peer

-- ===== src/Net/StreamIo/Sending.antt =====
-- src/net/stream_io_ops.hpp: sending files, and `write_all` with a timeout.
use rain.Base.{
  ℕ, zero, suc, ◌+◌, ◌-◌, List, Option, none, some, ltb, leb, ◌==◌, if◌then◌else◌, length, drop, ℤ,
}
use rain.Core.{returned, failed, SystemError, made, Errc, Result, ok, err}
use rain.Net.StreamIo.{
  Stream, Direction, retry, wait_until, write_some_with_timeout, stream_write_all,
}

abbrev pub send_timed_out : SystemError
send_timed_out = made Errc.timed_out "sendfile timeout"

abbrev pub send_no_timer : SystemError
send_no_timer = made Errc.operation_not_permitted "send_file_with_timeout requires event loop timer"

abbrev pub send_eof : SystemError
send_eof = made Errc.io_error "sendfile reached EOF before requested byte count"

abbrev pub write_all_timed_out : SystemError
write_all_timed_out = made Errc.timed_out "write_all timeout"

abbrev pub write_all_eof : SystemError
write_all_eof = made Errc.broken_pipe "write_all_with_timeout: connection closed"

module _ {W : Type 0} (io : Stream W) where
  -- `send_file_some`, with the offset that it leaves.
  unfoldable pub send_file_some : ℕ → ℤ → ℤ → ℕ → ℕ → W → Option (Result (ℕ × ℕ) × W)
  send_file_some zero fd in_fd offset count w = none
  send_file_some (suc fuel) fd in_fd offset count w =
      let (r, w') = io.sendfile_call fd in_fd offset count w in
      let next = send_file_some fuel fd in_fd offset count in
      elim r [
        | returned n ↦ some (ok (n, offset + n), w')
        | failed e ↦ retry io e (io.wait_ready Direction.writing fd) next w'
      ]

  unfoldable pub send_file_until : ℕ → ℤ → ℤ → ℕ → ℕ → ℕ → W → Option (Result (ℕ × ℕ) × W)
  send_file_until zero fd in_fd offset count deadline w = none
  send_file_until (suc fuel) fd in_fd offset count deadline w =
      let (r, w') = io.sendfile_call fd in_fd offset count w in
      let next = send_file_until fuel fd in_fd offset count deadline in
      elim r [
        | returned n ↦ some (ok (n, offset + n), w')
        | failed e ↦ retry io e (wait_until io send_timed_out Direction.writing fd deadline) next w'
      ]

  unfoldable pub send_file_some_with_timeout :
      ℕ → ℤ → ℤ → ℕ → ℕ → ℕ → W → Option (Result (ℕ × ℕ) × W)
  unfolding send_file_some send_file_until
  send_file_some_with_timeout fuel fd in_fd offset count timeout w =
      let (now, w') = io.clock_now w in
      if timeout == 0
      then send_file_some fuel fd in_fd offset count w
      else if io.has_timer w
      then send_file_until fuel fd in_fd offset count (now + timeout) w'
      else some (err send_no_timer, w)

  -- One round of the loop of `send_file_all_with_timeout`: the clock is read if there is a timeout.
  abbrev send_round : ℕ → ℤ → ℤ → ℕ → ℕ → ℕ → ℕ → W → Option (Result (ℕ × ℕ) × W)
  send_round inner fd in_fd offset count timeout deadline w =
      let (now, w') = io.clock_now w in
      if timeout == 0
      then send_file_some inner fd in_fd offset count w
      else if leb deadline now
      then some (err send_timed_out, w')
      else send_file_some_with_timeout inner fd in_fd offset count (deadline - now) w'

  -- The loop of `send_file_all_with_timeout`, with `total` bytes sent.
  unfoldable pub send_file_loop : ℕ → ℕ → ℤ → ℤ → ℕ → ℕ → ℕ → ℕ → ℕ → W → Option (Result ℕ × W)
  unfolding send_file_some_with_timeout
  send_file_loop zero inner fd in_fd offset count timeout deadline total w = none
  send_file_loop (suc fuel) inner fd in_fd offset count timeout deadline total w =
      let next = send_file_loop fuel inner fd in_fd in
      if ltb total count
      then elim (send_round inner fd in_fd offset (count - total) timeout deadline w) [
        | none ↦ none
        | some (err e, w') ↦ some (err e, w')
        | some (ok (zero, o), w') ↦ some (err send_eof, w')
        | some (ok (suc n, o), w') ↦ next o count timeout deadline (total + suc n) w'
      ]
      else some (ok total, w)

  unfoldable pub send_file_all_with_timeout : ℕ → ℕ → ℤ → ℤ → ℕ → ℕ → ℕ → W → Option (Result ℕ × W)
  unfolding send_file_loop
  send_file_all_with_timeout fuel inner fd in_fd offset count timeout w =
      let (now, w') = io.clock_now w in
      send_file_loop fuel inner fd in_fd offset count timeout (now + timeout) 0 w'

  -- The loop of `write_all_with_timeout`, with `total` bytes written.
  unfoldable pub write_all_until : ℕ → ℕ → ℤ → List ℕ → ℕ → ℕ → W → Option (Result ℕ × W)
  unfolding write_some_with_timeout
  write_all_until zero inner fd bytes deadline total w = none
  write_all_until (suc fuel) inner fd bytes deadline total w =
      let (now, w1) = io.clock_now w in
      let next = write_all_until fuel inner fd bytes deadline in
      if ltb total (length bytes)
      then (if leb deadline now
          then some (err write_all_timed_out, w1)
          else elim (write_some_with_timeout io inner fd (drop total bytes) (deadline - now) w1) [
            | none ↦ none
            | some (err e, w') ↦ some (err e, w')
            | some (ok zero, w') ↦ some (err write_all_eof, w')
            | some (ok (suc n), w') ↦ next (total + suc n) w'
          ])
      else some (ok total, w)

  unfoldable pub write_all_with_timeout : ℕ → ℕ → ℤ → List ℕ → ℕ → W → Option (Result ℕ × W)
  unfolding stream_write_all write_all_until
  write_all_with_timeout fuel inner fd bytes timeout w =
      let (now, w') = io.clock_now w in
      if timeout == 0
      then stream_write_all io fuel inner fd bytes w
      else write_all_until fuel inner fd bytes (now + timeout) 0 w'

-- ===== src/Net/StreamIo.antt =====
-- src/net/stream_io_ops.hpp: reading, writing and sending files on a non-blocking descriptor. The system
-- calls, the waits for readiness and the clock are an interface on a world. Loops are on fuel, and `none`
-- when that is used up; a timeout that is not positive is 0.
pub mod WriteAll
pub mod Sending
use rain.Base.{
  ℕ, zero, suc, ◌+◌, ◌-◌, Bool, true, false, List, [], ◌∷◌, Option, none, some, ltb, leb, ◌==◌,
  if◌then◌else◌, length, drop, ℤ,
}
use rain.Core.{
  Errno, is_eintr, is_again, Syscall, returned, failed, Received, got, unread, SystemError, made,
  from_errno, Errc, Result, ok, err,
}

pub data Direction : Type 0 where
  reading writing : Direction

-- `wait_ready` is `co_await` of a ReadReadyAwaiter or WriteReadyAwaiter, `wait_within` that of a
-- TimedReadyAwaiter; `sendfile` answers how far it went, and moves the offset by as much.
pub record Stream (W : Type 0) : Type 0 where
  pub read_call : ℤ → ℕ → W → Received × W
  pub write_call : ℤ → List ℕ → W → Syscall × W
  pub sendfile_call : ℤ → ℤ → ℕ → ℕ → W → Syscall × W
  pub wait_ready : Direction → ℤ → W → Result (Unit {0}) × W
  pub wait_within : Direction → ℤ → ℕ → W → Result (Unit {0}) × W
  pub clock_now : W → ℕ × W
  pub has_timer : W → Bool

abbrev pub eof_write : SystemError
eof_write = made Errc.broken_pipe "write_all: connection closed"

abbrev pub read_timed_out : SystemError
read_timed_out = made Errc.timed_out "read timeout"

abbrev pub read_no_timer : SystemError
read_no_timer = made Errc.operation_not_permitted "read_with_timeout requires event loop timer"

abbrev pub write_timed_out : SystemError
write_timed_out = made Errc.timed_out "write timeout"

abbrev pub write_no_timer : SystemError
write_no_timer = made Errc.operation_not_permitted "write_with_timeout requires event loop timer"

module _ {W : Type 0} (io : Stream W) where
  -- After a call that failed: again at once, again once ready, or the error.
  abbrev pub retry {ℓ} :
      {A : Type ℓ}
      → Errno
      → (W → Result (Unit {0}) × W)
      → (W → Option (Result A × W))
      → W
      → Option (Result A × W)
  retry e wait next w =
      if is_eintr e
      then next w
      else if is_again e
      then elim (wait w).0 [ err x ↦ some (err x, (wait w).1) | ok u ↦ next (wait w).1 ]
      else some (err (from_errno e), w)

  unfoldable pub read_some : ℕ → ℤ → ℕ → W → Option (Result (List ℕ) × W)
  read_some zero fd len w = none
  read_some (suc fuel) fd len w =
      let (r, w') = io.read_call fd len w in
      let next = read_some fuel fd len in
      elim r [
        | got bytes ↦ some (ok bytes, w')
        | unread e ↦ retry e (io.wait_ready Direction.reading fd) next w'
      ]

  unfoldable pub write_some : ℕ → ℤ → List ℕ → W → Option (Result ℕ × W)
  write_some zero fd bytes w = none
  write_some (suc fuel) fd bytes w =
      let (r, w') = io.write_call fd bytes w in
      let next = write_some fuel fd bytes in
      elim r [
        | returned n ↦ some (ok n, w')
        | failed e ↦ retry e (io.wait_ready Direction.writing fd) next w'
      ]

  -- The wait of the operations with a timeout, until the deadline.
  abbrev pub wait_until : SystemError → Direction → ℤ → ℕ → W → Result (Unit {0}) × W
  wait_until late direction fd deadline w =
      let (now, w') = io.clock_now w in
      if leb deadline now then (err late, w') else io.wait_within direction fd (deadline - now) w'

  unfoldable pub read_until : ℕ → ℤ → ℕ → ℕ → W → Option (Result (List ℕ) × W)
  read_until zero fd len deadline w = none
  read_until (suc fuel) fd len deadline w =
      let (r, w') = io.read_call fd len w in
      let next = read_until fuel fd len deadline in
      elim r [
        | got bytes ↦ some (ok bytes, w')
        | unread e ↦ retry e (wait_until read_timed_out Direction.reading fd deadline) next w'
      ]

  unfoldable pub read_some_with_timeout : ℕ → ℤ → ℕ → ℕ → W → Option (Result (List ℕ) × W)
  unfolding read_some
  read_some_with_timeout fuel fd len timeout w =
      let (now, w') = io.clock_now w in
      if timeout == 0
      then read_some fuel fd len w
      else if io.has_timer w
      then read_until fuel fd len (now + timeout) w'
      else some (err read_no_timer, w)

  unfoldable pub write_until : ℕ → ℤ → List ℕ → ℕ → W → Option (Result ℕ × W)
  write_until zero fd bytes deadline w = none
  write_until (suc fuel) fd bytes deadline w =
      let (r, w') = io.write_call fd bytes w in
      let next = write_until fuel fd bytes deadline in
      elim r [
        | returned n ↦ some (ok n, w')
        | failed e ↦ retry e (wait_until write_timed_out Direction.writing fd deadline) next w'
      ]

  unfoldable pub write_some_with_timeout : ℕ → ℤ → List ℕ → ℕ → W → Option (Result ℕ × W)
  unfolding write_some
  write_some_with_timeout fuel fd bytes timeout w =
      let (now, w') = io.clock_now w in
      if timeout == 0
      then write_some fuel fd bytes w
      else if io.has_timer w
      then write_until fuel fd bytes (now + timeout) w'
      else some (err write_no_timer, w)

  -- The loop of `write_all`, with `total` bytes written and `inner` fuel for each `write_some`.
  unfoldable pub stream_write_loop : ℕ → ℕ → ℤ → List ℕ → ℕ → W → Option (Result ℕ × W)
  stream_write_loop zero inner fd bytes total w = none
  stream_write_loop (suc fuel) inner fd bytes total w =
      let next = stream_write_loop fuel inner fd bytes in
      if ltb total (length bytes)
      then elim (write_some inner fd (drop total bytes) w) [
        | none ↦ none
        | some (err e, w') ↦ some (err e, w')
        | some (ok zero, w') ↦ some (err eof_write, w')
        | some (ok (suc n), w') ↦ next (total + suc n) w'
      ]
      else some (ok total, w)

  unfoldable pub stream_write_all : ℕ → ℕ → ℤ → List ℕ → W → Option (Result ℕ × W)
  stream_write_all fuel inner fd bytes w = stream_write_loop fuel inner fd bytes 0 w

-- ===== src/Sync/Channel.antt =====
-- src/sync/channel.hpp. Every operation runs under `mutex_`, so one call from the lock to the unlock
-- (or to the wait) is one step. `none` means that the wait's predicate is false: the caller sleeps.
pub mod Capacity
pub mod Fifo
pub mod Waiters
mod Tests
use rain.Base.{
  ℕ, suc, ◌-◌, ◌≡◌, Bool, true, false, not, ◌&&◌, ◌||◌, List, [], ◌∷◌, ◌++◌, Option, none, some,
  ltb, leb, if◌then◌else◌, length,
}
use rain.Core.{Result, ok, err, SystemError, made, Errc}

-- `queue_` with its front first, `capacity_` (0 for no bound), `closed_`.
pub record Channel {ℓ} (A : Type ℓ) : Type ℓ where
  pub queue : List A
  pub capacity : ℕ
  pub closed : Bool

abbrev pub closed_error : SystemError
closed_error = made Errc.broken_pipe "send on closed channel"

abbrev pub full_error : SystemError
full_error = made Errc.resource_unavailable_try_again "send on full channel"

module _ {ℓ} {A : Type ℓ} where
  unfoldable pub make_channel : ℕ → Channel A
  make_channel capacity = record { queue = []; capacity = capacity; closed = false }

  abbrev pub is_empty : List A → Bool
  is_empty [] = true
  is_empty (x ∷ xs) = false

  -- The predicate of `not_full_.wait`.
  abbrev pub can_send : Channel A → Bool
  can_send c = ltb (length c.queue) c.capacity || c.closed

  -- The predicate of `not_empty_.wait`.
  abbrev pub can_recv : Channel A → Bool
  can_recv c = not (is_empty c.queue) || c.closed

  abbrev pub push : Channel A → A → Channel A
  push c value = record c { queue = c.queue ++ (value ∷ []) }

  -- `send` after its wait.
  send_now : A → Channel A → Result (Unit {0}) × Channel A
  send_now value c = if c.closed then (err closed_error, c) else (ok tt, push c value)

  unfoldable pub send : A → Channel A → Option (Result (Unit {0}) × Channel A)
  unfolding send_now
  send value c = if ltb 0 c.capacity && not (can_send c) then none else some (send_now value c)

  unfoldable pub try_send : A → Channel A → Result (Unit {0}) × Channel A
  try_send value c =
      if c.closed
      then (err closed_error, c)
      else if ltb 0 c.capacity && leb c.capacity (length c.queue)
      then (err full_error, c)
      else (ok tt, push c value)

  pop_front : Channel A → List A → Option A × Channel A
  pop_front c [] = (none, c)
  pop_front c (x ∷ xs) = (some x, record c { queue = xs })

  unfoldable pub try_recv : Channel A → Option A × Channel A
  unfolding pop_front
  try_recv c = pop_front c c.queue

  unfoldable pub recv : Channel A → Option (Option A × Channel A)
  unfolding try_recv
  recv c = if can_recv c then some (try_recv c) else none

  -- `wait_for` ends when the predicate holds, or with the time `expired` and the predicate false.
  unfoldable pub recv_timeout : Bool → Channel A → Option (Option A × Channel A)
  unfolding try_recv
  recv_timeout expired c =
      if can_recv c then some (try_recv c) else if expired then some (none, c) else none

  unfoldable pub close : Channel A → Channel A
  close c = record c { closed = true }

  unfoldable pub is_closed : Channel A → Bool
  is_closed c = c.closed

  unfoldable pub size : Channel A → ℕ
  size c = length c.queue

-- One call, with how its wait (if it has one that times out) ends.
pub data Call {ℓ} (A : Type ℓ) : Type ℓ where
  sends try_sends : A → Call A
  recvs try_recvs closes : Call A
  recvs_within : Bool → Call A

-- What the caller sees; `waits` is a call whose thread went to sleep.
pub data Reply {ℓ} (A : Type ℓ) : Type ℓ where
  sent : Result (Unit {0}) → Reply A
  received : Option A → Reply A
  closing waits : Reply A

module _ {ℓ} {A : Type ℓ} where
  abbrev from_send : Channel A → Option (Result (Unit {0}) × Channel A) → Reply A × Channel A
  from_send c none = (waits, c)
  from_send c (some (r, c')) = (sent r, c')

  abbrev from_recv : Channel A → Option (Option A × Channel A) → Reply A × Channel A
  from_recv c none = (waits, c)
  from_recv c (some (r, c')) = (received r, c')

  unfoldable pub step : Channel A → Call A → Reply A × Channel A
  unfolding send try_send recv try_recv recv_timeout close
  step c (sends v) = from_send c (send v c)
  step c (try_sends v) = from_send c (some (try_send v c))
  step c recvs = from_recv c (recv c)
  step c try_recvs = from_recv c (some (try_recv c))
  step c closes = (closing, close c)
  step c (recvs_within expired) = from_recv c (recv_timeout expired c)

  -- The calls of all threads, in the order in which they hold the mutex.
  unfoldable pub run : Channel A → List (Call A) → List (Reply A) × Channel A
  run c [] = ([], c)
  run c (call ∷ calls) = let (r, c') = step c call in let (rs, c'') = run c' calls in (r ∷ rs, c'')

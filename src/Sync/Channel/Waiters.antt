-- ===== src/Sync/Channel/Waiters.antt =====
-- The condition variables of src/sync/channel.hpp: which threads sleep in `wait`, which have been
-- notified and not yet run, and why no wakeup is lost. The threads run one at a time, under the
-- mutex, in any order; `notify_one` wakes one sleeper if there is one.
use rain.Base.{
  ℕ, ◌+◌, ◌-◌, ◌≤◌, ◌<◌, ◌≡◌, Bool, false, [], ◌∷◌, arith, ltb, if◌then◌else◌, length,
  length-append, Option, none, some, ◌⊎◌,
}
use rain.Sync.Channel.{
  Channel, send, recv, try_recv, try_send, recv_timeout, close, can_recv, can_send,
}
use rain.Core.{Result, ok, err}

-- `asleep` threads wait on the condition variable, `woken` ones were notified and will test the
-- predicate again.
pub record Waiting : Type 0 where
  pub asleep : ℕ
  pub woken : ℕ

abbrev pub notify_one : Waiting → Waiting
notify_one w = if ltb 0 w.asleep then record { asleep = w.asleep - 1; woken = w.woken + 1 } else w

abbrev pub notify_all : Waiting → Waiting
notify_all w = record { asleep = 0; woken = w.woken + w.asleep }

abbrev pub sleeps : Waiting → Waiting
sleeps w = record w { asleep = w.asleep + 1 }

-- A channel with the threads at `not_empty_` and at `not_full_`.
pub record Monitor {ℓ} (A : Type ℓ) : Type ℓ where
  pub chan : Channel A
  pub receivers : Waiting
  pub senders : Waiting

module _ {ℓ} {A : Type ℓ} where
  -- The end of a turn in `send`: the thread sleeps, or a push notifies a receiver.
  abbrev pub after_send : Monitor A → Option (Result (Unit {0}) × Channel A) → Monitor A
  after_send m none = record m { senders = sleeps m.senders }
  after_send m (some (ok u, c)) = record m { chan = c; receivers = notify_one m.receivers }
  after_send m (some (err e, c)) = record m { chan = c }

  -- The end of a turn in `recv`: the thread sleeps, or a pop notifies a sender.
  abbrev pub after_recv : Monitor A → Option (Option A × Channel A) → Monitor A
  after_recv m none = record m { receivers = sleeps m.receivers }
  after_recv m (some (none, c)) = record m { chan = c }
  after_recv m (some (some v, c)) = record m { chan = c; senders = notify_one m.senders }

  -- From the lock, or from a wakeup, to the unlock or the sleep.
  unfoldable pub send_turn : A → Monitor A → Monitor A
  unfolding send
  send_turn v m = after_send m (send v m.chan)

  unfoldable pub try_send_turn : A → Monitor A → Monitor A
  unfolding try_send
  try_send_turn v m = after_send m (some (try_send v m.chan))

  unfoldable pub recv_turn : Monitor A → Monitor A
  unfolding recv
  recv_turn m = after_recv m (recv m.chan)

  unfoldable pub try_recv_turn : Monitor A → Monitor A
  unfolding try_recv
  try_recv_turn m = after_recv m (some (try_recv m.chan))

  unfoldable pub recv_timeout_turn : Bool → Monitor A → Monitor A
  unfolding recv_timeout
  recv_timeout_turn expired m = after_recv m (recv_timeout expired m.chan)

  unfoldable pub close_turn : Monitor A → Monitor A
  unfolding close
  close_turn m = record {
    chan = close m.chan;
    receivers = notify_all m.receivers;
    senders = notify_all m.senders;
  }

-- One notified thread is scheduled and is no longer counted.
abbrev pub runs : Waiting → Waiting
runs w = record w { woken = w.woken - 1 }

-- A spurious wakeup, or a `wait_for` whose time is up.
abbrev pub rouses : Waiting → Waiting
rouses w = record { asleep = w.asleep - 1; woken = w.woken + 1 }

-- What may happen next: a call begins, a notified thread runs, or one awakes by itself.
pub data Step {ℓ} {A : Type ℓ} (m : Monitor A) : Monitor A → Type ℓ where
  begin_send : (v : A) → Step m (send_turn v m)
  begin_try_send : (v : A) → Step m (try_send_turn v m)
  begin_recv : Step m (recv_turn m)
  begin_try_recv : Step m (try_recv_turn m)
  begin_recv_timeout : (expired : Bool) → Step m (recv_timeout_turn expired m)
  begin_close : Step m (close_turn m)
  resume_send :
      (v : A) → 0 < m.senders.woken → Step m (send_turn v (record m { senders = runs m.senders }))
  resume_recv :
      0 < m.receivers.woken → Step m (recv_turn (record m { receivers = runs m.receivers }))
  resume_recv_timeout :
      (expired : Bool)
      → 0 < m.receivers.woken
      → Step m (recv_timeout_turn expired (record m { receivers = runs m.receivers }))
  rouse_send : 0 < m.senders.asleep → Step m (record m { senders = rouses m.senders })
  rouse_recv : 0 < m.receivers.asleep → Step m (record m { receivers = rouses m.receivers })

pub data Reach {ℓ} {A : Type ℓ} (m : Monitor A) : Monitor A → Type ℓ where
  here : Reach m m
  next : {n k : Monitor A} → Reach m n → Step n k → Reach m k

-- While a receiver sleeps the channel is open and every queued value has its notified receiver;
-- while a sender sleeps the channel is bounded and every free place has its notified sender.
pub record IsAwake {ℓ} {A : Type ℓ} (m : Monitor A) : Type 0 where
  pub recv_open : 0 < m.receivers.asleep → m.chan.closed ≡ false
  pub recv_served : 0 < m.receivers.asleep → length m.chan.queue ≤ m.receivers.woken
  pub send_open : 0 < m.senders.asleep → m.chan.closed ≡ false
  pub send_bounded : 0 < m.senders.asleep → 0 < m.chan.capacity
  pub send_served : 0 < m.senders.asleep → m.chan.capacity ≤ length m.chan.queue + m.senders.woken

-- The facts of `IsAwake` that a resumed thread needs: its own notification is used up.
pub record IsServing {ℓ} {A : Type ℓ} (m : Monitor A) (sending receiving : ℕ) : Type 0 where
  pub recv_open : 0 < m.receivers.asleep → m.chan.closed ≡ false
  pub recv_served : 0 < m.receivers.asleep → length m.chan.queue ≤ m.receivers.woken + receiving
  pub send_open : 0 < m.senders.asleep → m.chan.closed ≡ false
  pub send_bounded : 0 < m.senders.asleep → 0 < m.chan.capacity
  pub send_served :
      0 < m.senders.asleep → m.chan.capacity ≤ length m.chan.queue + m.senders.woken + sending

module _ {ℓ} {A : Type ℓ} where
  send_turn-IsAwake :
      (v : A) (m : Monitor A) (k : ℕ) → k ≤ 1 → IsServing m k 0 → IsAwake (send_turn v m)
  unfolding send_turn
  send_turn-IsAwake v m k h w = ground (arith, length-append m.chan.queue (v ∷ []))

  try_send_turn-IsAwake : (v : A) (m : Monitor A) → IsAwake m → IsAwake (try_send_turn v m)
  unfolding try_send_turn
  try_send_turn-IsAwake v m w = ground (arith, length-append m.chan.queue (v ∷ []))

  recv_turn-IsAwake : (m : Monitor A) (k : ℕ) → k ≤ 1 → IsServing m 0 k → IsAwake (recv_turn m)
  unfolding recv_turn
  recv_turn-IsAwake m k h w = ground arith

  try_recv_turn-IsAwake : (m : Monitor A) → IsAwake m → IsAwake (try_recv_turn m)
  unfolding try_recv_turn
  try_recv_turn-IsAwake m w = ground arith

  recv_timeout_turn-IsAwake :
      (expired : Bool) (m : Monitor A) (k : ℕ)
      → k ≤ 1
      → IsServing m 0 k
      → IsAwake (recv_timeout_turn expired m)
  unfolding recv_timeout_turn
  recv_timeout_turn-IsAwake expired m k h w = ground arith

  -- A call that begins has no notification of its own.
  begins : {m : Monitor A} → IsAwake m → IsServing m 0 0
  begins w = record {
    recv_open = w.recv_open;
    recv_served = λ h. omega (arith, w.recv_served h);
    send_open = w.send_open;
    send_bounded = w.send_bounded;
    send_served = λ h. omega (arith, w.send_served h);
  }

  resumes_send : {m : Monitor A} → IsAwake m → IsServing (record m { senders = runs m.senders }) 1 0
  resumes_send w = record {
    recv_open = w.recv_open;
    recv_served = λ h. omega (arith, w.recv_served h);
    send_open = w.send_open;
    send_bounded = w.send_bounded;
    send_served = λ h. omega (arith, w.send_served h);
  }

  resumes_recv :
      {m : Monitor A} → IsAwake m → IsServing (record m { receivers = runs m.receivers }) 0 1
  resumes_recv w = record {
    recv_open = w.recv_open;
    recv_served = λ h. omega (arith, w.recv_served h);
    send_open = w.send_open;
    send_bounded = w.send_bounded;
    send_served = λ h. omega (arith, w.send_served h);
  }

  Step-IsAwake : {m n : Monitor A} → Step m n → IsAwake m → IsAwake n
  unfolding close_turn
  Step-IsAwake {m} (begin_send v) w = send_turn-IsAwake v m 0 (omega arith) (begins w)
  Step-IsAwake {m} (begin_try_send v) w = try_send_turn-IsAwake v m w
  Step-IsAwake {m} begin_recv w = recv_turn-IsAwake m 0 (omega arith) (begins w)
  Step-IsAwake {m} begin_try_recv w = try_recv_turn-IsAwake m w
  Step-IsAwake {m} (begin_recv_timeout x) w =
      recv_timeout_turn-IsAwake x m 0 (omega arith) (begins w)
  Step-IsAwake {m} begin_close w = ground arith
  Step-IsAwake {m} (resume_send v h) w = send_turn-IsAwake v _ 1 (omega arith) (resumes_send w)
  Step-IsAwake {m} (resume_recv h) w = recv_turn-IsAwake _ 1 (omega arith) (resumes_recv w)
  Step-IsAwake {m} (resume_recv_timeout x h) w =
      recv_timeout_turn-IsAwake x _ 1 (omega arith) (resumes_recv w)
  Step-IsAwake {m} (rouse_send h) w = ground arith
  Step-IsAwake {m} (rouse_recv h) w = ground arith

  Reach-IsAwake : {m n : Monitor A} → IsAwake m → Reach m n → IsAwake n
  Reach-IsAwake w here = w
  Reach-IsAwake w (next r st) = Step-IsAwake st (Reach-IsAwake w r)

  -- No wakeup is lost: from a state that is awake, in every state that the threads reach, if a
  -- receiver sleeps then a notified receiver is about to run or there is nothing to receive, and if
  -- a sender sleeps then a notified sender is about to run or there is no room to send.
  pub no_lost_wakeup :
      {m n : Monitor A}
      → IsAwake m
      → Reach m n
      → (0 < n.receivers.asleep → (0 < n.receivers.woken) ⊎ (can_recv n.chan ≡ false))
        × (0 < n.senders.asleep → (0 < n.senders.woken) ⊎ (can_send n.chan ≡ false))
  no_lost_wakeup w r =
      let k = Reach-IsAwake w r in
      (
        λ h. ground (arith, k.recv_open h, k.recv_served h),
        λ h. ground (arith, k.send_open h, k.send_served h),
      )

-- ===== src/Sync/Channel/Tests.antt =====
-- Runs of the channel of src/sync/channel.hpp.
use rain.Base.{ℕ, ◌≡◌, refl, ◌⊎◌, inr, true, false, List, [], ◌∷◌, ◌++◌, none, some, ◌<◌, arith}
use rain.Core.{ok, err}
use rain.Sync.Channel.{
  Channel, make_channel, Call, sends, try_sends, recvs, closes, recvs_within, sent, received,
  closing, waits, run, step, send, try_send, recv, try_recv, recv_timeout, close, closed_error,
  full_error, can_send, can_recv,
}
use rain.Sync.Channel.Capacity
use rain.Sync.Channel.Fifo
use rain.Sync.Channel.Waiters

abbrev of_two : Channel ℕ
of_two = record { queue = 7 ∷ []; capacity = 2; closed = false }

abbrev shut : Channel ℕ
shut = record { queue = 7 ∷ 8 ∷ []; capacity = 2; closed = true }

abbrev some_calls : List (Call ℕ)
some_calls =
    sends 8 ∷ try_sends 9 ∷ sends 10 ∷ recvs ∷ closes ∷ sends 11 ∷ recvs ∷ recvs_within true ∷ []

some_replies :
    (run of_two some_calls).0
    ≡ sent (ok tt)
      ∷ sent (err full_error)
      ∷ waits
      ∷ received (some 7)
      ∷ closing
      ∷ sent (err closed_error)
      ∷ received (some 8)
      ∷ received none
      ∷ []
unfolding run step send try_send recv try_recv recv_timeout close
some_replies = refl

run_fifo_example :
    (7 ∷ []) ++ Fifo.all_accepted of_two some_calls
    ≡ Fifo.all_delivered (run of_two some_calls).0 ++ (run of_two some_calls).1.queue
run_fifo_example = Fifo.run_fifo of_two some_calls

run_closed_example :
    Fifo.NoneWaits (run shut some_calls).0
    × (Fifo.all_accepted shut some_calls ≡ [])
    × ((run shut some_calls).1.closed ≡ true)
    × (Fifo.all_delivered (run shut some_calls).0 ++ (run shut some_calls).1.queue ≡ 7 ∷ 8 ∷ [])
run_closed_example = Fifo.run_closed shut some_calls refl

run-IsBounded_example : Capacity.IsBounded (run of_two some_calls).1
run-IsBounded_example = Capacity.run-IsBounded of_two some_calls (inr (omega arith))

try_send-send_example :
    (send 8 of_two ≡ some (try_send 8 of_two))
    ⊎ ((send 8 of_two ≡ none) × (try_send 8 of_two ≡ (err full_error, of_two)))
try_send-send_example = Fifo.try_send-send 8 of_two

-- An empty channel on which nobody waits.
abbrev idle : Waiters.Monitor ℕ
idle = record {
  chan = make_channel 1;
  receivers = record { asleep = 0; woken = 0 };
  senders = record { asleep = 0; woken = 0 };
}

abbrev after_sleep : Waiters.Monitor ℕ
after_sleep = Waiters.send_turn 5 (Waiters.recv_turn (Waiters.recv_turn idle))

idle-IsAwake : Waiters.IsAwake idle
unfolding make_channel
idle-IsAwake = ground arith

after_sleep_one_woken : (after_sleep.receivers.asleep ≡ 1) × (after_sleep.receivers.woken ≡ 1)
unfolding Waiters.send_turn Waiters.recv_turn make_channel
after_sleep_one_woken = (refl, refl)

no_lost_wakeup_example :
    (0 < after_sleep.receivers.asleep
      → (0 < after_sleep.receivers.woken) ⊎ (can_recv after_sleep.chan ≡ false))
    × (0 < after_sleep.senders.asleep
        → (0 < after_sleep.senders.woken) ⊎ (can_send after_sleep.chan ≡ false))
no_lost_wakeup_example = Waiters.no_lost_wakeup idle-IsAwake (
    Waiters.next (Waiters.next (Waiters.next Waiters.here Waiters.begin_recv) Waiters.begin_recv)
      (Waiters.begin_send 5))

-- ===== src/Sync/Channel/Fifo.antt =====
-- What src/sync/channel.hpp delivers: first in, first out, over any interleaving of the threads'
-- calls, and how a closed channel drains.
use rain.Base.{
  ◌≡◌, refl, ◌≢◌, ◌⊎◌, inl, inr, true, List, [], ◌∷◌, ◌++◌, none, some, arith, append-nil,
  append_assoc, ltb, not, ◌&&◌, Bool-cases,
}
use rain.Core.{ok, err}
use rain.Sync.Channel.{
  Channel, Call, sends, try_sends, recvs, try_recvs, closes, recvs_within, Reply, sent, received,
  waits, send, try_send, step, run, full_error, can_send,
}

module _ {ℓ} {A : Type ℓ} where
  -- The value that a call put into the channel, if its caller was told `Ok`.
  abbrev pub accepted : Call A → Reply A → List A
  accepted (sends v) (sent (ok u)) = v ∷ []
  accepted (try_sends v) (sent (ok u)) = v ∷ []
  accepted call r = []

  abbrev pub delivered : Reply A → List A
  delivered (received (some v)) = v ∷ []
  delivered r = []

  unfoldable pub all_accepted : Channel A → List (Call A) → List A
  all_accepted c [] = []
  all_accepted c (call ∷ calls) =
      let (r, c') = step c call in accepted call r ++ all_accepted c' calls

  unfoldable pub all_delivered : List (Reply A) → List A
  all_delivered [] = []
  all_delivered (r ∷ rs) = delivered r ++ all_delivered rs

  step_fifo :
      (c : Channel A) (call : Call A)
      → c.queue ++ accepted call (step c call).0
        ≡ delivered (step c call).0 ++ (step c call).1.queue
  unfolding step
  step_fifo c (sends v) = ground (arith, append-nil c.queue)
  step_fifo c (try_sends v) = ground (arith, append-nil c.queue)
  step_fifo c recvs = ground (arith, append-nil c.queue)
  step_fifo c try_recvs = ground (arith, append-nil c.queue)
  step_fifo c closes = append-nil c.queue
  step_fifo c (recvs_within expired) = ground (arith, append-nil c.queue)

  -- Whatever the threads do, the values delivered followed by those still queued are the values
  -- first queued followed by those accepted: none is lost, doubled or overtaken.
  pub run_fifo :
      (c : Channel A) (calls : List (Call A))
      → c.queue ++ all_accepted c calls ≡ all_delivered (run c calls).0 ++ (run c calls).1.queue
  unfolding run all_accepted all_delivered
  run_fifo c [] = append-nil c.queue
  run_fifo c (call ∷ calls) = ground (
    arith,
    step_fifo c call,
    run_fifo (step c call).1 calls,
    append_assoc c.queue (accepted call (step c call).0) (all_accepted (step c call).1 calls),
    append_assoc (delivered (step c call).0) (step c call).1.queue
        (all_accepted (step c call).1 calls),
    append_assoc (delivered (step c call).0) (all_delivered (run (step c call).1 calls).0)
        (run (step c call).1 calls).1.queue,
  )

  -- A call on a closed channel: it is not put to sleep, nothing is accepted, and it stays closed.
  step_closed :
      (c : Channel A) (call : Call A)
      → c.closed ≡ true
      → ((step c call).1.closed ≡ true)
        × (accepted call (step c call).0 ≡ [])
        × ((step c call).0 ≢ waits)
  unfolding step
  step_closed c (sends v) e = ground arith
  step_closed c (try_sends v) e = ground arith
  step_closed c recvs e = ground arith
  step_closed c try_recvs e = ground arith
  step_closed c closes e = ground arith
  step_closed c (recvs_within expired) e = ground arith

  abbrev pub NoneWaits : List (Reply A) → Type ℓ
  NoneWaits [] = Unit
  NoneWaits (r ∷ rs) = (r ≢ waits) × NoneWaits rs

  -- Once a channel is closed no caller sleeps, nothing more is accepted, it stays closed, and what
  -- was queued is delivered in order: deliveries and what is left make up the old queue.
  pub run_closed :
      (c : Channel A) (calls : List (Call A))
      → c.closed ≡ true
      → NoneWaits (run c calls).0
        × (all_accepted c calls ≡ [])
        × ((run c calls).1.closed ≡ true)
        × (all_delivered (run c calls).0 ++ (run c calls).1.queue ≡ c.queue)
  unfolding run all_accepted all_delivered
  run_closed c [] e = (tt, refl, e, refl)
  run_closed c (call ∷ calls) e =
      let (still, nothing, awake) = step_closed c call e in
      let (wait, taken, closed, order) = run_closed (step c call).1 calls still in
      (
        (awake, wait),
        rw (nothing, taken),
        closed,
        ground (
          arith,
          order,
          step_fifo c call,
          append-nil c.queue,
          append_assoc (delivered (step c call).0) (all_delivered (run (step c call).1 calls).0)
              (run (step c call).1 calls).1.queue,
        ),
      )

  -- `send` and `try_send` agree where `send` does not sleep; where it does, `try_send` reports a
  -- full channel and leaves it as it was.
  pub try_send-send :
      (v : A) (c : Channel A)
      → (send v c ≡ some (try_send v c))
        ⊎ ((send v c ≡ none) × (try_send v c ≡ (err full_error, c)))
  unfolding send try_send
  try_send-send v c = elim (Bool-cases (ltb 0 c.capacity && not (can_send c))) [
    | inl full ↦ inr (rw full, ground arith)
    | inr room ↦ inl (ground arith)
  ]

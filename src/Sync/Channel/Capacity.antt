-- ===== src/Sync/Channel/Capacity.antt =====
-- The bound of a channel, and what each operation of src/sync/channel.hpp answers on each branch.
use rain.Base.{◌≤◌, ◌≡◌, ◌⊎◌, List, [], ◌∷◌, arith, length, length-append}
use rain.Sync.Channel.{
  Channel, Call, sends, try_sends, recvs, try_recvs, closes, recvs_within, step, run,
}

-- A bounded channel holds at most `capacity_` values.
abbrev pub IsBounded {ℓ} : {A : Type ℓ} → Channel A → Type 0
IsBounded c = (c.capacity ≡ 0) ⊎ (length c.queue ≤ c.capacity)

module _ {ℓ} {A : Type ℓ} where
  -- One call keeps a channel within its capacity, and does not change the capacity.
  pub step-IsBounded :
      (c : Channel A) (call : Call A)
      → IsBounded c
      → IsBounded (step c call).1 × ((step c call).1.capacity ≡ c.capacity)
  unfolding step
  step-IsBounded c (sends v) b = ground (arith, length-append c.queue (v ∷ []))
  step-IsBounded c (try_sends v) b = ground (arith, length-append c.queue (v ∷ []))
  step-IsBounded c recvs b = ground arith
  step-IsBounded c try_recvs b = ground arith
  step-IsBounded c closes b = ground arith
  step-IsBounded c (recvs_within expired) b = ground arith

  -- No sequence of calls takes a channel beyond its capacity.
  pub run-IsBounded :
      (c : Channel A) (calls : List (Call A)) → IsBounded c → IsBounded (run c calls).1
  unfolding run
  run-IsBounded c [] b = b
  run-IsBounded c (call ∷ calls) b = run-IsBounded (step c call).1 calls (step-IsBounded c call b).0

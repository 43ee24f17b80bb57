-- ===== src/Async/Reactor/Awaiters.antt =====
-- src/async/io_reactor.hpp, ReadAwaiter and WriteAwaiter, which differ in the system call, the direction
-- and the messages. `call` is `read` or `write` on the awaiter's descriptor and buffer; `readiness` is the
-- address of `readiness_`. The loop of `await_resume` is on fuel.
use rain.Base.{ℕ, zero, suc, Bool, true, false, Option, none, some, update, if◌then◌else◌, ℤ}
use rain.Core.{
  is_eintr, is_again, Syscall, returned, failed, SystemError, made, from_errno, Errc, Result, ok,
  err,
}
use rain.Async.Concepts.{WaitState}
use rain.Async.Reactor.Slots.{Epoll, PendingEntry, World}
use rain.Async.Reactor.Register.{register_read, register_write}

pub record Awaiter : Type 0 where
  pub fd : ℤ
  pub immediate : Bool
  pub result : Result ℕ
  pub readiness : ℕ

abbrev pub read_blocks : SystemError
read_blocks =
    made Errc.resource_unavailable_try_again "read would block after readiness notification"

abbrev pub write_blocks : SystemError
write_blocks =
    made Errc.resource_unavailable_try_again "write would block after readiness notification"

-- The entry that an awaiter registers: its handle and the address of its readiness.
abbrev pub readiness_entry : ℕ → Awaiter → PendingEntry
readiness_entry h a = record {
  handle = some h;
  result = some a.readiness;
  state = none;
  completion = WaitState.ready;
}

module _ {K : Type 0} where
  -- `await_ready` tries the call once, and does not suspend unless it would block.
  unfoldable pub await_ready :
      (World K → Syscall × World K) → Awaiter → World K → Bool × Awaiter × World K
  await_ready call a w =
      let (r, w') = call w in
      elim r [
        | returned n ↦ (true, record a { result = ok n; immediate = true }, w')
        | failed e ↦
            if is_again e
            then (false, a, w')
            else (true, record a { result = err (from_errno e); immediate = true }, w')
      ]

  -- A failed registration is kept as the readiness, and the coroutine goes on.
  abbrev after_register : Awaiter → Result (Unit {0}) × World K → Bool × World K
  after_register a (ok u, w) = (true, w)
  after_register a (err e, w) = (false, record w { results = update w.results a.readiness (err e) })

  -- The loop of `await_resume`.
  unfoldable pub resume_loop :
      ℕ → SystemError → (World K → Syscall × World K) → World K → Option (Result ℕ × World K)
  resume_loop zero blocks call w = none
  resume_loop (suc fuel) blocks call w =
      let (r, w') = call w in
      let next = resume_loop fuel blocks call in
      elim r [
        | returned n ↦ some (ok n, w')
        | failed e ↦
            if is_eintr e
            then next w'
            else if is_again e
            then some (err blocks, w')
            else some (err (from_errno e), w')
      ]

  unfoldable pub await_resume :
      ℕ
      → SystemError
      → (World K → Syscall × World K)
      → Awaiter
      → World K
      → Option (Result ℕ × World K)
  unfolding resume_loop
  await_resume fuel blocks call a w =
      let rest = resume_loop fuel blocks call w in
      if a.immediate
      then some (a.result, w)
      else elim (w.results a.readiness) [ err e ↦ some (err e, w) | ok n ↦ rest ]

module _ {K : Type 0} (epoll : Epoll K) where
  unfoldable pub read_suspend : ℕ → Awaiter → World K → Bool × World K
  unfolding register_read
  read_suspend h a w = after_register a (register_read epoll a.fd (readiness_entry h a) w)

  unfoldable pub write_suspend : ℕ → Awaiter → World K → Bool × World K
  unfolding register_write
  write_suspend h a w = after_register a (register_write epoll a.fd (readiness_entry h a) w)

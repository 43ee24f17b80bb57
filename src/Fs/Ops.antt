-- ===== src/Fs/Ops.antt =====
-- src/fs/ops.hpp, and the members of `File` of src/fs/file.hpp that hand their work to the blocking pool: each is
-- the coroutine `spawn_blocking_result` of src/fs/detail.hpp on an operation. A string is its bytes.
pub mod Handed
mod Tests
use rain.Base.{ℕ, ℤ, Bool, true, false, String, List, Option, none, some, if◌then◌else◌}
use rain.Core.{SystemError, made, Errc, Result, ok, err}
use rain.Async.Reactor.Slots.{Epoll, World}
use rain.Runtime.ThreadPool.{Pool}
use rain.Runtime.Bridge.{EventfdSystem, BlockingAwaiter}
use rain.Runtime.Bridge.Whole.{Happening, spawn_blocking}
use rain.Fs.System.{System}
use rain.Fs.Metadata.{Metadata}
use rain.Fs.Detail.{
  read_file_sync, write_file_sync, exists_sync, metadata_path_sync, remove_file_sync,
}
use rain.Fs.File.{
  OpenOptions, file_open, file_create, file_append, file_read_at, file_write_at,
  file_write_string_at, file_metadata,
}

abbrev pub no_loop : SystemError
no_loop = made Errc.operation_not_permitted "fs operation requires a running EventLoop"

abbrev pub no_pool : SystemError
no_pool = made Errc.operation_not_permitted "fs operation requires Runtime blocking pool"

-- The coroutine that calls: whether its thread has a `g_reactor` and a `g_thread_pool`, its frame, and the awaiter
-- that it makes.
pub record Caller : Type 0 where
  pub has_reactor : Bool
  pub has_pool : Bool
  pub frame : ℕ
  pub awaiter : BlockingAwaiter

-- An operation as the function of a job; it does not throw.
abbrev pub no_throw :
    {K A : Type 0} → (K → Option (Result A × K)) → K → Option (Option (Result A) × K)
no_throw f k = elim (f k) [ none ↦ none | some (r, k') ↦ some (some r, k') ]

abbrev pub at_once : {K A : Type 0} → (K → Result A × K) → K → Option (Result A × K)
at_once f k = some (f k)

-- `nested`, an error of the bridge or what the operation answered.
abbrev pub flatten : {A : Type 0} → Result (Result A) → Result A
flatten (err e) = err e
flatten (ok r) = r

module _ {K : Type 0} (epoll : Epoll K) (efd : EventfdSystem K) (schedule : List (Happening K))
    (c : Caller) where
  unfoldable pub spawn_blocking_result :
      {A : Type 0}
      → (K → Option (Result A × K))
      → Pool
      → World K
      → Option (Result A × Pool × World K)
  unfolding spawn_blocking
  spawn_blocking_result f p w =
      let nested = spawn_blocking epoll efd (no_throw f) schedule c.frame c.awaiter p w in
      if c.has_reactor
      then (if c.has_pool
          then elim nested [ none ↦ none | some (r, q, v) ↦ some (flatten r, q, v) ]
          else some (err no_pool, p, w))
      else some (err no_loop, p, w)

  module _ (sys : System K) where
    unfoldable pub ops_read :
        ℕ → String → Pool → World K → Option (Result (List ℕ) × Pool × World K)
    ops_read fuel path = spawn_blocking_result (read_file_sync sys fuel path)

    -- The bytes are copied into a string.
    unfoldable pub ops_read_to_string :
        ℕ → String → Pool → World K → Option (Result (List ℕ) × Pool × World K)
    ops_read_to_string fuel path p w = elim (ops_read fuel path p w) [
      | none ↦ none
      | some (err e, q, v) ↦ some (err e, q, v)
      | some (ok bytes, q, v) ↦ some (ok bytes, q, v)
    ]

    unfoldable pub ops_write :
        ℕ → String → List ℕ → Pool → World K → Option (Result (Unit {0}) × Pool × World K)
    ops_write fuel path bytes = spawn_blocking_result (write_file_sync sys fuel path bytes false)

    unfoldable pub ops_write_string :
        ℕ → String → List ℕ → Pool → World K → Option (Result (Unit {0}) × Pool × World K)
    ops_write_string fuel path text =
        spawn_blocking_result (write_file_sync sys fuel path text false)

    unfoldable pub ops_append :
        ℕ → String → List ℕ → Pool → World K → Option (Result (Unit {0}) × Pool × World K)
    ops_append fuel path bytes = spawn_blocking_result (write_file_sync sys fuel path bytes true)

    unfoldable pub ops_append_string :
        ℕ → String → List ℕ → Pool → World K → Option (Result (Unit {0}) × Pool × World K)
    ops_append_string fuel path text =
        spawn_blocking_result (write_file_sync sys fuel path text true)

    unfoldable pub ops_exists : String → Pool → World K → Option (Result Bool × Pool × World K)
    ops_exists path = spawn_blocking_result (at_once (exists_sync sys path))

    unfoldable pub ops_metadata :
        String → Pool → World K → Option (Result Metadata × Pool × World K)
    ops_metadata path = spawn_blocking_result (at_once (metadata_path_sync sys path true))

    unfoldable pub ops_symlink_metadata :
        String → Pool → World K → Option (Result Metadata × Pool × World K)
    ops_symlink_metadata path = spawn_blocking_result (at_once (metadata_path_sync sys path false))

    unfoldable pub ops_remove_file :
        String → Pool → World K → Option (Result (Unit {0}) × Pool × World K)
    ops_remove_file path = spawn_blocking_result (at_once (remove_file_sync sys path))

    -- The members of File. `cell` reads the shared state of the file, which the job does when it runs.
    unfoldable pub open_handed :
        String → OpenOptions → Pool → World K → Option (Result ℤ × Pool × World K)
    open_handed path options = spawn_blocking_result (at_once (file_open sys path options))

    unfoldable pub create_handed : String → Pool → World K → Option (Result ℤ × Pool × World K)
    create_handed path = spawn_blocking_result (at_once (file_create sys path))

    unfoldable pub append_handed : String → Pool → World K → Option (Result ℤ × Pool × World K)
    append_handed path = spawn_blocking_result (at_once (file_append sys path))

    module _ (cell : K → Option ℤ) where
      unfoldable pub read_at_handed :
          ℕ → ℕ → ℕ → Pool → World K → Option (Result (List ℕ) × Pool × World K)
      read_at_handed fuel offset len =
          spawn_blocking_result (λ k. file_read_at sys fuel (cell k) offset len k)

      unfoldable pub write_at_handed :
          ℕ → ℕ → List ℕ → Pool → World K → Option (Result ℕ × Pool × World K)
      write_at_handed fuel offset bytes =
          spawn_blocking_result (λ k. file_write_at sys fuel (cell k) offset bytes k)

      unfoldable pub write_string_at_handed :
          ℕ → ℕ → List ℕ → Pool → World K → Option (Result ℕ × Pool × World K)
      write_string_at_handed fuel offset text =
          spawn_blocking_result (λ k. file_write_string_at sys fuel (cell k) offset text k)

      unfoldable pub metadata_handed : Pool → World K → Option (Result Metadata × Pool × World K)
      metadata_handed = spawn_blocking_result (λ k. file_metadata sys (cell k) k)

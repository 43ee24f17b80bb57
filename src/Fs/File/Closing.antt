-- ===== src/Fs/File/Closing.antt =====
-- A file of src/fs/file.hpp after `close`.
use rain.Base.{ℕ, false, ◌≡◌, refl, List, some, ℤ, pos, negsuc, inl, inr}
use rain.Core.{ok, err, Syscall-outcome}
use rain.Fs.System.{System}
use rain.Fs.File.{
  state_close, file_close, file_read_at, file_write_at, file_metadata, file_valid, file_closed,
}

module _ {W : Type 0} (sys : System W) where
  -- After `close`, whatever the system answered to it, the file is not valid, a second `close` answers `Ok`
  -- and calls nothing, and reads and writes are refused without a system call.
  pub closed_for_good :
      (fuel offset len : ℕ) (bytes : List ℕ) (fd : ℤ) (w v : W)
      → let after = (file_close sys (some fd) w).1 in
        (file_valid after ≡ false)
        × (file_close sys after v ≡ (ok tt, after, v))
        × (file_read_at sys fuel after offset len v ≡ some (err file_closed, v))
        × (file_write_at sys fuel after offset bytes v ≡ some (err file_closed, v))
        × (file_metadata sys after v ≡ some (err file_closed, v))
  unfolding file_close state_close file_valid file_read_at file_write_at file_metadata
  closed_for_good fuel offset len bytes (negsuc n) w v = (refl, refl, refl, refl, refl)
  closed_for_good fuel offset len bytes (pos n) w v =
      elim (Syscall-outcome (sys.close_call (pos n) w).0) [
        | inl (k, e) ↦ rw e (refl, refl, refl, refl, refl)
        | inr (x, e) ↦ rw e (refl, refl, refl, refl, refl)
      ]

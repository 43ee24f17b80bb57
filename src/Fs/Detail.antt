-- ===== src/Fs/Detail.antt =====
-- src/fs/detail.hpp: the blocking operations on files. A loop around a system call is on fuel, and `none`
-- when that is used up; the children show how much is enough.
pub mod WriteAll
pub mod Positions
pub mod Descriptors
use mathlib.Core.Option
use rain.Base.{
  ℕ, zero, suc, ◌+◌, ◌-◌, ◌^◌, Bool, true, false, ◌||◌, not, ◌*◌, List, [], ◌∷◌, ◌++◌, Option, none,
  some, String, ltb, if◌then◌else◌, length, take, drop, ℤ, pos, negsuc, is_negative, minus_one,
}
use rain.Core.{
  Errno, is_eintr, is_enoent, Syscall, returned, failed, Received, got, unread, SystemError, made,
  from_errno, Errc, Result, ok, err,
}
use rain.Fs.Metadata.{Metadata, from_stat}
use rain.Fs.System.{System, OpenFlags, Access}

abbrev pub zero_write : SystemError
zero_write = made Errc.io_error "write returned zero"

abbrev pub zero_pwrite : SystemError
zero_pwrite = made Errc.io_error "pwrite returned zero"

abbrev pub offset_error : SystemError
offset_error = made Errc.invalid_argument "file offset is too large"

-- The largest `off_t`, of 64 bits.
abbrev pub max_off : ℕ
max_off = 2 ^ 63 - 1

unfoldable pub checked_offset : ℕ → Result ℕ
checked_offset offset = if ltb max_off offset then err offset_error else ok offset

unfoldable pub checked_offset_add : ℕ → ℕ → Result ℕ
checked_offset_add offset delta =
    if ltb max_off offset || ltb (max_off - offset) delta
    then err offset_error
    else ok (offset + delta)

-- The flags of `write_file_sync` and `read_file_sync`.
abbrev pub write_flags : Bool → OpenFlags
write_flags append = record {
  access = Access.write_only;
  create = true;
  append = append;
  truncate = not append;
  exclusive = false;
  cloexec = false;
}

abbrev pub read_flags : OpenFlags
read_flags = record {
  access = Access.read_only;
  create = false;
  append = false;
  truncate = false;
  exclusive = false;
  cloexec = false;
}

module _ {W : Type 0} (sys : System W) where
  -- `OwnedFd::close`, which leaves -1 in the object.
  unfoldable pub close_fd : ℤ → W → Result (Unit {0}) × ℤ × W
  close_fd fd w = if is_negative fd then (ok tt, fd, w) else elim (sys.close_call fd w).0 [
    | returned n ↦ (ok tt, minus_one, (sys.close_call fd w).1)
    | failed e ↦ (err (from_errno e), minus_one, (sys.close_call fd w).1)
  ]

  -- The destructor of `OwnedFd`.
  unfoldable pub drop_fd : ℤ → W → W
  unfolding close_fd
  drop_fd fd w = (close_fd fd w).2

  unfoldable pub open_fd : String → OpenFlags → ℕ → W → Result ℤ × W
  open_fd path flags mode w =
      let (r, w') =
        sys.open_call path (record flags { cloexec = true })
          (if flags.create then some mode else none) w in
      (elim r [ returned fd ↦ ok (pos fd) | failed e ↦ err (from_errno e) ], w')

  -- The loop of `write_all_fd`, with `total` bytes written.
  unfoldable pub write_all_loop : ℕ → ℤ → List ℕ → ℕ → W → Option (Result (Unit {0}) × W)
  write_all_loop zero fd bytes total w = none
  write_all_loop (suc fuel) fd bytes total w =
      let (r, w') = sys.write_call fd (drop total bytes) w in
      let next = write_all_loop fuel fd bytes in
      if ltb total (length bytes)
      then elim r [
        | returned zero ↦ some (err zero_write, w')
        | returned (suc n) ↦ next (total + suc n) w'
        | failed e ↦ if is_eintr e then next total w' else some (err (from_errno e), w')
      ]
      else some (ok tt, w)

  unfoldable pub write_all_fd : ℕ → ℤ → List ℕ → W → Option (Result (Unit {0}) × W)
  write_all_fd fuel fd bytes w = write_all_loop fuel fd bytes 0 w

  -- `write_file_sync` after the loop: an error is returned once the descriptor is dropped.
  abbrev pub after_write : ℤ → Result (Unit {0}) × W → Result (Unit {0}) × W
  after_write fd (err e, w) = (err e, drop_fd fd w)
  after_write fd (ok u, w) = let (r, fd', w') = close_fd fd w in (r, drop_fd fd' w')

  unfoldable pub write_file_sync : ℕ → String → List ℕ → Bool → W → Option (Result (Unit {0}) × W)
  unfolding write_all_fd
  write_file_sync fuel path bytes append w =
      let (opened, w') = open_fd path (write_flags append) (6 * 64 + 4 * 8 + 4) w in
      elim opened [
        | err e ↦ some (err e, w')
        | ok fd ↦ Option.map (after_write fd) (write_all_fd fuel fd bytes w')
      ]

  -- The loop of `read_file_sync` with what it has read. The `fstat` before it only reserves memory.
  unfoldable pub read_loop : ℕ → ℤ → List ℕ → W → Option (Result (List ℕ) × W)
  read_loop zero fd bytes w = none
  read_loop (suc fuel) fd bytes w =
      let (r, w') = sys.read_call fd 8192 w in
      let next = read_loop fuel fd in
      elim r [
        | got [] ↦ some (ok bytes, w')
        | got (b ∷ more) ↦ next (bytes ++ (b ∷ more)) w'
        | unread e ↦ if is_eintr e then next bytes w' else some (err (from_errno e), w')
      ]

  abbrev pub after_read : ℤ → Result (List ℕ) × W → Result (List ℕ) × W
  after_read fd (err e, w) = (err e, drop_fd fd w)
  after_read fd (ok bytes, w) =
      let (r, fd', w') = close_fd fd w in
      (elim r [ err e ↦ err e | ok u ↦ ok bytes ], drop_fd fd' w')

  unfoldable pub read_file_sync : ℕ → String → W → Option (Result (List ℕ) × W)
  read_file_sync fuel path w =
      let (opened, w') = open_fd path read_flags 0 w in
      elim opened [
        | err e ↦ some (err e, w')
        | ok fd ↦ Option.map (after_read fd) (read_loop fuel fd [] w')
      ]

  -- The loop of `read_at_fd_sync`; `bytes` are the bytes read.
  unfoldable pub read_at_loop : ℕ → ℤ → ℕ → ℕ → List ℕ → W → Option (Result (List ℕ) × W)
  read_at_loop zero fd offset len bytes w = none
  read_at_loop (suc fuel) fd offset len bytes w =
      let next = read_at_loop fuel fd offset len in
      if ltb (length bytes) len
      then elim (checked_offset_add offset (length bytes)) [
        | err e ↦ some (err e, w)
        | ok current ↦
            let (r, w') = sys.pread_call fd (len - length bytes) current w in
            elim r [
              | got [] ↦ some (ok bytes, w')
              | got (b ∷ more) ↦ next (bytes ++ (b ∷ more)) w'
              | unread e ↦ if is_eintr e then next bytes w' else some (err (from_errno e), w')
            ]
      ]
      else some (ok bytes, w)

  unfoldable pub read_at_fd_sync : ℕ → ℤ → ℕ → ℕ → W → Option (Result (List ℕ) × W)
  read_at_fd_sync fuel fd offset len w = elim (checked_offset offset) [
    | err e ↦ some (err e, w)
    | ok o ↦ read_at_loop fuel fd offset len [] w
  ]

  -- The loop of `write_at_fd_sync`, with `total` bytes written.
  unfoldable pub write_at_loop : ℕ → ℤ → ℕ → List ℕ → ℕ → W → Option (Result ℕ × W)
  write_at_loop zero fd offset bytes total w = none
  write_at_loop (suc fuel) fd offset bytes total w =
      let next = write_at_loop fuel fd offset bytes in
      if ltb total (length bytes)
      then elim (checked_offset_add offset total) [
        | err e ↦ some (err e, w)
        | ok current ↦
            let (r, w') = sys.pwrite_call fd (drop total bytes) current w in
            elim r [
              | returned zero ↦ some (err zero_pwrite, w')
              | returned (suc n) ↦ next (total + suc n) w'
              | failed e ↦ if is_eintr e then next total w' else some (err (from_errno e), w')
            ]
      ]
      else some (ok total, w)

  unfoldable pub write_at_fd_sync : ℕ → ℤ → ℕ → List ℕ → W → Option (Result ℕ × W)
  write_at_fd_sync fuel fd offset bytes w = write_at_loop fuel fd offset bytes 0 w

  unfoldable pub exists_sync : String → W → Result Bool × W
  exists_sync path w =
      let (r, w') = sys.access_call path w in
      (
        elim r [
          | returned n ↦ ok true
          | failed e ↦ if is_enoent e then ok false else err (from_errno e)
        ],
        w',
      )

  unfoldable pub remove_file_sync : String → W → Result (Unit {0}) × W
  remove_file_sync path w =
      let (r, w') = sys.unlink_call path w in
      (elim r [ returned n ↦ ok tt | failed e ↦ err (from_errno e) ], w')

  unfoldable pub metadata_fd_sync : ℤ → W → Result Metadata × W
  metadata_fd_sync fd w = let (r, w') = sys.fstat_call fd w in (from_stat r, w')

  unfoldable pub metadata_path_sync : String → Bool → W → Result Metadata × W
  metadata_path_sync path follow_symlink w =
      let (r, w') = if follow_symlink then sys.stat_call path w else sys.lstat_call path w in
      (from_stat r, w')

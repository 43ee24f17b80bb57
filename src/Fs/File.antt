-- ===== src/Fs/File.antt =====
-- src/fs/file.hpp: options of opening, and `File`, a shared cell with its descriptor. An operation runs
-- under the cell's mutex and is one step; src/fs/ops.hpp has the hand-over to the blocking pool beside it.
pub mod Options
pub mod Closing
use rain.Base.{
  ◌*◌, ◌+◌, ℕ, Bool, true, false, not, ◌||◌, ◌&&◌, List, Option, none, some, String, if◌then◌else◌,
  ℤ, is_negative, minus_one,
}
use rain.Core.{Result, ok, err, SystemError, made, from_errno, Errc, returned, failed}
use rain.Fs.System.{System, OpenFlags, Access}
use rain.Fs.Detail.{open_fd, read_at_fd_sync, write_at_fd_sync, metadata_fd_sync}
use rain.Fs.Metadata.{Metadata}

pub record OpenOptions : Type 0 where
  pub read : Bool
  pub write : Bool
  pub append : Bool
  pub truncate : Bool
  pub create : Bool
  pub create_new : Bool
  pub mode : ℕ

-- The options with `read` alone set or cleared, and the other defaults.
abbrev pub defaults : Bool → OpenOptions
defaults read = record {
  read = read;
  write = false;
  append = false;
  truncate = false;
  create = false;
  create_new = false;
  mode = 6 * 64 + 4 * 8 + 4;
}

unfoldable pub read_only : OpenOptions
read_only = defaults true

unfoldable pub write_only : OpenOptions
write_only = record (defaults false) { write = true }

unfoldable pub read_write : OpenOptions
read_write = record (defaults true) { write = true }

unfoldable pub create_truncate : OpenOptions
create_truncate = record (defaults false) { write = true; truncate = true; create = true }

unfoldable pub append_create : OpenOptions
append_create = record (defaults false) { write = true; append = true; create = true }

abbrev pub no_access : SystemError
no_access = made Errc.invalid_argument "OpenOptions must enable read or write access"

abbrev pub needs_write : OpenOptions → Bool
needs_write o = o.write || o.append || o.truncate || o.create || o.create_new

abbrev pub flags_with : OpenOptions → Access → OpenFlags
flags_with o access = record {
  access = access;
  create = o.create || o.create_new;
  append = o.append;
  truncate = o.truncate;
  exclusive = o.create_new;
  cloexec = false;
}

unfoldable pub open_flags : OpenOptions → Result OpenFlags
open_flags o =
    if o.read && needs_write o
    then ok (flags_with o Access.read_write)
    else if o.read
    then ok (flags_with o Access.read_only)
    else if needs_write o
    then ok (flags_with o Access.write_only)
    else err no_access

abbrev pub not_open : SystemError
not_open = made Errc.bad_file_descriptor "file is not open"

abbrev pub file_closed : SystemError
file_closed = made Errc.bad_file_descriptor "file is closed"

module _ {W : Type 0} (sys : System W) where
  -- `File::open` makes a cell with the descriptor.
  unfoldable pub file_open : String → OpenOptions → W → Result ℤ × W
  file_open path options w = elim (open_flags options) [
    | err e ↦ (err e, w)
    | ok flags ↦ open_fd sys path flags options.mode w
  ]

  unfoldable pub file_create : String → W → Result ℤ × W
  unfolding file_open
  file_create path w = file_open path create_truncate w

  unfoldable pub file_append : String → W → Result ℤ × W
  unfolding file_open
  file_append path w = file_open path append_create w

  -- What `read_at`, `write_at` and `metadata` do first: `state` is null, or the cell.
  abbrev pub with_fd {ℓ} :
      {A : Type ℓ} → Option ℤ → (ℤ → W → Option (Result A × W)) → W → Option (Result A × W)
  with_fd none use_fd w = some (err not_open, w)
  with_fd (some fd) use_fd w = if is_negative fd then some (err file_closed, w) else use_fd fd w

  unfoldable pub file_read_at : ℕ → Option ℤ → ℕ → ℕ → W → Option (Result (List ℕ) × W)
  file_read_at fuel state offset len w =
      with_fd state (λ fd v. read_at_fd_sync sys fuel fd offset len v) w

  unfoldable pub file_write_at : ℕ → Option ℤ → ℕ → List ℕ → W → Option (Result ℕ × W)
  file_write_at fuel state offset bytes w =
      with_fd state (λ fd v. write_at_fd_sync sys fuel fd offset bytes v) w

  -- `write_string_at`, of the bytes of the string.
  unfoldable pub file_write_string_at : ℕ → Option ℤ → ℕ → List ℕ → W → Option (Result ℕ × W)
  file_write_string_at fuel state offset text w =
      with_fd state (λ fd v. write_at_fd_sync sys fuel fd offset text v) w

  unfoldable pub file_metadata : Option ℤ → W → Option (Result Metadata × W)
  file_metadata state w = with_fd state (λ fd v. some (metadata_fd_sync sys fd v)) w

  -- `File::State::close`, which leaves -1 in the cell.
  unfoldable pub state_close : ℤ → W → Result (Unit {0}) × ℤ × W
  state_close fd w = if is_negative fd then (ok tt, fd, w) else elim (sys.close_call fd w).0 [
    | returned n ↦ (ok tt, minus_one, (sys.close_call fd w).1)
    | failed e ↦ (err (from_errno e), minus_one, (sys.close_call fd w).1)
  ]

  unfoldable pub file_close : Option ℤ → W → Result (Unit {0}) × Option ℤ × W
  unfolding state_close
  file_close none w = (ok tt, none, w)
  file_close (some fd) w = let (r, fd', w') = state_close fd w in (r, some fd', w')

unfoldable pub file_valid : Option ℤ → Bool
file_valid none = false
file_valid (some fd) = not (is_negative fd)

unfoldable pub file_fd : Option ℤ → ℤ
file_fd none = minus_one
file_fd (some fd) = fd

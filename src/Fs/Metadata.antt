-- ===== src/Fs/Metadata.antt =====
-- src/fs/metadata.hpp. A `struct stat` has its size, which may be negative, its permission and mode
-- bits, and the answers of the macros on its type.
use rain.Base.{ℕ, ◌%◌, Bool, if◌then◌else◌, ℤ, pos, negsuc}
use rain.Core.{Errno, Result, ok, err, from_errno}

pub data FileType : Type 0 where
  regular directory symlink other : FileType

pub record Metadata : Type 0 where
  pub size : ℕ
  pub permissions : ℕ
  pub type : FileType

pub record Stat : Type 0 where
  pub st_size : ℤ
  pub st_mode : ℕ
  pub is_reg : Bool
  pub is_dir : Bool
  pub is_lnk : Bool

-- `st_mode & 07777` keeps twelve bits.
unfoldable pub metadata_from_stat : Stat → Metadata
metadata_from_stat st = record {
  size = elim st.st_size [ pos n ↦ n | negsuc n ↦ 0 ];
  permissions = st.st_mode % 4096;
  type =
      if st.is_reg
      then FileType.regular
      else if st.is_dir
      then FileType.directory
      else if st.is_lnk
      then FileType.symlink
      else FileType.other;
}

-- What a call of the `stat` family answers.
pub data Stated : Type 0 where
  stated : Stat → Stated
  unstated : Errno → Stated

-- The end of `metadata_fd_sync` and of `metadata_path_sync`.
abbrev pub from_stat : Stated → Result Metadata
from_stat (stated st) = ok (metadata_from_stat st)
from_stat (unstated e) = err (from_errno e)

-- ===== src/Fs/System.antt =====
-- The system calls of src/fs/detail.hpp as an interface: a world, a function on it for each call, and
-- (in the records of laws) what POSIX documents of them.
use rain.Base.{
  ℕ, ◌+◌, ◌≤◌, ◌<◌, ◌≡◌, List, ◌++◌, Option, String, Bool, length, take, drop, byte_at, ltb, leb,
  ◌&&◌, ◌-◌, if◌then◌else◌, [], ℤ,
}
use rain.Fs.Metadata.{Stated}
use rain.Core.{Errno, Syscall, returned, failed, Received, got, unread, one_at, closes}

pub data Access : Type 0 where
  read_only write_only read_write : Access

-- The flags of `open`, one field for each bit that the program sets.
pub record OpenFlags : Type 0 where
  pub access : Access
  pub create : Bool
  pub append : Bool
  pub truncate : Bool
  pub exclusive : Bool
  pub cloexec : Bool

pub record System (W : Type 0) : Type 0 where
  pub open_call : String → OpenFlags → Option ℕ → W → Syscall × W
  pub close_call : ℤ → W → Syscall × W
  pub write_call : ℤ → List ℕ → W → Syscall × W
  pub read_call : ℤ → ℕ → W → Received × W
  pub pread_call : ℤ → ℕ → ℕ → W → Received × W
  pub pwrite_call : ℤ → List ℕ → ℕ → W → Syscall × W
  pub access_call : String → W → Syscall × W
  pub unlink_call : String → W → Syscall × W
  pub fstat_call : ℤ → W → Stated × W
  pub stat_call : String → W → Stated × W
  pub lstat_call : String → W → Stated × W

-- `write` on one descriptor appends a prefix of its argument to what was written, or fails and writes
-- nothing; `interrupts` bounds the signals still to come.
pub record Writes {W : Type 0} (sys : System W) (fd : ℤ) : Type 0 where
  pub written : W → List ℕ
  pub interrupts : W → ℕ
  pub wrote :
      (n : ℕ) (bytes : List ℕ) (w : W)
      → (sys.write_call fd bytes w).0 ≡ returned n
      → (n ≤ length bytes)
        × (written (sys.write_call fd bytes w).1 ≡ written w ++ take n bytes)
        × (interrupts (sys.write_call fd bytes w).1 ≤ interrupts w)
  pub write_failed :
      (e : Errno) (bytes : List ℕ) (w : W)
      → (sys.write_call fd bytes w).0 ≡ failed e
      → written (sys.write_call fd bytes w).1 ≡ written w
  pub write_interrupted :
      (bytes : List ℕ) (w : W)
      → (sys.write_call fd bytes w).0 ≡ failed Errno.eintr
      → interrupts (sys.write_call fd bytes w).1 < interrupts w

-- `pread` on one descriptor answers a part of the file at the offset, nothing only at its end, and
-- changes nothing.
pub record Preads {W : Type 0} (sys : System W) (fd : ℤ) : Type 0 where
  pub contents : W → List ℕ
  pub interrupts : W → ℕ
  pub pread_got :
      (len offset : ℕ) (bytes : List ℕ) (w : W)
      → (sys.pread_call fd len offset w).0 ≡ got bytes
      → (length bytes ≤ len)
        × (bytes ≡ take (length bytes) (drop offset (contents w)))
        × (interrupts (sys.pread_call fd len offset w).1 ≤ interrupts w)
  pub pread_end :
      (len offset : ℕ) (w : W)
      → 0 < len
      → (sys.pread_call fd len offset w).0 ≡ got []
      → length (contents w) ≤ offset
  pub pread_keeps :
      (len offset : ℕ) (w : W) → contents (sys.pread_call fd len offset w).1 ≡ contents w
  pub pread_interrupted :
      (len offset : ℕ) (w : W)
      → (sys.pread_call fd len offset w).0 ≡ unread Errno.eintr
      → interrupts (sys.pread_call fd len offset w).1 < interrupts w

-- The contents `old` with the first `n` of some bytes over it from `offset` on.
abbrev pub patched : (ℕ → ℕ) → ℕ → List ℕ → ℕ → ℕ → ℕ
patched old offset bytes n i =
    if leb offset i && ltb i (offset + n) then byte_at bytes (i - offset) else old i

-- `pwrite` on one descriptor puts a prefix of its argument at the offset, or fails and changes nothing.
pub record Pwrites {W : Type 0} (sys : System W) (fd : ℤ) : Type 0 where
  pub content : W → ℕ → ℕ
  pub interrupts : W → ℕ
  pub pwrote :
      (n offset : ℕ) (bytes : List ℕ) (w : W)
      → (sys.pwrite_call fd bytes offset w).0 ≡ returned n
      → (n ≤ length bytes)
        × ((i : ℕ)
            → content (sys.pwrite_call fd bytes offset w).1 i
              ≡ patched (content w) offset bytes n i)
        × (interrupts (sys.pwrite_call fd bytes offset w).1 ≤ interrupts w)
  pub pwrite_failed :
      (e : Errno) (offset : ℕ) (bytes : List ℕ) (w : W)
      → (sys.pwrite_call fd bytes offset w).0 ≡ failed e
      → (i : ℕ) → content (sys.pwrite_call fd bytes offset w).1 i ≡ content w i
  pub pwrite_interrupted :
      (offset : ℕ) (bytes : List ℕ) (w : W)
      → (sys.pwrite_call fd bytes offset w).0 ≡ failed Errno.eintr
      → interrupts (sys.pwrite_call fd bytes offset w).1 < interrupts w

-- How often `open` answered descriptor `d`, and how often `close` was called of `d` (Linux gives the descriptor
-- back even where `close` fails).
pub record Counters {W : Type 0} (sys : System W) (d : ℕ) : Type 0 where
  pub opened : W → ℕ
  pub closed : W → ℕ
  pub opens :
      (path : String) (flags : OpenFlags) (mode : Option ℕ) (fd : ℕ) (w : W)
      → (sys.open_call path flags mode w).0 ≡ returned fd
      → opened (sys.open_call path flags mode w).1 ≡ opened w + one_at d fd
  pub opens_not :
      (path : String) (flags : OpenFlags) (mode : Option ℕ) (e : Errno) (w : W)
      → (sys.open_call path flags mode w).0 ≡ failed e
      → opened (sys.open_call path flags mode w).1 ≡ opened w
  pub open_closes :
      (path : String) (flags : OpenFlags) (mode : Option ℕ) (w : W)
      → closed (sys.open_call path flags mode w).1 ≡ closed w
  pub closes :
      (fd : ℤ) (w : W)
      → (opened (sys.close_call fd w).1 ≡ opened w)
        × (closed (sys.close_call fd w).1 ≡ closed w + closes d fd)
  pub writes :
      (fd : ℤ) (bytes : List ℕ) (w : W)
      → (opened (sys.write_call fd bytes w).1 ≡ opened w)
        × (closed (sys.write_call fd bytes w).1 ≡ closed w)
  pub reads :
      (fd : ℤ) (len : ℕ) (w : W)
      → (opened (sys.read_call fd len w).1 ≡ opened w)
        × (closed (sys.read_call fd len w).1 ≡ closed w)

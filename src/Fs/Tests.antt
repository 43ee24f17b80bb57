-- ===== src/Fs/Tests.antt =====
-- A system with one file in memory, and the properties of src/fs on it.
use mathlib.Core.Option
use rain.Base.{
  ℕ, ◌+◌, ◌-◌, ◌≡◌, refl, true, false, List, [], ◌∷◌, ◌++◌, some, arith, min, ltb, if◌then◌else◌,
  length, take, drop, length-take, take-length-take, length-drop, ℤ, pos, sym, ap, ◌∙◌,
}
use rain.Core.{Errno, Syscall, returned, failed, Received, got, Result, ok, err, one_at, closes}
use rain.Fs.Metadata.{unstated}
use rain.Fs.System.{System, Writes, Preads, Pwrites, Counters, patched}
use rain.Fs.Detail.{
  write_all_fd, write_file_sync, read_file_sync, read_at_fd_sync, write_at_fd_sync, write_all_loop,
  read_loop, read_at_loop, checked_offset, checked_offset_add, open_fd, close_fd, drop_fd,
}
use rain.Fs.Detail.Descriptors.{whole_file-balanced}
use rain.Fs.Detail.Positions.ReadAt.{read_at_fd_sync_lem, Reads}
use rain.Fs.Detail.Positions.WriteAt.{write_at_fd_sync_lem, Counts}
use rain.Fs.File.{file_close, file_valid, file_read_at, file_write_at, file_metadata, file_closed}
use rain.Fs.File.Closing.{closed_for_good}

-- What was written, the file, how often descriptor 3 was opened and closed, and signals to come.
pub record Disk : Type 0 where
  pub log : List ℕ
  pub file : List ℕ
  pub cells : ℕ → ℕ
  pub opened : ℕ
  pub closed : ℕ
  pub signals : ℕ

-- `write` takes two bytes at most, after a signal for each one to come.
abbrev write_two : ℤ → List ℕ → Disk → Syscall × Disk
write_two fd bytes d =
    if ltb 0 d.signals then (failed Errno.eintr, record d { signals = d.signals - 1 }) else (
      returned (min 2 (length bytes)),
      record d { log = d.log ++ take (min 2 (length bytes)) bytes },
    )

abbrev pread_two : ℤ → ℕ → ℕ → Disk → Received × Disk
pread_two fd len offset d = (got (take (min 2 len) (drop offset d.file)), d)

abbrev pwrite_two : ℤ → List ℕ → ℕ → Disk → Syscall × Disk
pwrite_two fd bytes offset d = (
  returned (min 2 (length bytes)),
  record d { cells = patched d.cells offset bytes (min 2 (length bytes)) },
)

abbrev in_memory : System Disk
in_memory = record {
  open_call = λ path flags mode d. (returned 3, record d { opened = d.opened + 1 });
  close_call = λ fd d. (returned 0, record d { closed = d.closed + closes 3 fd });
  write_call = write_two;
  read_call = λ fd len d. (got (take len d.file), record d { file = drop len d.file });
  pread_call = pread_two;
  pwrite_call = pwrite_two;
  access_call = λ path d. (returned 0, d);
  unlink_call = λ path d. (returned 0, d);
  fstat_call = λ fd d. (unstated Errno.ebadf, d);
  stat_call = λ path d. (unstated Errno.enoent, d);
  lstat_call = λ path d. (unstated Errno.enoent, d);
}

in_memory-Writes : (fd : ℤ) → Writes in_memory fd
in_memory-Writes fd = record {
  written = λ d. d.log;
  interrupts = λ d. d.signals;
  wrote = λ n bytes d h. ground (arith, h);
  write_failed = λ e bytes d h. ground (arith, h);
  write_interrupted = λ bytes d h. ground (arith, h);
}

in_memory-Preads : (fd : ℤ) → Preads in_memory fd
in_memory-Preads fd = record {
  contents = λ d. d.file;
  interrupts = λ d. d.signals;
  pread_got = λ len offset bytes d h.
      let e : bytes ≡ take (min 2 len) (drop offset d.file) = ground (arith, h) in
      rw e (
        omega (arith, length-take (min 2 len) (drop offset d.file)),
        sym (take-length-take (min 2 len) (drop offset d.file)),
        omega arith,
      );
  pread_end = λ len offset d some_asked h.
      let e : take (min 2 len) (drop offset d.file) ≡ [] = ground (arith, h) in
      let l = length-take (min 2 len) (drop offset d.file) in
      let l' : 0 ≡ min (min 2 len) (length (drop offset d.file)) = sym (ap length e) ∙ l in
      omega (arith, l', length-drop offset d.file);
  pread_keeps = λ len offset d. refl;
  pread_interrupted = λ len offset d h. absurd (ground (arith, h));
}

in_memory-Pwrites : (fd : ℤ) → Pwrites in_memory fd
in_memory-Pwrites fd = record {
  content = λ d. d.cells;
  interrupts = λ d. d.signals;
  pwrote = λ n offset bytes d h.
      let e : n ≡ min 2 (length bytes) = ground (arith, h) in
      rw e (omega arith, λ i. refl, omega arith);
  pwrite_failed = λ e offset bytes d h. absurd (ground (arith, h));
  pwrite_interrupted = λ offset bytes d h. absurd (ground (arith, h));
}

in_memory-Counters : Counters in_memory 3
unfolding one_at
in_memory-Counters = record {
  opened = λ d. d.opened;
  closed = λ d. d.closed;
  opens = λ path flags mode fd d h. ground (arith, h);
  opens_not = λ path flags mode e d h. absurd (ground (arith, h));
  open_closes = λ path flags mode d. refl;
  closes = λ fd d. (refl, refl);
  writes = λ fd bytes d. ground arith;
  reads = λ fd len d. (refl, refl);
}

abbrev a_disk : Disk
a_disk = record {
  log = 9 ∷ [];
  file = 1 ∷ 2 ∷ 3 ∷ 4 ∷ 5 ∷ [];
  cells = λ i. 0;
  opened = 0;
  closed = 0;
  signals = 1;
}

abbrev three_bytes : List ℕ
three_bytes = 6 ∷ 7 ∷ 8 ∷ []

-- Two writes after one signal.
three_written :
    Option.map (λ r. r.1.log) (write_all_fd in_memory 9 (pos 3) three_bytes a_disk)
    ≡ some (9 ∷ 6 ∷ 7 ∷ 8 ∷ [])
unfolding write_all_fd write_all_loop
three_written = refl

three_read :
    Option.map (λ r. r.0) (read_at_fd_sync in_memory 9 (pos 3) 1 3 a_disk)
    ≡ some (ok (2 ∷ 3 ∷ 4 ∷ []))
unfolding read_at_fd_sync read_at_loop checked_offset checked_offset_add
three_read = refl

read_at_fd_sync_lem_example :
    (r : Result (List ℕ)) × (d : Disk) × (read_at_fd_sync in_memory 5 (pos 3) 1 3 a_disk
      ≡ some (r, d))
    × Reads (1 ∷ 2 ∷ 3 ∷ 4 ∷ 5 ∷ []) 1 3 r
unfolding in_memory-Preads
read_at_fd_sync_lem_example =
    read_at_fd_sync_lem in_memory (pos 3) (in_memory-Preads (pos 3)) 1 3 a_disk

write_at_fd_sync_lem_example :
    (r : Result ℕ) × (d : Disk) × (k : ℕ) × (write_at_fd_sync in_memory 5
        (pos 3)
        40
        three_bytes
        a_disk
      ≡ some (r, d))
    × Counts three_bytes r k
    × ((i : ℕ) → d.cells i ≡ patched (λ j. 0) 40 three_bytes k i)
unfolding in_memory-Pwrites
write_at_fd_sync_lem_example =
    write_at_fd_sync_lem in_memory (pos 3) (in_memory-Pwrites (pos 3)) 40 three_bytes a_disk

abbrev after_file : Disk
after_file = record a_disk { log = 9 ∷ 6 ∷ 7 ∷ 8 ∷ []; opened = 1; closed = 1; signals = 0 }

file_written : write_file_sync in_memory 9 "log" three_bytes true a_disk ≡ some (ok tt, after_file)
unfolding write_file_sync write_all_loop write_all_fd open_fd close_fd drop_fd one_at
file_written = refl

abbrev after_reading : Disk
after_reading = record after_file { file = []; opened = 2; closed = 2 }

file_read :
    read_file_sync in_memory 9 "log" after_file ≡ some (ok (1 ∷ 2 ∷ 3 ∷ 4 ∷ 5 ∷ []), after_reading)
unfolding read_file_sync read_loop open_fd close_fd drop_fd one_at
file_read = refl

whole_file-balanced_example :
    (after_file.opened + a_disk.closed ≡ a_disk.opened + after_file.closed)
    × (after_reading.opened + after_file.closed ≡ after_file.opened + after_reading.closed)
unfolding in_memory-Counters
whole_file-balanced_example =
    whole_file-balanced in_memory 3 in_memory-Counters 9 "log" three_bytes true a_disk after_file
      after_reading (ok tt) (ok (1 ∷ 2 ∷ 3 ∷ 4 ∷ 5 ∷ [])) file_written file_read

closed_for_good_example :
    let after = (file_close in_memory (some (pos 3)) a_disk).1 in
    (file_valid after ≡ false)
    × (file_close in_memory after after_file ≡ (ok tt, after, after_file))
    × (file_read_at in_memory 7 after 0 5 after_file ≡ some (err file_closed, after_file))
    × (file_write_at in_memory 7 after 0 three_bytes after_file
        ≡ some (err file_closed, after_file))
    × (file_metadata in_memory after after_file ≡ some (err file_closed, after_file))
closed_for_good_example = closed_for_good in_memory 7 0 5 three_bytes (pos 3) a_disk after_file

-- ===== src/Fs/File/Options.antt =====
-- `open_flags` of src/fs/file.hpp: which files can be opened, and how.
use rain.Base.{Bool, true, false, ◌||◌, ◌≡◌, arith, ◌⊎◌, inl, inr, Bool-cases}
use rain.Core.{ok, err}
use rain.Fs.System.{OpenFlags, Access}
use rain.Fs.File.{OpenOptions, open_flags, no_access, needs_write, flags_with}

-- The access of a file that can be opened.
abbrev pub may_read : Access → Bool
may_read Access.write_only = false
may_read a = true

abbrev pub may_write : Access → Bool
may_write Access.read_only = false
may_write a = true

-- What the flags promise of the options.
pub record Honours (o : OpenOptions) (f : OpenFlags) : Type 0 where
  pub reads : may_read f.access ≡ o.read
  pub writes : may_write f.access ≡ needs_write o
  pub appends : f.append ≡ o.append
  pub truncates : f.truncate ≡ o.truncate
  pub creates : f.create ≡ (o.create || o.create_new)
  pub exclusive_creates : f.exclusive ≡ true → f.create ≡ true

-- The flags for any options: the file can be read iff that is asked for, and written iff something that
-- writes is; exclusive creation comes with creation; only options that ask for nothing are refused.
pub open_flags-Honours :
    (o : OpenOptions)
    → ((f : OpenFlags) × (open_flags o ≡ ok f) × Honours o f)
      ⊎ ((open_flags o ≡ err no_access) × (o.read ≡ false) × (needs_write o ≡ false))
unfolding open_flags
open_flags-Honours o = elim (Bool-cases o.read) [
  | inl r ↦ elim (Bool-cases (needs_write o)) [
    | inl w ↦ inl (flags_with o Access.read_write, ground (arith, r, w), ground (arith, r, w))
    | inr w ↦ inl (flags_with o Access.read_only, ground (arith, r, w), ground (arith, r, w))
  ]
  | inr r ↦ elim (Bool-cases (needs_write o)) [
    | inl w ↦ inl (flags_with o Access.write_only, ground (arith, r, w), ground (arith, r, w))
    | inr w ↦ inr (ground (arith, r, w), r, w)
  ]
]

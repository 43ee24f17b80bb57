-- ===== src/Core.antt =====
-- src/core/result.hpp and src/core/types.hpp: errors as values.
pub mod Diagnostics
use rain.Base.{
  ℤ, pos, negsuc, if◌then◌else◌, ◌==◌, ◌+◌, ℕ, String, Bool, true, false, List, ◌≡◌, refl, ◌⊎◌, inl,
  inr, zero, suc, arith, [], ◌∷◌,
}

-- The `std::errc` values that the program makes errors from.
pub data Errc : Type 0 where
  broken_pipe resource_unavailable_try_again operation_canceled timed_out : Errc
  bad_file_descriptor device_or_resource_busy invalid_argument operation_not_permitted : Errc
  io_error message_size : Errc

-- `errno`: the values that the program tests, and all others.
pub data Errno : Type 0 where
  eintr eagain ewouldblock enoent ebadf einprogress : Errno
  other : ℕ → Errno

abbrev pub is_eintr : Errno → Bool
is_eintr Errno.eintr = true
is_eintr e = false

-- `errno == EAGAIN || errno == EWOULDBLOCK`.
abbrev pub is_again : Errno → Bool
is_again Errno.eagain = true
is_again Errno.ewouldblock = true
is_again e = false

abbrev pub is_enoent : Errno → Bool
is_enoent Errno.enoent = true
is_enoent e = false

-- A system call that answers a count or a descriptor, or fails; and one that answers bytes.
pub data Syscall : Type 0 where
  returned : ℕ → Syscall
  failed : Errno → Syscall

pub data Received : Type 0 where
  got : List ℕ → Received
  unread : Errno → Received

-- `SystemError` without its source location. `from_errno` carries the value of `errno`, from which
-- the system derives the message; `made` and `of_code` are errors that the program builds.
pub data SystemError : Type 0 where
  from_errno : Errno → SystemError
  made : Errc → String → SystemError
  of_code : ℕ → String → SystemError

-- `std::expected<T, SystemError>`.
pub data Result {ℓ} (A : Type ℓ) : Type ℓ where
  ok : A → Result A
  err : SystemError → Result A

infixl 5 ◌>>=◌
abbrev pub ◌>>=◌ {ℓ κ} : {A : Type ℓ} {B : Type κ} → Result A → (A → Result B) → Result B
ok a >>= f = f a
err e >>= f = err e

-- The conversion to `bool` of a `Result`.
abbrev pub has_value {ℓ} : {A : Type ℓ} → Result A → Bool
has_value (ok a) = true
has_value (err e) = false

pub Syscall-cases :
    (r : Syscall)
    → (r ≡ returned 0)
      ⊎ ((n : ℕ) × (r ≡ returned (suc n)))
      ⊎ (r ≡ failed Errno.eintr)
      ⊎ ((e : Errno) × (r ≡ failed e) × (is_eintr e ≡ false))
Syscall-cases (returned zero) = inl refl
Syscall-cases (returned (suc n)) = inr (inl (n, refl))
Syscall-cases (failed Errno.eintr) = inr (inr (inl refl))
Syscall-cases (failed Errno.eagain) = inr (inr (inr (Errno.eagain, refl, refl)))
Syscall-cases (failed Errno.ewouldblock) = inr (inr (inr (Errno.ewouldblock, refl, refl)))
Syscall-cases (failed Errno.enoent) = inr (inr (inr (Errno.enoent, refl, refl)))
Syscall-cases (failed Errno.ebadf) = inr (inr (inr (Errno.ebadf, refl, refl)))
Syscall-cases (failed Errno.einprogress) = inr (inr (inr (Errno.einprogress, refl, refl)))
Syscall-cases (failed (Errno.other n)) = inr (inr (inr (Errno.other n, refl, refl)))

pub Received-cases :
    (r : Received)
    → (r ≡ got [])
      ⊎ ((b : ℕ) × (more : List ℕ) × (r ≡ got (b ∷ more)))
      ⊎ (r ≡ unread Errno.eintr)
      ⊎ ((e : Errno) × (r ≡ unread e) × (is_eintr e ≡ false))
Received-cases (got []) = inl refl
Received-cases (got (b ∷ more)) = inr (inl (b, more, refl))
Received-cases (unread e) = elim (Syscall-cases (failed e)) [
  | inl h ↦ absurd (ground (arith, h))
  | inr (inl (n, h)) ↦ absurd (ground (arith, h))
  | inr (inr (inl h)) ↦ inr (inr (inl (ground (arith, h))))
  | inr (inr (inr (f, h, ne))) ↦ inr (inr (inr (e, refl, ground (arith, h, ne))))
]

pub Result-cases {ℓ} :
    {A : Type ℓ} (r : Result A) → ((a : A) × (r ≡ ok a)) ⊎ ((e : SystemError) × (r ≡ err e))
Result-cases (ok a) = inl (a, refl)
Result-cases (err e) = inr (e, refl)

pub Syscall-outcome : (r : Syscall) → ((n : ℕ) × (r ≡ returned n)) ⊎ ((e : Errno) × (r ≡ failed e))
Syscall-outcome (returned n) = inl (n, refl)
Syscall-outcome (failed e) = inr (e, refl)

-- Descriptor `d` in a table of open descriptors: what a call that answers a descriptor adds at `d`, and what closing
-- one takes away there.
unfoldable pub one_at : ℕ → ℕ → ℕ
one_at d n = if d == n then 1 else 0

abbrev pub opens : ℕ → Syscall → ℕ
opens d (returned n) = one_at d n
opens d (failed e) = 0

abbrev pub closes : ℕ → ℤ → ℕ
closes d (pos n) = one_at d n
closes d (negsuc n) = 0

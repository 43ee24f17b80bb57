-- ===== src/Base/Maps.antt =====
-- Total maps from numbers: a vector of known size, or a heap of cells indexed by address.
use Prim.Native.Nat.{ℕ}
use mathlib.Core.Path.{◌≡◌}
use mathlib.Core.Logic.{◌≢◌}
use native.Mathlib.Omega.{arith}
use rain.Base.Tests.{◌==◌, if◌then◌else◌}

-- `m[i] = v`.
abbrev pub update {ℓ} : {A : Type ℓ} → (ℕ → A) → ℕ → A → ℕ → A
update m i v j = if i == j then v else m j

pub update_self {ℓ} : {A : Type ℓ} (m : ℕ → A) (i : ℕ) (v : A) → update m i v i ≡ v
update_self m i v = ground arith

pub update_ne {ℓ} : {A : Type ℓ} (m : ℕ → A) (i j : ℕ) (v : A) → i ≢ j → update m i v j ≡ m j
update_ne m i j v h = ground arith

-- ===== src/Common/Maps.antt =====
-- Arrays and stores as functions of the index, and the signed numbers.
use Prim.Native.Nat.{ℕ}
use lume.Common.Tests.{◌==◌, if◌then◌else◌}

abbrev pub update {ℓ} : {A : Type ℓ} → (ℕ → A) → ℕ → A → ℕ → A
update f k a i = if i == k then a else f i

-- `pos n` is n, and `negsuc n` is -(n + 1).
pub data ℤ : Type 0 where
  pos negsuc : ℕ → ℤ

-- ===== src/Word.antt =====
-- `uint64` arithmetic of the kernel (include/lume/types.h): a value is a number below 2 ^ 64 and
-- every operation wraps. `x & ~(align - 1)`, the idiom by which the sources round, is `mask_down`.
pub mod Bits
pub mod Digits
pub mod Xor
use lume.Common.{ℕ, ◌+◌, ◌-◌, ◌*◌, ◌^◌, ◌%◌, bit_and}

abbrev pub u64 : ℕ
u64 = 2 ^ 64

abbrev pub add64 : ℕ → ℕ → ℕ
add64 a b = (a + b) % 2 ^ 64

abbrev pub sub64 : ℕ → ℕ → ℕ
sub64 a b = (a + 2 ^ 64 - b) % 2 ^ 64

abbrev pub not64 : ℕ → ℕ
not64 a = 2 ^ 64 - 1 - a

-- `x & ~(align - 1)`
unfoldable pub mask_down : ℕ → ℕ → ℕ
mask_down x align = bit_and x (not64 (sub64 align 1))

-- ===== src/Bitops.antt =====
-- na/include/lume/bitops.h: counting zeros from either end of a word, and the power-of-two test.
-- An `int` result below is a count of at most 64; `ilog2` gives the 32-bit pattern of its result.
pub mod Trailing
pub mod Leading
pub mod Lowest
pub mod Power
mod Tests
use lume.Common.{
  ℕ, ◌+◌, ◌-◌, ◌*◌, ◌/◌, ◌%◌, ◌^◌, bit_and, Bool, true, false, not, ◌==◌, ◌&&◌, if◌then◌else◌,
}
use lume.Word.{sub64}

-- `if (!(val & mask)) { n += s; val >>= s; }` on the pair (n, val).
abbrev pub shift_out : ℕ → ℕ → ℕ × ℕ → ℕ × ℕ
shift_out mask s (n, val) = if bit_and val mask == 0 then (n + s, val / 2 ^ s) else (n, val)

unfoldable pub ctz32 : ℕ → ℕ
ctz32 val =
    let sixteen = shift_out 0x0000FFFF 16 (0, val) in
    let eight = shift_out 0x000000FF 8 sixteen in
    let four = shift_out 0x0000000F 4 eight in
    let two = shift_out 0x00000003 2 four in
    if bit_and two.1 0x00000001 == 0 then two.0 + 1 else two.0

unfoldable pub ctz64 : ℕ → ℕ
ctz64 val =
    if not (val % 2 ^ 32 == 0) then ctz32 (val % 2 ^ 32) else 32 + ctz32 (val / 2 ^ 32 % 2 ^ 32)

-- `if (!(val & mask)) { n += s; val <<= s; }`, on 32 bits.
abbrev pub shift_up : ℕ → ℕ → ℕ × ℕ → ℕ × ℕ
shift_up mask s (n, val) =
    if bit_and val mask == 0 then (n + s, (val * 2 ^ s) % 2 ^ 32) else (n, val)

unfoldable pub clz32 : ℕ → ℕ
clz32 val =
    let sixteen = shift_up 0xFFFF0000 16 (0, val) in
    let eight = shift_up 0xFF000000 8 sixteen in
    let four = shift_up 0xF0000000 4 eight in
    let two = shift_up 0xC0000000 2 four in
    if bit_and two.1 0x80000000 == 0 then two.0 + 1 else two.0

unfoldable pub clz64 : ℕ → ℕ
clz64 val =
    if not (val / 2 ^ 32 % 2 ^ 32 == 0)
    then clz32 (val / 2 ^ 32 % 2 ^ 32)
    else 32 + clz32 (val % 2 ^ 32)

unfoldable pub ffs32 : ℕ → ℕ
ffs32 val = if val == 0 then 0 else ctz32 val + 1

unfoldable pub ffs64 : ℕ → ℕ
ffs64 val = if val == 0 then 0 else ctz64 val + 1

-- The counts are at most the width, so the differences do not fall below 0.
unfoldable pub fls32 : ℕ → ℕ
fls32 val = if val == 0 then 0 else 32 - clz32 val

unfoldable pub fls64 : ℕ → ℕ
fls64 val = if val == 0 then 0 else 64 - clz64 val

unfoldable pub ilog2_32 : ℕ → ℕ
ilog2_32 val = (fls32 val + 2 ^ 32 - 1) % 2 ^ 32

unfoldable pub ilog2_64 : ℕ → ℕ
ilog2_64 val = (fls64 val + 2 ^ 32 - 1) % 2 ^ 32

unfoldable pub is_power_of_2 : ℕ → Bool
is_power_of_2 val = not (val == 0) && bit_and val (sub64 val 1) == 0

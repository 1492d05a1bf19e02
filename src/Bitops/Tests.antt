-- ===== src/Bitops/Tests.antt =====
-- Runs of na/include/lume/bitops.h and its theorems at concrete words.
use lume.Common.{ℕ, ◌≡◌, refl}
use lume.Bitops.{ctz32, ctz64, clz32, clz64, fls64, ilog2_64}

abbrev word : ℕ
word = 0x5000

ctz64_runs : (ctz64 0x5000 ≡ 12) × (ctz64 0x5000000000 ≡ 36) × (ctz64 0 ≡ 63)
unfolding ctz64 ctz32
ctz64_runs = (refl, refl, refl)

clz64_runs : (clz64 0x5000 ≡ 49) × (clz64 1 ≡ 63) × (ilog2_64 0x5000 ≡ 14)
unfolding clz64 clz32 ilog2_64 fls64
clz64_runs = (refl, refl, refl)

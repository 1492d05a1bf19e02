-- ===== src/Pid/Scan.antt =====
-- The search of na/kernel/pid.cc for a zero bit in a word.
use native.Mathlib.Nat.{pow-suc}
use lume.Common.{
  ℕ, zero, suc, ◌+◌, ◌*◌, ◌/◌, ◌%◌, ◌^◌, ◌<◌, ◌≡◌, ap, false, bit_and, ◌==◌, arith, Bool-cases, inl,
  inr,
}
use lume.Word.{not64}
use lume.Word.Bits.{bit_and-low}
use lume.Word.Digits.{bit, bit-complement, bit-zero}
use lume.Bitops.Trailing.{Trails, Trails-lt}
use lume.Bitops.Lowest.{Trails-bit, Trails-below}
use lume.Pid.{trailing_zeros}

Trails-double : (v n : ℕ) → v % 2 ≡ 0 → Trails (v / 2) n → Trails v (suc n)
Trails-double v n half (q, e) = (q, omega (arith, e, ap (λ t. (2 * q + 1) * t) (pow-suc 2 n)))

trailing_zeros-Trails : (fuel v : ℕ) → 0 < v → v < 2 ^ fuel → Trails v (trailing_zeros fuel v)
unfolding trailing_zeros
trailing_zeros-Trails zero v some limit = absurd (omega arith)
trailing_zeros-Trails (suc fuel) v some limit =
    let low : bit_and v 1 ≡ v % 2 = bit_and-low 1 v in
    elim (Bool-cases (bit_and v 1 == 0)) [
      | inr odd ↦ rw odd (v / 2, ground arith)
      | inl even ↦ rw even (
          let half : v % 2 ≡ 0 = ground arith in
          Trails-double v (trailing_zeros fuel (v / 2)) half
            (trailing_zeros-Trails fuel (v / 2) (omega arith) (omega (arith, pow-suc 2 fuel))))
    ]

-- All bits of the word are set.
abbrev pub Full : ℕ → Type 0
Full v = (i : ℕ) → i < 64 → bit v i ≡ 1

-- The first zero bit of the word.
pub record FirstZero (v n : ℕ) : Type 0 where
  pub small : n < 64
  pub clear : bit v n ≡ 0
  pub before : (i : ℕ) → i < n → bit v i ≡ 1

pub complement-Full : (v : ℕ) → v < 2 ^ 64 → not64 v ≡ 0 → Full v
complement-Full v limit e i h =
    omega (arith, bit-complement 64 i v h limit, ap (λ t. bit t i) e, bit-zero i)

pub trailing_zeros-FirstZero :
    (v : ℕ) → v < 2 ^ 64 → (not64 v == 0) ≡ false → FirstZero v (trailing_zeros 64 (not64 v))
trailing_zeros-FirstZero v limit some =
    let n = trailing_zeros 64 (not64 v) in
    let trails = trailing_zeros-Trails 64 (not64 v) (ground arith) (omega arith) in
    let small = Trails-lt (not64 v) n 64 (omega arith) trails in
    record {
      small = small;
      clear = omega (arith, bit-complement 64 n v small limit, Trails-bit (not64 v) n trails);
      before = λ i h.
          omega
            (arith, bit-complement 64 i v (omega arith) limit, Trails-below (not64 v) n i trails h);
    }

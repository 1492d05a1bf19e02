-- ===== src/Word/Xor.antt =====
-- `^` digit by digit, and what flipping one bit does to a multiple of its weight.
use Prim.Native.Nat.{digits, bit_xor-bitwise, differ}
use native.Mathlib.Nat.{pow-suc}
use lume.Common.{
  ℕ, zero, suc, ◌+◌, ◌-◌, ◌*◌, ◌/◌, ◌%◌, ◌^◌, ◌≤◌, bit_xor, ◌≡◌, refl, ap, ◌∙◌, sym, arith, ◌==◌,
  if◌then◌else◌, Bool-cases, inl, inr,
}

abbrev flip : ℕ → ℕ → ℕ → ℕ
flip = digits (λ y. y) differ

flip_enough : (bound fuel a b : ℕ) → fuel ≤ bound → a ≤ fuel → flip fuel a b ≡ flip a a b
flip_enough _ zero zero b small enough = refl
flip_enough _ (suc fuel) zero b small enough = refl
flip_enough _ zero (suc a) b small enough = absurd (omega arith)
flip_enough zero (suc fuel) (suc a) b small enough = absurd (omega arith)
flip_enough (suc bound) (suc fuel) (suc a) b small enough =
    ap (λ t. t * 2 + differ (suc a % 2) (b % 2))
      (flip_enough bound fuel (suc a / 2) (b / 2) (omega arith) (omega arith)
        ∙ sym (flip_enough bound a (suc a / 2) (b / 2) (omega arith) (omega arith)))

zero-bit_xor : (b : ℕ) → bit_xor 0 b ≡ b
zero-bit_xor b = bit_xor-bitwise 0 b

bit_xor-digit : (a b : ℕ) → bit_xor a b ≡ differ (a % 2) (b % 2) + 2 * bit_xor (a / 2) (b / 2)
bit_xor-digit zero b = rw (zero-bit_xor b, zero-bit_xor (b / 2)) (omega arith)
bit_xor-digit (suc a) b =
    let rest = flip_enough a a (suc a / 2) (b / 2) (omega arith) (omega arith) in
    omega (arith, bit_xor-bitwise (suc a) b, bit_xor-bitwise (suc a / 2) (b / 2), rest)

bit_xor-zero : (bound a : ℕ) → a ≤ bound → bit_xor a 0 ≡ a
bit_xor-zero bound zero h = zero-bit_xor 0
bit_xor-zero zero (suc a) h = absurd (omega arith)
bit_xor-zero (suc bound) (suc a) h =
    let digit : differ (suc a % 2) 0 ≡ suc a % 2 = differ_zero (suc a % 2) in
    omega (arith, bit_xor-digit (suc a) 0, bit_xor-zero bound (suc a / 2) (omega arith), digit)
  where
    differ_zero : (d : ℕ) → differ d 0 ≡ d
    differ_zero zero = refl
    differ_zero (suc d) = refl

-- The other number of the pair 2 n, 2 n + 1.
abbrev pub sibling : ℕ → ℕ
sibling q = if q % 2 == 0 then q + 1 else q - 1

sibling_lem : (q : ℕ) → bit_xor q 1 ≡ sibling q
sibling_lem q = elim (Bool-cases (q % 2 == 0)) [
  | inl even ↦
      let low : q % 2 ≡ 0 = ground arith in
      rw even (
        omega (
          arith,
          bit_xor-digit q 1,
          bit_xor-zero (q / 2) (q / 2) (omega arith),
          ap (λ d. differ d 1) low,
        ))
  | inr odd ↦
      let low : q % 2 ≡ 1 = ground arith in
      rw odd (
        omega (
          arith,
          bit_xor-digit q 1,
          bit_xor-zero (q / 2) (q / 2) (omega arith),
          ap (λ d. differ d 1) low,
        ))
]

pub bit_xor-pow : (o q : ℕ) → bit_xor (q * 2 ^ o) (2 ^ o) ≡ sibling q * 2 ^ o
bit_xor-pow zero q =
    let one : q * 1 ≡ q = omega arith in ap (λ t. bit_xor t 1) one ∙ omega (arith, sibling_lem q)
bit_xor-pow (suc o) q =
    let p = q * 2 ^ o in
    let two = pow-suc 2 o in
    let a : q * 2 ^ suc o ≡ 2 * p = omega (arith, ap (λ t. q * t) two) in
    let half_a : q * 2 ^ suc o / 2 ≡ p = omega (arith, a) in
    let half_b : 2 ^ suc o / 2 ≡ 2 ^ o = omega (arith, two) in
    let low_a : q * 2 ^ suc o % 2 ≡ 0 = omega (arith, a) in
    let low_b : 2 ^ suc o % 2 ≡ 0 = omega (arith, two) in
    bit_xor-digit (q * 2 ^ suc o) (2 ^ suc o)
    ∙ rw (low_a, low_b, half_a, half_b, bit_xor-pow o q)
        (omega (arith, ap (λ t. sibling q * t) two))

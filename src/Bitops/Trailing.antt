-- ===== src/Bitops/Trailing.antt =====
-- What `ctz32`, `ctz64`, `ffs32` and `ffs64` of na/include/lume/bitops.h count.
use native.Mathlib.Nat.{div-add-mod, div-add-mod', mul-mod_right, pow-suc}
use lume.Common.{
  ℕ, ◌+◌, ◌-◌, ◌*◌, ◌/◌, ◌%◌, ◌≤◌, ◌<◌, ◌^◌, ◌≡◌, refl, bit_and, arith, ap, sym, subst, ◌⊎◌, suc,
  ◌∙◌, ◌==◌, ==_iff, Bool-cases, inl, inr, true, false, if◌then◌else◌,
}
use lume.Word.Bits.{bit_and-low, pow-add, lt_of_pow-lt}
use lume.Bitops.{shift_out, ctz32, ctz64, ffs64}

-- `val` is `v` times the power of two counted so far.
abbrev Counted : ℕ → ℕ × ℕ → Type 0
Counted val (n, v) = val ≡ v * 2 ^ n

shift-Counted :
    (val n v s : ℕ) → v % 2 ^ s ≡ 0 → Counted val (n, v) → Counted val (n + s, v / 2 ^ s)
shift-Counted val n v s e h =
    let whole : v ≡ v / 2 ^ s * 2 ^ s = omega (arith, div-add-mod' v (2 ^ s)) in
    rw (pow-add n s) (h ∙ ap (λ t. t * 2 ^ n) whole ∙ omega arith)

-- A word that s zero bits are shifted out of has a bit set among its next s bits.
next_bits : (v p : ℕ) → v % p ≡ 0 → v / p % p ≡ 0 → v % (p * p) ≡ 0
next_bits v p e f =
    let outer : v ≡ p * (v / p) = omega (arith, div-add-mod v p) in
    let inner : v / p ≡ p * (v / p / p) = omega (arith, div-add-mod (v / p) p) in
    let square : v ≡ p * p * (v / p / p) = outer ∙ ap (λ t. p * t) inner ∙ omega arith in
    ap (λ t. t % (p * p)) square ∙ mul-mod_right (p * p) (v / p / p)

clear_bits : (s v : ℕ) → (bit_and v (2 ^ s - 1) == 0) ≡ true → v % 2 ^ s ≡ 0
clear_bits s v h = sym (bit_and-low s v) ∙ (==_iff _ 0).0 h

set_bits : (s v : ℕ) → (bit_and v (2 ^ s - 1) == 0) ≡ false → v % 2 ^ s ≡ 0 → ⊥
set_bits s v h e = cc (h, (==_iff (bit_and v (2 ^ s - 1)) 0).1 (bit_and-low s v ∙ e))

-- One step keeps the count, and leaves a bit set among the low s.
shift_out-Counted :
    (val s : ℕ) (p : ℕ × ℕ)
    → (p.1 % (2 ^ s * 2 ^ s) ≡ 0 → ⊥)
    → Counted val p
    → Counted val (shift_out (2 ^ s - 1) s p) × ((shift_out (2 ^ s - 1) s p).1 % 2 ^ s ≡ 0 → ⊥)
shift_out-Counted val s (n, v) some h = elim (Bool-cases (bit_and v (2 ^ s - 1) == 0)) [
  | inl clear ↦ rw clear (
      let e = clear_bits s v clear in
      (shift-Counted val n v s e h, λ f. some (next_bits v (2 ^ s) e f)))
  | inr set ↦ rw set (h, set_bits s v set)
]

-- The count is that of the trailing zeros: what is left of the word above them is odd.
abbrev pub Trails : ℕ → ℕ → Type 0
Trails val n = (q : ℕ) × (val ≡ (2 * q + 1) * 2 ^ n)

last_bit :
    (val : ℕ) (p : ℕ × ℕ)
    → (p.1 % 4 ≡ 0 → ⊥)
    → Counted val p
    → Trails val (if bit_and p.1 1 == 0 then p.0 + 1 else p.0)
last_bit val (n, v) some h = elim (Bool-cases (bit_and v 1 == 0)) [
  | inl clear ↦ rw clear (
      let e : v % 2 ≡ 0 = clear_bits 1 v clear in
      let odd : v / 2 % 2 ≡ 1 = ground arith in
      let half : v / 2 ≡ 2 * (v / 2 / 2) + 1 = omega arith in
      (v / 2 / 2, shift-Counted val n v 1 e h ∙ ap (λ t. t * 2 ^ (n + 1)) half))
  | inr set ↦ rw set (
      let odd : v ≡ 2 * (v / 2) + 1 = ground (arith, set_bits 1 v set) in
      (v / 2, h ∙ ap (λ t. t * 2 ^ n) odd))
]

-- For a 32-bit word other than 0, `ctz32` counts the trailing zeros.
pub ctz32-Trails : (val : ℕ) → 0 < val → val < 2 ^ 32 → Trails val (ctz32 val)
unfolding ctz32
ctz32-Trails val pos limit =
    let start : Counted val (0, val) = omega arith in
    let sixteen = shift_out-Counted val 16 (0, val) (λ e. omega arith) start in
    let eight = shift_out-Counted val 8 (shift_out 0x0000FFFF 16 (0, val)) sixteen.1 sixteen.0 in
    let four = shift_out-Counted val 4 _ eight.1 eight.0 in
    let two = shift_out-Counted val 2 _ four.1 four.0 in last_bit val _ two.1 two.0

pub Trails-lt : (val n w : ℕ) → val < 2 ^ w → Trails val n → n < w
Trails-lt val n w limit (q, e) =
    let least : 2 ^ n ≤ val = omega (arith, e) in lt_of_pow-lt n w (omega arith)

-- Whole multiples of 2 ^ 32 above the word do not change the count.
Trails-high : (high low n : ℕ) → low < 2 ^ 32 → Trails low n → Trails (high * 2 ^ 32 + low) n
Trails-high high low n limit (q, e) =
    let small = Trails-lt low n 32 limit (q, e) in
    let sum : 32 ≡ (31 - n) + suc n = omega arith in
    let split : 2 ^ 32 ≡ 2 ^ (31 - n) * 2 ^ suc n =
      ap (λ t. 2 ^ t) sum ∙ pow-add (31 - n) (suc n) in
    let double : 2 ^ 32 ≡ 2 ^ (31 - n) * (2 ^ n * 2) =
      split ∙ ap (λ t. 2 ^ (31 - n) * t) (pow-suc 2 n) in
    (
      high * 2 ^ (31 - n) + q,
      ap (λ t. high * t + low) double
          ∙ ap (λ t. high * (2 ^ (31 - n) * (2 ^ n * 2)) + t) e
          ∙ omega arith,
    )

-- The lower half of the word is 0: the count goes on in the upper half.
Trails-upper : (high n : ℕ) → Trails high n → Trails (high * 2 ^ 32) (32 + n)
Trails-upper high n (q, e) = (q, ap (λ t. t * 2 ^ 32) e ∙ rw (pow-add 32 n) (omega arith))

-- For a 64-bit word other than 0, `ctz64` counts the trailing zeros.
pub ctz64-Trails : (val : ℕ) → 0 < val → val < 2 ^ 64 → Trails val (ctz64 val)
unfolding ctz64
ctz64-Trails val pos limit =
    let low = val % 2 ^ 32 in
    let high = val / 2 ^ 32 in
    let whole : val ≡ high * 2 ^ 32 + low = omega arith in
    let fits : high % 2 ^ 32 ≡ high = omega arith in
    elim (Bool-cases (low == 0)) [
      | inr some ↦ rw some (
          subst (λ t. Trails t (ctz32 low)) (sym whole)
            (Trails-high high low (ctz32 low) (omega arith)
              (ctz32-Trails low (ground arith) (omega arith))))
      | inl clear ↦
          rw (clear, fits)
            (let upper : val ≡ high * 2 ^ 32 = ground arith in
              subst (λ t. Trails t (32 + ctz32 high)) (sym upper)
                (Trails-upper high (ctz32 high) (ctz32-Trails high (ground arith) (omega arith))))
    ]

-- `ffs64` is 0 for the word 0, and otherwise the position of the lowest set bit, from 1.
pub ffs64_lem :
    (val : ℕ)
    → val < 2 ^ 64
    → ((val ≡ 0) × (ffs64 val ≡ 0)) ⊎ ((n : ℕ) × (ffs64 val ≡ n + 1) × Trails val n)
unfolding ffs64
ffs64_lem val limit = elim (Bool-cases (val == 0)) [
  | inl none_set ↦ rw none_set (inl ((==_iff val 0).0 none_set, refl))
  | inr some ↦ rw some (inr (ctz64 val, refl, ctz64-Trails val (ground arith) limit))
]

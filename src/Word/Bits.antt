-- ===== src/Word/Bits.antt =====
-- What `x & ~(align - 1)` computes: the largest multiple of a power of two that is at most x.
use Prim.Native.Nat.{digits, bit_and-bitwise, min}
use native.Mathlib.Nat.{
  pow-suc, pow-succ', div-add-mod, add-mul-mod_self_left, mod-eq_of_lt, mod-lt, div-div-eq-div-mul,
  div-lt_iff_lt-mul, zero-add, pow-le-pow_right,
}
use lume.Common.{
  ℕ, zero, suc, ◌+◌, ◌-◌, ◌*◌, ◌/◌, ◌%◌, ◌^◌, ◌≤◌, ◌<◌, bit_and, ◌≡◌, refl, ap, ◌∙◌, sym, subst,
  ltb, ltb→lt, ltb→le, Bool-cases, inl, inr, arith,
}
use lume.Word.{mask_down, not64, sub64}

-- What the native conjunction stands for, with its fuel apart.
abbrev conjoin : ℕ → ℕ → ℕ → ℕ
conjoin = digits (λ _. 0) min

-- Fuel beyond the first argument is not used; `bound` is what the induction runs on.
spare_fuel : (bound fuel a b : ℕ) → fuel ≤ bound → a ≤ fuel → conjoin fuel a b ≡ conjoin a a b
spare_fuel _ zero zero b small enough = refl
spare_fuel _ (suc fuel) zero b small enough = refl
spare_fuel _ zero (suc a) b small enough = absurd (omega arith)
spare_fuel zero (suc fuel) (suc a) b small enough = absurd (omega arith)
spare_fuel (suc bound) (suc fuel) (suc a) b small enough =
    let half = suc a / 2 in
    let long = spare_fuel bound fuel half (b / 2) (omega arith) (omega arith) in
    let short = spare_fuel bound a half (b / 2) (omega arith) (omega arith) in
    ap (λ t. t * 2 + min (suc a % 2) (b % 2)) (long ∙ sym short)

pub zero-bit_and : (b : ℕ) → bit_and 0 b ≡ 0
zero-bit_and b = bit_and-bitwise 0 b

-- The conjunction digit by digit, the lowest first.
pub bit_and-digit : (a b : ℕ) → bit_and a b ≡ min (a % 2) (b % 2) + 2 * bit_and (a / 2) (b / 2)
bit_and-digit zero b = rw (zero-bit_and b, zero-bit_and (b / 2)) (omega arith)
bit_and-digit (suc a) b =
    let half = suc a / 2 in
    let rest = spare_fuel a a half (b / 2) (omega arith) (omega arith) in
    omega (arith, bit_and-bitwise (suc a) b, bit_and-bitwise half (b / 2), rest)

bit_and-zero_below : (bound a : ℕ) → a ≤ bound → bit_and a 0 ≡ 0
bit_and-zero_below bound zero h = zero-bit_and 0
bit_and-zero_below zero (suc a) h = absurd (omega arith)
bit_and-zero_below (suc bound) (suc a) h =
    omega (arith, bit_and-digit (suc a) 0, bit_and-zero_below bound (suc a / 2) (omega arith))

pub bit_and-zero : (a : ℕ) → bit_and a 0 ≡ 0
bit_and-zero a = bit_and-zero_below a a (omega arith)

pub pow-pos : (k : ℕ) → 0 < 2 ^ k
pow-pos zero = omega arith
pow-pos (suc k) = omega (arith, pow-suc 2 k, pow-pos k)

pub pow-add : (j k : ℕ) → 2 ^ (j + k) ≡ 2 ^ j * 2 ^ k
pow-add zero k = rw zero-add (omega arith)
pow-add (suc j) k =
    let e : suc j + k ≡ suc (j + k) = omega arith in
    rw (e, pow-suc 2 (j + k), pow-suc 2 j, pow-add j k) (omega arith)

pub pow-lt_of_lt : (n w : ℕ) → n < w → 2 ^ n < 2 ^ w
pow-lt_of_lt n w h =
    let le : 2 ^ suc n ≤ 2 ^ w = pow-le-pow_right (omega arith) h in
    omega (arith, pow-suc 2 n, pow-pos n)

pub lt_of_pow-lt : (n w : ℕ) → 2 ^ n < 2 ^ w → n < w
lt_of_pow-lt n w h = elim (Bool-cases (ltb n w)) [
  | inl less ↦ ltb→lt n w less
  | inr more ↦
      let le : 2 ^ w ≤ 2 ^ n = pow-le-pow_right (omega arith) (ltb→le n w more) in
      absurd (omega arith)
]

-- Under a mask of w ones a w-bit word stays as it is.
bit_and-ones : (w a : ℕ) → a < 2 ^ w → bit_and a (2 ^ w - 1) ≡ a
bit_and-ones zero a h = let e : a ≡ 0 = omega arith in rw e (zero-bit_and 0)
bit_and-ones (suc w) a h =
    let low : a / 2 < 2 ^ w = omega (arith, pow-suc 2 w) in
    let half : (2 ^ suc w - 1) / 2 ≡ 2 ^ w - 1 = omega (arith, pow-suc 2 w, pow-pos w) in
    omega (
      arith,
      bit_and-digit a (2 ^ suc w - 1),
      ap (bit_and (a / 2)) half,
      bit_and-ones w (a / 2) low,
      pow-suc 2 w,
      pow-pos w,
    )

-- The remainder by an even number: the lowest bit, and the remainder of the half.
mod-double : (a m : ℕ) → 0 < m → a % (2 * m) ≡ a % 2 + 2 * (a / 2 % m)
mod-double a m h =
    let q = a / 2 / m in
    let r = a % 2 + 2 * (a / 2 % m) in
    let whole : a ≡ r + 2 * m * q = omega (arith, ap (λ (t : ℕ). 2 * t) (div-add-mod (a / 2) m)) in
    ap (λ t. t % (2 * m)) whole
    ∙ add-mul-mod_self_left r (2 * m) q
    ∙ mod-eq_of_lt (omega (arith, mod-lt (a / 2) h))

-- A mask of w ones keeps the low w bits.
pub bit_and-low : (w a : ℕ) → bit_and a (2 ^ w - 1) ≡ a % 2 ^ w
bit_and-low zero a = let e : a % 1 ≡ 0 = omega arith in rw (e, bit_and-zero a)
bit_and-low (suc w) a =
    let half : (2 ^ suc w - 1) / 2 ≡ 2 ^ w - 1 = omega (arith, pow-suc 2 w, pow-pos w) in
    let split : a % 2 ^ suc w ≡ a % 2 + 2 * (a / 2 % 2 ^ w) =
      ap (λ t. a % t) (pow-succ' 2 w) ∙ mod-double a (2 ^ w) (pow-pos w) in
    omega (
      arith,
      bit_and-digit a (2 ^ suc w - 1),
      ap (bit_and (a / 2)) half,
      bit_and-low w (a / 2),
      split,
      pow-suc 2 w,
      pow-pos w,
    )

-- The low k bits of the mask are 0.
bit_and-shift : (k a m : ℕ) → bit_and a (m * 2 ^ k) ≡ bit_and (a / 2 ^ k) m * 2 ^ k
bit_and-shift zero a m =
    let e : m * 1 ≡ m = omega arith in let f : a / 1 ≡ a = omega arith in rw (e, f) (omega arith)
bit_and-shift (suc k) a m =
    let double : m * 2 ^ suc k ≡ m * 2 ^ k * 2 =
      omega (arith, ap (λ (t : ℕ). m * t) (pow-suc 2 k)) in
    let half : m * 2 ^ suc k / 2 ≡ m * 2 ^ k = omega arith in
    let down : a / 2 / 2 ^ k ≡ a / 2 ^ suc k =
      div-div-eq-div-mul a 2 (2 ^ k) ∙ ap (λ t. a / t) (omega (arith, pow-suc 2 k)) in
    let scaled : bit_and (a / 2 ^ suc k) m * 2 ^ suc k ≡ bit_and (a / 2 ^ suc k) m * 2 ^ k * 2 =
      omega (arith, ap (λ (t : ℕ). bit_and (a / 2 ^ suc k) m * t) (pow-suc 2 k)) in
    omega (
      arith,
      bit_and-digit a (m * 2 ^ suc k),
      ap (bit_and (a / 2)) half,
      bit_and-shift k (a / 2) m,
      ap (λ (t : ℕ). bit_and t m * 2 ^ k) down,
    )

-- Under a mask of w ones above k zeros the upper bits stay.
pub bit_and-high :
    (w k a : ℕ) → a < 2 ^ w * 2 ^ k → bit_and a ((2 ^ w - 1) * 2 ^ k) ≡ a / 2 ^ k * 2 ^ k
bit_and-high w k a h =
    let fits : a / 2 ^ k < 2 ^ w = (div-lt_iff_lt-mul (pow-pos k)).1 h in
    rw (bit_and-shift k a (2 ^ w - 1), bit_and-ones w (a / 2 ^ k) fits)

pred-mul : (p q : ℕ) → 0 < p → ((p - 1) * q ≡ p * q - q) × (q ≤ p * q)
pred-mul zero q h = absurd (omega arith)
pred-mul (suc p) q h = let e : suc p - 1 ≡ p = omega arith in rw e (omega arith, omega arith)

-- `x & ~(2 ^ k - 1)` is the largest multiple of 2 ^ k that is at most x.
pub mask_down-pow : (w k x : ℕ) → w + k ≡ 64 → x < 2 ^ 64 → mask_down x (2 ^ k) ≡ x / 2 ^ k * 2 ^ k
unfolding mask_down
mask_down-pow w k x e h =
    let total : 2 ^ 64 ≡ 2 ^ w * 2 ^ k = ap (λ t. 2 ^ t) (sym e) ∙ pow-add w k in
    let mask : not64 (sub64 (2 ^ k) 1) ≡ (2 ^ w - 1) * 2 ^ k =
      omega (arith, total, pow-pos k, pow-pos w, pred-mul (2 ^ w) (2 ^ k) (pow-pos w)) in
    rw (mask, bit_and-high w k x (subst (λ t. x < t) total h))

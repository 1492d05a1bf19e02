-- ===== src/Word/Digits.antt =====
-- The single bits of a word, and how `|`, `&` and `~` act on them.
use Prim.Native.Nat.{digits, bit_or-bitwise, min, max}
use native.Mathlib.Nat.{pow-suc, div-div-eq-div-mul}
use lume.Common.{
  ℕ, zero, suc, ◌+◌, ◌-◌, ◌*◌, ◌/◌, ◌%◌, ◌^◌, ◌≤◌, ◌<◌, bit_and, bit_or, ◌≡◌, refl, ap, ◌∙◌, sym,
  arith, ◌≢◌,
}
use lume.Word.Bits.{bit_and-digit, zero-bit_and, pow-pos}

-- Bit p of the word.
abbrev pub bit : ℕ → ℕ → ℕ
bit a p = a / 2 ^ p % 2

bit-suc : (a p : ℕ) → bit a (suc p) ≡ bit (a / 2) p
bit-suc a p =
    ap (λ t. t % 2)
      (ap (λ t. a / t) (omega (arith, pow-suc 2 p)) ∙ sym (div-div-eq-div-mul a 2 (2 ^ p)))

pub bit-zero : (p : ℕ) → bit 0 p ≡ 0
bit-zero zero = refl
bit-zero (suc p) = bit-suc 0 p ∙ bit-zero p

abbrev join : ℕ → ℕ → ℕ → ℕ
join = digits (λ y. y) max

join_fuel : (bound fuel a b : ℕ) → fuel ≤ bound → a ≤ fuel → join fuel a b ≡ join a a b
join_fuel _ zero zero b small enough = refl
join_fuel _ (suc fuel) zero b small enough = refl
join_fuel _ zero (suc a) b small enough = absurd (omega arith)
join_fuel zero (suc fuel) (suc a) b small enough = absurd (omega arith)
join_fuel (suc bound) (suc fuel) (suc a) b small enough =
    let half = suc a / 2 in
    let long = join_fuel bound fuel half (b / 2) (omega arith) (omega arith) in
    let short = join_fuel bound a half (b / 2) (omega arith) (omega arith) in
    ap (λ t. t * 2 + max (suc a % 2) (b % 2)) (long ∙ sym short)

zero-bit_or : (b : ℕ) → bit_or 0 b ≡ b
zero-bit_or b = bit_or-bitwise 0 b

bit_or-digit : (a b : ℕ) → bit_or a b ≡ max (a % 2) (b % 2) + 2 * bit_or (a / 2) (b / 2)
bit_or-digit zero b = rw (zero-bit_or b, zero-bit_or (b / 2)) (omega arith)
bit_or-digit (suc a) b =
    let half = suc a / 2 in
    let rest = join_fuel a a half (b / 2) (omega arith) (omega arith) in
    omega (arith, bit_or-bitwise (suc a) b, bit_or-bitwise half (b / 2), rest)

-- `|` and `&` act bit by bit.
pub bit-bit_or : (p a b : ℕ) → bit (bit_or a b) p ≡ max (bit a p) (bit b p)
bit-bit_or zero a b = omega (arith, bit_or-digit a b)
bit-bit_or (suc p) a b =
    let half : bit_or a b / 2 ≡ bit_or (a / 2) (b / 2) = omega (arith, bit_or-digit a b) in
    omega (
      arith,
      bit-suc (bit_or a b) p,
      ap (λ t. bit t p) half,
      bit-bit_or p (a / 2) (b / 2),
      bit-suc a p,
      bit-suc b p,
    )

pub bit-bit_and : (p a b : ℕ) → bit (bit_and a b) p ≡ min (bit a p) (bit b p)
bit-bit_and zero a b = omega (arith, bit_and-digit a b)
bit-bit_and (suc p) a b =
    let half : bit_and a b / 2 ≡ bit_and (a / 2) (b / 2) = omega (arith, bit_and-digit a b) in
    omega (
      arith,
      bit-suc (bit_and a b) p,
      ap (λ t. bit t p) half,
      bit-bit_and p (a / 2) (b / 2),
      bit-suc a p,
      bit-suc b p,
    )

pub bit-pow_self : (q : ℕ) → bit (2 ^ q) q ≡ 1
bit-pow_self zero = refl
bit-pow_self (suc q) =
    let half : 2 ^ suc q / 2 ≡ 2 ^ q = omega (arith, pow-suc 2 q) in
    bit-suc (2 ^ suc q) q ∙ ap (λ t. bit t q) half ∙ bit-pow_self q

pub bit-pow_ne : (q p : ℕ) → p ≢ q → bit (2 ^ q) p ≡ 0
bit-pow_ne zero zero h = absurd (h refl)
bit-pow_ne zero (suc p) h = bit-suc 1 p ∙ bit-zero p
bit-pow_ne (suc q) zero h = omega (arith, pow-suc 2 q)
bit-pow_ne (suc q) (suc p) h =
    let half : 2 ^ suc q / 2 ≡ 2 ^ q = omega (arith, pow-suc 2 q) in
    bit-suc (2 ^ suc q) p ∙ ap (λ t. bit t p) half ∙ bit-pow_ne q p (λ e. h (ap suc e))

-- `~` on a word of w bits.
pub bit-complement : (w p a : ℕ) → p < w → a < 2 ^ w → bit (2 ^ w - 1 - a) p ≡ 1 - bit a p
bit-complement zero p a h k = absurd (omega arith)
bit-complement (suc w) zero a h k = omega (arith, pow-suc 2 w, pow-pos w)
bit-complement (suc w) (suc p) a h k =
    let half : (2 ^ suc w - 1 - a) / 2 ≡ 2 ^ w - 1 - a / 2 =
      omega (arith, pow-suc 2 w, pow-pos w) in
    let low : a / 2 < 2 ^ w = omega (arith, pow-suc 2 w) in
    omega (
      arith,
      bit-suc (2 ^ suc w - 1 - a) p,
      ap (λ t. bit t p) half,
      bit-complement w p (a / 2) (omega arith) low,
      bit-suc a p,
    )

-- Words stay words.
pub bit_or-lt : (w a b : ℕ) → a < 2 ^ w → b < 2 ^ w → bit_or a b < 2 ^ w
bit_or-lt zero a b h k =
    let a_zero : a ≡ 0 = omega arith in
    let b_zero : b ≡ 0 = omega arith in omega (arith, ap (λ t. bit_or t b) a_zero, zero-bit_or b)
bit_or-lt (suc w) a b h k = omega (
  arith,
  bit_or-digit a b,
  bit_or-lt w (a / 2) (b / 2) (omega (arith, pow-suc 2 w)) (omega (arith, pow-suc 2 w)),
  pow-suc 2 w,
)

pub bit_and-le : (w a b : ℕ) → a < 2 ^ w → bit_and a b ≤ a
bit_and-le zero a b h = let e : a ≡ 0 = omega arith in rw (e, zero-bit_and b) (omega arith)
bit_and-le (suc w) a b h =
    omega (arith, bit_and-digit a b, bit_and-le w (a / 2) (b / 2) (omega (arith, pow-suc 2 w)))

-- A word with no bit set is 0.
pub bits_zero : (w a : ℕ) → a < 2 ^ w → ((p : ℕ) → p < w → bit a p ≡ 0) → a ≡ 0
bits_zero zero a h k = omega arith
bits_zero (suc w) a h k =
    let low : bit a 0 ≡ 0 = k 0 (omega arith) in
    let rest : a / 2 ≡ 0 =
      bits_zero w (a / 2) (omega (arith, pow-suc 2 w))
        (λ p hp. sym (bit-suc a p) ∙ k (suc p) (omega arith)) in
    omega arith

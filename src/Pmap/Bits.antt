-- ===== src/Pmap/Bits.antt =====
-- `|` digit by digit, and the fields of a page table entry.
use Prim.Native.Nat.{digits, bit_or-bitwise, max, min}
use native.Mathlib.Nat.{pow-suc}
use lume.Common.{
  ℕ, zero, suc, ◌+◌, ◌-◌, ◌*◌, ◌/◌, ◌%◌, ◌^◌, ◌≤◌, ◌<◌, bit_and, bit_or, ◌≡◌, refl, ap, ◌∙◌, sym,
  arith, not, ◌&&◌, ◌||◌, ◌==◌,
}
use lume.Word.Bits.{bit_and-digit, bit_and-low, bit_and-zero}
use lume.Pmap.{has, pte_to_pa, pa_to_pte, vpn}

abbrev union : ℕ → ℕ → ℕ → ℕ
union = digits (λ y. y) max

union_enough : (bound fuel a b : ℕ) → fuel ≤ bound → a ≤ fuel → union fuel a b ≡ union a a b
union_enough _ zero zero b small enough = refl
union_enough _ (suc fuel) zero b small enough = refl
union_enough _ zero (suc a) b small enough = absurd (omega arith)
union_enough zero (suc fuel) (suc a) b small enough = absurd (omega arith)
union_enough (suc bound) (suc fuel) (suc a) b small enough =
    ap (λ t. t * 2 + max (suc a % 2) (b % 2))
      (union_enough bound fuel (suc a / 2) (b / 2) (omega arith) (omega arith)
        ∙ sym (union_enough bound a (suc a / 2) (b / 2) (omega arith) (omega arith)))

zero-bit_or : (b : ℕ) → bit_or 0 b ≡ b
zero-bit_or b = bit_or-bitwise 0 b

bit_or-digit : (a b : ℕ) → bit_or a b ≡ max (a % 2) (b % 2) + 2 * bit_or (a / 2) (b / 2)
bit_or-digit zero b = rw (zero-bit_or b, zero-bit_or (b / 2)) (omega arith)
bit_or-digit (suc a) b =
    let rest = union_enough a a (suc a / 2) (b / 2) (omega arith) (omega arith) in
    omega (arith, bit_or-bitwise (suc a) b, bit_or-bitwise (suc a / 2) (b / 2), rest)

bit_or-zero : (bound a : ℕ) → a ≤ bound → bit_or a 0 ≡ a
bit_or-zero bound zero h = zero-bit_or 0
bit_or-zero zero (suc a) h = absurd (omega arith)
bit_or-zero (suc bound) (suc a) h =
    omega (arith, bit_or-digit (suc a) 0, bit_or-zero bound (suc a / 2) (omega arith))

-- Flags below a field.
pub bit_or-field : (k x f : ℕ) → f < 2 ^ k → bit_or (x * 2 ^ k) f ≡ x * 2 ^ k + f
bit_or-field zero x f h =
    let e : f ≡ 0 = omega arith in rw e (bit_or-zero (x * 1) (x * 1) (omega arith) ∙ omega arith)
bit_or-field (suc k) x f h =
    let two = pow-suc 2 k in
    let whole : x * 2 ^ suc k ≡ x * 2 ^ k * 2 = omega (arith, ap (λ t. x * t) two) in
    let half : x * 2 ^ suc k / 2 ≡ x * 2 ^ k = omega (arith, whole) in
    let low : x * 2 ^ suc k % 2 ≡ 0 = omega (arith, whole) in
    let rest : bit_or (x * 2 ^ suc k / 2) (f / 2) ≡ x * 2 ^ k + f / 2 =
      ap (λ t. bit_or t (f / 2)) half ∙ bit_or-field k x (f / 2) (omega (arith, two, h)) in
    omega (arith, bit_or-digit (x * 2 ^ suc k) f, rest, low, whole)

-- A mask below a field reads the flags.
pub bit_and-field : (k x f m : ℕ) → f < 2 ^ k → m < 2 ^ k → bit_and (x * 2 ^ k + f) m ≡ bit_and f m
bit_and-field zero x f m h g =
    let e : m ≡ 0 = omega arith in rw e (bit_and-zero (x * 1 + f) ∙ sym (bit_and-zero f))
bit_and-field (suc k) x f m h g =
    let two = pow-suc 2 k in
    let whole : x * 2 ^ suc k ≡ x * 2 ^ k * 2 = omega (arith, ap (λ t. x * t) two) in
    let half : (x * 2 ^ suc k + f) / 2 ≡ x * 2 ^ k + f / 2 = omega (arith, whole) in
    let low : (x * 2 ^ suc k + f) % 2 ≡ f % 2 = omega (arith, whole) in
    let rest : bit_and ((x * 2 ^ suc k + f) / 2) (m / 2) ≡ bit_and (f / 2) (m / 2) =
      ap (λ t. bit_and t (m / 2)) half
      ∙ bit_and-field k x (f / 2) (m / 2) (omega (arith, two, h)) (omega (arith, two, g)) in
    bit_and-digit (x * 2 ^ suc k + f) m ∙ rw (low, rest) (sym (bit_and-digit f m))

-- An entry is the frame number with the flags behind it.
pub pa_to_pte_lem :
    (pa f : ℕ) → pa < 2 ^ 56 → f < 2 ^ 10 → pa_to_pte pa f ≡ pa / 2 ^ 12 * 2 ^ 10 + f
pa_to_pte_lem pa f small flags =
    let e : pa / 2 ^ 12 * 2 ^ 10 % 2 ^ 64 ≡ pa / 2 ^ 12 * 2 ^ 10 = omega (arith, small) in
    ap (λ t. bit_or t f) e ∙ bit_or-field 10 (pa / 2 ^ 12) f flags

pub pte_to_pa-pa_to_pte :
    (pa f : ℕ) → pa < 2 ^ 56 → pa % 4096 ≡ 0 → f < 2 ^ 10 → pte_to_pa (pa_to_pte pa f) ≡ pa
pte_to_pa-pa_to_pte pa f small page flags =
    let e = pa_to_pte_lem pa f small flags in
    let frame : pa_to_pte pa f / 2 ^ 10 ≡ pa / 2 ^ 12 = omega (arith, e, flags) in
    let low : bit_and (pa_to_pte pa f / 2 ^ 10) (2 ^ 44 - 1) ≡ pa / 2 ^ 12 =
      ap (λ t. bit_and t (2 ^ 44 - 1)) frame
      ∙ bit_and-low 44 (pa / 2 ^ 12)
      ∙ omega (arith, small) in
    ap (λ t. t * 2 ^ 12 % 2 ^ 64) low ∙ omega (arith, small, page)

pub has-pa_to_pte :
    (pa f mask : ℕ)
    → pa < 2 ^ 56
    → f < 2 ^ 10
    → mask < 2 ^ 10
    → has (pa_to_pte pa f) mask ≡ has f mask
has-pa_to_pte pa f mask small flags low =
    ap (λ t. has t mask) (pa_to_pte_lem pa f small flags)
    ∙ ap (λ t. not (t == 0)) (bit_and-field 10 (pa / 2 ^ 12) f mask flags low)

pub vpn_lem : (va level : ℕ) → vpn va level ≡ va / 2 ^ (12 + 9 * level) % 512
vpn_lem va level = bit_and-low 9 (va / 2 ^ (12 + 9 * level))

bit_or-half :
    (a b : ℕ) → (bit_or a b % 2 ≡ max (a % 2) (b % 2)) × (bit_or a b / 2 ≡ bit_or (a / 2) (b / 2))
bit_or-half a b = (omega (arith, bit_or-digit a b), omega (arith, bit_or-digit a b))

-- A mask over a union.
bit_and-bit_or :
    (bound a b m : ℕ) → m ≤ bound → bit_and (bit_or a b) m ≡ bit_or (bit_and a m) (bit_and b m)
bit_and-bit_or bound a b zero h =
    bit_and-zero (bit_or a b)
    ∙ sym (
        ap (λ x. bit_or x (bit_and b 0)) (bit_and-zero a)
        ∙ zero-bit_or (bit_and b 0)
        ∙ bit_and-zero b)
bit_and-bit_or zero a b (suc m) h = absurd (omega (arith, h))
bit_and-bit_or (suc bound) a b (suc m) h =
    let (low, high) = bit_or-half a b in
    let rest = bit_and-bit_or bound (a / 2) (b / 2) (suc m / 2) (omega (arith, h)) in
    let whole : bit_and (bit_or a b / 2) (suc m / 2)
        ≡ bit_or (bit_and (a / 2) (suc m / 2)) (bit_and (b / 2) (suc m / 2)) =
      ap (λ x. bit_and x (suc m / 2)) high ∙ rest in
    let left = bit_and-digit a (suc m) in
    let right = bit_and-digit b (suc m) in
    let left_low : bit_and a (suc m) % 2 ≡ min (a % 2) (suc m % 2) = omega (arith, left) in
    let right_low : bit_and b (suc m) % 2 ≡ min (b % 2) (suc m % 2) = omega (arith, right) in
    let left_high : bit_and a (suc m) / 2 ≡ bit_and (a / 2) (suc m / 2) = omega (arith, left) in
    let right_high : bit_and b (suc m) / 2 ≡ bit_and (b / 2) (suc m / 2) = omega (arith, right) in
    let joined = bit_or-digit (bit_and a (suc m)) (bit_and b (suc m)) in
    let halves : bit_or (bit_and a (suc m) / 2) (bit_and b (suc m) / 2)
        ≡ bit_or (bit_and (a / 2) (suc m / 2)) (bit_and (b / 2) (suc m / 2)) =
      ap (λ x. bit_or x (bit_and b (suc m) / 2)) left_high
      ∙ ap (bit_or (bit_and (a / 2) (suc m / 2))) right_high in
    omega
      (arith, bit_and-digit (bit_or a b) (suc m), low, whole, joined, left_low, right_low, halves)

bit_or-nonzero : (bound a b : ℕ) → a ≤ bound → (bit_or a b == 0) ≡ ((a == 0) && (b == 0))
bit_or-nonzero bound zero b h = ap (λ x. x == 0) (zero-bit_or b) ∙ ground arith
bit_or-nonzero zero (suc a) b h = absurd (omega (arith, h))
bit_or-nonzero (suc bound) (suc a) b h =
    let rest = bit_or-nonzero bound (suc a / 2) (b / 2) (omega (arith, h)) in
    ground (arith, rest, bit_or-digit (suc a) b)

-- A union has a bit of the mask if a part has one.
pub has-bit_or : (a b m : ℕ) → has (bit_or a b) m ≡ (has a m || has b m)
has-bit_or a b m =
    ap (λ x. not (x == 0)) (bit_and-bit_or m a b m (omega arith))
    ∙ ap not (bit_or-nonzero (bit_and a m) (bit_and a m) (bit_and b m) (omega arith))
    ∙ ground arith

pub bit_or-lt : (k a b : ℕ) → a < 2 ^ k → b < 2 ^ k → bit_or a b < 2 ^ k
bit_or-lt zero a b h g =
    let e : a ≡ 0 = omega (arith, h) in
    let f : b ≡ 0 = omega (arith, g) in rw (e, f) (omega (arith, zero-bit_or 0))
bit_or-lt (suc k) a b h g =
    let two = pow-suc 2 k in
    let rest = bit_or-lt k (a / 2) (b / 2) (omega (arith, h, two)) (omega (arith, g, two)) in
    omega (arith, bit_or-digit a b, rest, two)

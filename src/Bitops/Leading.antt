-- ===== src/Bitops/Leading.antt =====
-- What `clz32`, `clz64`, `fls32` and `fls64` of na/include/lume/bitops.h count.
use native.Mathlib.Nat.{div-add-mod', div-mul-le_self, mod-lt, pow-suc}
use native.Mathlib.Numerals.{add-one}
use lume.Common.{
  ℕ, ◌+◌, ◌-◌, ◌*◌, ◌/◌, ◌%◌, ◌≤◌, ◌<◌, ◌^◌, ◌≡◌, refl, bit_and, arith, ap, sym, subst, ◌⊎◌, ◌∙◌,
  ◌==◌, ==_iff, ltb, ltb→lt, ltb→le, Bool-cases, inl, inr, if◌then◌else◌,
}
use lume.Word.Bits.{bit_and-high, pow-add, pow-pos, lt_of_pow-lt}
use lume.Bitops.{shift_up, clz32, clz64, fls64, ilog2_64}

-- `v` is `val` shifted up by the count so far, without loss.
abbrev Shifted : ℕ → ℕ × ℕ → Type 0
Shifted val (n, v) = (v ≡ val * 2 ^ n) × (v < 2 ^ 32)

shifted : (val n v s : ℕ) → v ≡ val * 2 ^ n → v * 2 ^ s ≡ val * 2 ^ (n + s)
shifted val n v s e = rw (pow-add n s) (ap (λ t. t * 2 ^ s) e ∙ omega arith)

upper_clear : (v p : ℕ) → 0 < p → v / p * p ≡ 0 → v < p
upper_clear v p h e = omega (arith, div-add-mod' v p, mod-lt v h)

upper_set : (v p : ℕ) → (v / p * p ≡ 0 → ⊥) → p ≤ v
upper_set v p h = elim (Bool-cases (v / p == 0)) [
  | inl zero_part ↦ absurd (h (ap (λ t. t * p) ((==_iff (v / p) 0).0 zero_part) ∙ omega arith))
  | inr part ↦
      let one : 1 ≤ v / p = ground arith in
      let least : 1 * p ≤ v / p * p = grind arith in omega (arith, div-mul-le_self v p)
]

-- One step, by s with the mask of the upper s bits, keeps that and leaves a bit set among them.
shift_up-Shifted :
    (val s r : ℕ) (p : ℕ × ℕ)
    → r + s ≡ 32
    → 2 ^ r ≤ p.1 * 2 ^ s
    → Shifted val p
    → Shifted val (shift_up ((2 ^ s - 1) * 2 ^ r) s p)
      × (2 ^ r ≤ (shift_up ((2 ^ s - 1) * 2 ^ r) s p).1)
shift_up-Shifted val s r (n, v) e some h =
    let mask : bit_and v ((2 ^ s - 1) * 2 ^ r) ≡ v / 2 ^ r * 2 ^ r =
      bit_and-high s r v
        (subst (λ t. v < t) (ap (λ t. 2 ^ t) (sym e) ∙ pow-add r s ∙ omega arith) h.1) in
    let total : 2 ^ 32 ≡ 2 ^ s * 2 ^ r = ap (λ t. 2 ^ t) (sym e) ∙ pow-add r s ∙ omega arith in
    elim (Bool-cases (bit_and v ((2 ^ s - 1) * 2 ^ r) == 0)) [
      | inl clear ↦ rw clear (
          let low : v < 2 ^ r =
            upper_clear v (2 ^ r) (pow-pos r) (sym mask ∙ (==_iff _ 0).0 clear) in
          let room : v * 2 ^ s < 2 ^ 32 = grind (arith, pow-pos s) in
          let exact : (v * 2 ^ s) % 2 ^ 32 ≡ v * 2 ^ s = omega arith in
          rw exact ((shifted val n v s h.0, room), some))
      | inr set ↦ rw set (
        h,
        upper_set v (2 ^ r) (λ none_left.
            cc (set, (==_iff (bit_and v ((2 ^ s - 1) * 2 ^ r)) 0).1 (mask ∙ none_left))),
      )
    ]

-- `n` places up the highest bit of `val` is bit w - 1.
abbrev pub Leads : ℕ → ℕ → ℕ → Type 0
Leads w val n = (2 ^ w ≤ 2 * (val * 2 ^ n)) × (val * 2 ^ n < 2 ^ w)

top_bit :
    (val : ℕ) (p : ℕ × ℕ)
    → 2 ^ 31 ≤ p.1 * 2
    → Shifted val p
    → Leads 32 val (if bit_and p.1 0x80000000 == 0 then p.0 + 1 else p.0)
top_bit val (n, v) some h =
    let both = shift_up-Shifted val 1 31 (n, v) refl some h in
    elim (Bool-cases (bit_and v 0x80000000 == 0)) [
      | inl clear ↦
          let kept = rw clear at both in rw clear (omega (arith, kept.0.0, kept.0.1, kept.1))
      | inr set ↦ let kept = rw set at both in rw set (omega (arith, kept.0.0, kept.0.1, kept.1))
    ]

-- For a 32-bit word other than 0, `clz32` counts the leading zeros.
pub clz32-Leads : (val : ℕ) → 0 < val → val < 2 ^ 32 → Leads 32 val (clz32 val)
unfolding clz32
clz32-Leads val pos limit =
    let sixteen = shift_up-Shifted val 16 16 (0, val) refl (omega arith) (omega arith, limit) in
    let eight =
      shift_up-Shifted val 8 24 (shift_up 0xFFFF0000 16 (0, val)) refl (omega (arith, sixteen.1))
        sixteen.0 in
    let four = shift_up-Shifted val 4 28 _ refl (omega (arith, eight.1)) eight.0 in
    let two = shift_up-Shifted val 2 30 _ refl (omega (arith, four.1)) four.0 in
    top_bit val _ (omega (arith, two.1)) two.0

lt_of_mul : (a b p : ℕ) → a * p < b * p → a < b
lt_of_mul a b p h = elim (Bool-cases (ltb a b)) [
  | inl less ↦ ltb→lt a b less
  | inr more ↦ let le : b ≤ a = ltb→le a b more in absurd (grind arith)
]

le_of_mul : (a b p : ℕ) → 0 < p → a * p ≤ b * p → a ≤ b
le_of_mul a b p pos h =
    let step : a * p < (b + 1) * p = omega arith in
    let less = lt_of_mul a (b + 1) p step in omega arith

next_multiple : (a b p : ℕ) → a * p < b * p → (a + 1) * p ≤ b * p
next_multiple a b p h = let le : a + 1 ≤ b = omega (arith, lt_of_mul a b p h) in grind arith

Leads-high : (high low n : ℕ) → low < 2 ^ 32 → Leads 32 high n → Leads 64 (high * 2 ^ 32 + low) n
Leads-high high low n limit h =
    let scaled : low * 2 ^ n < 2 ^ 32 * 2 ^ n = grind (arith, pow-pos n) in
    let some : 1 ≤ high = grind arith in
    let small : 2 ^ n < 2 ^ 32 = grind arith in
    let index = lt_of_pow-lt n 32 small in
    let sum : 32 ≡ (32 - n) + n = omega arith in
    let split : 2 ^ 32 ≡ 2 ^ (32 - n) * 2 ^ n = ap (λ t. 2 ^ t) sum ∙ pow-add (32 - n) n in
    let room : (high + 1) * 2 ^ n ≤ 2 ^ 32 =
      rw split (next_multiple high (2 ^ (32 - n)) (2 ^ n) (rw split at h.1)) in
    omega (arith, h.0, h.1)

Leads-low : (low n : ℕ) → Leads 32 low n → Leads 64 low (32 + n)
Leads-low low n h =
    let scale : low * 2 ^ (32 + n) ≡ low * 2 ^ n * 2 ^ 32 = rw (pow-add 32 n) (omega arith) in
    omega (arith, h.0, h.1)

-- For a 64-bit word other than 0, `clz64` counts the leading zeros.
pub clz64-Leads : (val : ℕ) → 0 < val → val < 2 ^ 64 → Leads 64 val (clz64 val)
unfolding clz64
clz64-Leads val pos limit =
    let low = val % 2 ^ 32 in
    let high = val / 2 ^ 32 in
    let whole : val ≡ high * 2 ^ 32 + low = omega arith in
    let fits : high % 2 ^ 32 ≡ high = omega arith in
    elim (Bool-cases (high == 0)) [
      | inr some ↦
          rw (fits, some)
            (subst (λ t. Leads 64 t (clz32 high)) (sym whole)
              (Leads-high high low (clz32 high) (omega arith)
                (clz32-Leads high (ground arith) (omega arith))))
      | inl clear ↦
          let under : low ≡ val = ground arith in
          rw (fits, clear, under) (Leads-low val (clz32 val) (clz32-Leads val pos (omega arith)))
    ]

-- A word that n places up has its highest bit at 63 has 64 - n digits.
digits_of :
    (val n : ℕ)
    → 0 < val
    → Leads 64 val n
    → (m : ℕ) × (64 - n ≡ m + 1) × (2 ^ m ≤ val) × (val < 2 ^ (m + 1))
digits_of val n pos h =
    let scale : 2 ^ n ≤ val * 2 ^ n = grind arith in
    let index : n < 64 = lt_of_pow-lt n 64 (omega (arith, h.1)) in
    let sum : 64 ≡ (63 - n + 1) + n = omega arith in
    let split : 2 ^ 64 ≡ 2 ^ (63 - n + 1) * 2 ^ n = ap (λ t. 2 ^ t) sum ∙ pow-add (63 - n + 1) n in
    let double : 2 ^ (63 - n + 1) ≡ 2 ^ (63 - n) * 2 = rw add-one (pow-suc 2 (63 - n)) in
    (
      63 - n,
      omega arith,
      le_of_mul (2 ^ (63 - n)) val (2 ^ n) (pow-pos n)
          (omega (arith, h.0, ap (λ (t : ℕ). t * 2 ^ n) double)),
      lt_of_mul val (2 ^ (63 - n + 1)) (2 ^ n) (rw split at h.1),
    )

-- `fls64` is 0 for the word 0, and otherwise the position of the highest set bit, from 1: the word
-- has exactly that many binary digits.
pub fls64_lem :
    (val : ℕ)
    → val < 2 ^ 64
    → ((val ≡ 0) × (fls64 val ≡ 0))
      ⊎ ((n : ℕ) × (fls64 val ≡ n + 1) × (2 ^ n ≤ val) × (val < 2 ^ (n + 1)))
unfolding fls64
fls64_lem val limit = elim (Bool-cases (val == 0)) [
  | inl none_set ↦ rw none_set (inl ((==_iff val 0).0 none_set, refl))
  | inr some ↦
      rw some
        (inr (digits_of val (clz64 val) (ground arith) (clz64-Leads val (ground arith) limit)))
]

-- For a word other than 0, `ilog2_64` is the logarithm rounded down.
pub ilog2_64_lem :
    (val : ℕ) → 0 < val → val < 2 ^ 64 → (2 ^ ilog2_64 val ≤ val) × (val < 2 ^ (ilog2_64 val + 1))
unfolding ilog2_64
ilog2_64_lem val pos limit = elim (fls64_lem val limit) [
  | inl (none_set, _) ↦ absurd (omega arith)
  | inr (n, e, low, high) ↦
      let small = lt_of_pow-lt n 64 (omega arith) in
      let log : (fls64 val + 2 ^ 32 - 1) % 2 ^ 32 ≡ n = omega arith in rw log (low, high)
]

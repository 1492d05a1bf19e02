-- ===== src/Bitops/Power.antt =====
-- `is_power_of_2` of na/include/lume/bitops.h.
use native.Mathlib.Nat.{pow-suc}
use lume.Common.{
  ℕ, zero, suc, ◌+◌, ◌-◌, ◌*◌, ◌/◌, ◌%◌, ◌≤◌, ◌<◌, ◌^◌, ◌≡◌, refl, bit_and, arith, ap, sym, ◌∙◌,
  inl, inr, true, false, ◌==◌, ==_iff, Bool-cases, ◌↔◌,
}
use lume.Word.{sub64}
use lume.Word.Bits.{bit_and-digit, pow-pos}
use lume.Bitops.{is_power_of_2}

bit_and_self_below : (bound a : ℕ) → a ≤ bound → bit_and a a ≡ a
bit_and_self_below zero a h = let e : a ≡ 0 = omega arith in rw e
bit_and_self_below (suc bound) a h = elim (Bool-cases (a == 0)) [
  | inl none_set ↦ let e : a ≡ 0 = (==_iff a 0).0 none_set in rw e
  | inr some ↦ omega (arith, bit_and-digit a a, bit_and_self_below bound (a / 2) (ground arith))
]

bit_and_self : (a : ℕ) → bit_and a a ≡ a
bit_and_self a = bit_and_self_below a a (omega arith)

-- An even number shares a bit with its predecessor exactly if its half does.
even_pred : (m : ℕ) → 0 < m → bit_and (2 * m) (2 * m - 1) ≡ 2 * bit_and m (m - 1)
even_pred m h =
    let half : (2 * m - 1) / 2 ≡ m - 1 = omega arith in
    let whole : 2 * m / 2 ≡ m = omega arith in
    omega (
      arith,
      bit_and-digit (2 * m) (2 * m - 1),
      ap (λ t. bit_and t ((2 * m - 1) / 2)) whole,
      ap (bit_and m) half,
    )

odd_pred : (m : ℕ) → bit_and (2 * m + 1) (2 * m + 1 - 1) ≡ 2 * m
odd_pred m =
    let half : (2 * m + 1 - 1) / 2 ≡ m = omega arith in
    let whole : (2 * m + 1) / 2 ≡ m = omega arith in
    omega (
      arith,
      bit_and-digit (2 * m + 1) (2 * m + 1 - 1),
      ap (λ t. bit_and t ((2 * m + 1 - 1) / 2)) whole,
      ap (bit_and m) half,
      bit_and_self m,
    )

-- Only a power of two shares no bit with its predecessor.
clear-power : (bound v : ℕ) → v ≤ bound → 0 < v → bit_and v (v - 1) ≡ 0 → (k : ℕ) × (v ≡ 2 ^ k)
clear-power zero v h pos e = absurd (omega arith)
clear-power (suc bound) v h pos e = elim (Bool-cases (v % 2 == 0)) [
  | inl even ↦
      let m = v / 2 in
      let whole : v ≡ 2 * m = ground arith in
      let half_pos : 0 < m = omega arith in
      let clear : bit_and m (m - 1) ≡ 0 =
        omega (arith, even_pred m half_pos, ap (λ t. bit_and t (t - 1)) (sym whole)) in
      doubled v m whole (clear-power bound m (omega arith) half_pos clear)
  | inr odd ↦
      let m = v / 2 in
      let whole : v ≡ 2 * m + 1 = ground arith in
      let one : m ≡ 0 = omega (arith, odd_pred m, ap (λ t. bit_and t (t - 1)) (sym whole)) in
      (0, omega arith)
]
  where
    doubled : (v m : ℕ) → v ≡ 2 * m → (k : ℕ) × (m ≡ 2 ^ k) → (k : ℕ) × (v ≡ 2 ^ k)
    doubled v m whole (k, e) = (suc k, omega (arith, pow-suc 2 k))

power-clear : (k : ℕ) → bit_and (2 ^ k) (2 ^ k - 1) ≡ 0
power-clear zero = refl
power-clear (suc k) =
    let double : 2 ^ suc k ≡ 2 * 2 ^ k = omega (arith, pow-suc 2 k) in
    ap (λ t. bit_and t (t - 1)) double
    ∙ even_pred (2 ^ k) (pow-pos k)
    ∙ ap (λ t. 2 * t) (power-clear k)

test_parts : (val : ℕ) → is_power_of_2 val ≡ true → (0 < val) × (bit_and val (sub64 val 1) ≡ 0)
unfolding is_power_of_2
test_parts val e = ground arith

pred64 : (val : ℕ) → 0 < val → val < 2 ^ 64 → sub64 val 1 ≡ val - 1
pred64 val pos limit = omega arith

power_passes : (k val : ℕ) → val ≡ 2 ^ k → val < 2 ^ 64 → is_power_of_2 val ≡ true
unfolding is_power_of_2
power_passes k val e limit =
    let pos : 0 < val = omega (arith, pow-pos k) in
    let pred = pred64 val pos limit in
    let some : (val == 0) ≡ false = ground arith in
    let clear : bit_and val (val - 1) ≡ 0 = ap (λ t. bit_and t (t - 1)) e ∙ power-clear k in
    rw (some, pred, clear)

-- `is_power_of_2` decides whether a 64-bit word is a power of two.
pub is_power_of_2_iff :
    (val : ℕ) → val < 2 ^ 64 → (is_power_of_2 val ≡ true) ↔ ((k : ℕ) × (val ≡ 2 ^ k))
is_power_of_2_iff val limit = (found, holds)
  where
    found : is_power_of_2 val ≡ true → (k : ℕ) × (val ≡ 2 ^ k)
    found e =
        let parts = test_parts val e in
        clear-power val val (omega arith) parts.0
          (ap (bit_and val) (sym (pred64 val parts.0 limit)) ∙ parts.1)

    holds : ((k : ℕ) × (val ≡ 2 ^ k)) → is_power_of_2 val ≡ true
    holds (k, e) = power_passes k val e limit

-- ===== src/Bitops/Lowest.antt =====
-- The bits at and below the first one of a word.
use native.Mathlib.Nat.{mul-div_cancel, pow-suc}
use lume.Common.{ℕ, suc, ◌+◌, ◌-◌, ◌*◌, ◌/◌, ◌%◌, ◌^◌, ◌<◌, ◌≡◌, ap, ◌∙◌, arith}
use lume.Word.Bits.{pow-add, pow-pos}
use lume.Word.Digits.{bit}
use lume.Bitops.Trailing.{Trails}

-- An odd multiple of 2 ^ n has bit n, and no bit below.
pub Trails-bit : (val n : ℕ) → Trails val n → bit val n ≡ 1
Trails-bit val n (q, e) =
    ap (λ t. t / 2 ^ n % 2) e
    ∙ ap (λ t. t % 2) (mul-div_cancel (2 * q + 1) (pow-pos n))
    ∙ omega arith

pub Trails-below : (val n p : ℕ) → Trails val n → p < n → bit val p ≡ 0
Trails-below val n p (q, e) h =
    let sum : n ≡ suc (n - suc p) + p = omega arith in
    let split : 2 ^ n ≡ 2 ^ (n - suc p) * 2 * 2 ^ p =
      ap (λ t. 2 ^ t) sum
      ∙ pow-add (suc (n - suc p)) p
      ∙ ap (λ t. t * 2 ^ p) (pow-suc 2 (n - suc p)) in
    let shape : val ≡ 2 * ((2 * q + 1) * 2 ^ (n - suc p)) * 2 ^ p =
      e ∙ ap (λ t. (2 * q + 1) * t) split ∙ omega arith in
    ap (λ t. t / 2 ^ p % 2) shape
    ∙ ap (λ t. t % 2) (mul-div_cancel (2 * ((2 * q + 1) * 2 ^ (n - suc p))) (pow-pos p))
    ∙ omega arith

-- ===== src/Pmm/Blocks.antt =====
-- Blocks of 2 ^ order pages that start at a multiple of their length: what it takes to halve one and
-- to join two.
use native.Mathlib.Nat.{pow-suc, mul-le-mul_right, lt_of_mul-lt-mul_right}
use lume.Common.{
  ℕ, suc, ◌+◌, ◌-◌, ◌*◌, ◌/◌, ◌%◌, ◌^◌, ◌≤◌, ◌<◌, ◌≡◌, refl, ap, ◌∙◌, sym, Bool, true, false, ◌&&◌,
  ◌||◌, not, ◌==◌, arith, Bool-cases, inl, inr, ◌⊎◌, bit_xor,
}
use lume.Word.Bits.{pow-add, pow-pos}
use lume.Word.Xor.{bit_xor-pow}

-- A set of blocks, by order and first page.
abbrev pub Blocks : Type 0
Blocks = ℕ → ℕ → Bool

abbrev pub add : Blocks → ℕ → ℕ → Blocks
add B o p k q = (k == o && q == p) || B k q

abbrev pub remove : Blocks → ℕ → ℕ → Blocks
remove B o p k q = not (k == o && q == p) && B k q

abbrev pub Aligned : ℕ → ℕ → Type 0
Aligned o p = (q : ℕ) × (p ≡ q * 2 ^ o)

-- Page a lies in the block.
abbrev pub In : ℕ → ℕ → ℕ → Type 0
In o p a = (p ≤ a) × (a < p + 2 ^ o)

abbrev pub Apart : ℕ → ℕ → ℕ → ℕ → Type 0
Apart o p k q = (p + 2 ^ o ≤ q) ⊎ (q + 2 ^ k ≤ p)

pub Apart-sym : (o p k q : ℕ) → Apart o p k q → Apart k q o p
Apart-sym o p k q (inl h) = inr h
Apart-sym o p k q (inr h) = inl h

-- The pairs of blocks that are halves of one: the lower one comes first.
pub data Halves (o p b : ℕ) : Type 0 where
  lower : Aligned (suc o) p → b ≡ p + 2 ^ o → Halves o p b
  upper : Aligned (suc o) b → p ≡ b + 2 ^ o → Halves o p b

pub double : (o : ℕ) → 2 ^ suc o ≡ 2 ^ o + 2 ^ o
double o = omega (arith, pow-suc 2 o)

pub bit_xor-Halves : (o p : ℕ) → Aligned o p → Halves o p (bit_xor p (2 ^ o))
bit_xor-Halves o p (q, e) = elim (Bool-cases (q % 2 == 0)) [
  | inl even ↦
      let half : q ≡ q / 2 * 2 = ground arith in
      let buddy : bit_xor p (2 ^ o) ≡ (q + 1) * 2 ^ o =
        ap (λ t. bit_xor t (2 ^ o)) e ∙ bit_xor-pow o q ∙ ap (λ t. t * 2 ^ o) (rw even refl) in
      lower (q / 2, omega (arith, e, ap (λ t. t * 2 ^ o) half, ap (λ t. q / 2 * t) (pow-suc 2 o)))
        (omega (arith, buddy, e))
  | inr odd ↦
      let half : q ≡ q / 2 * 2 + 1 = ground arith in
      let buddy : bit_xor p (2 ^ o) ≡ (q - 1) * 2 ^ o =
        ap (λ t. bit_xor t (2 ^ o)) e ∙ bit_xor-pow o q ∙ ap (λ t. t * 2 ^ o) (rw odd refl) in
      let less : q - 1 ≡ q / 2 * 2 = omega arith in
      upper
        (q / 2, omega (arith, buddy, ap (λ t. t * 2 ^ o) less, ap (λ t. q / 2 * t) (pow-suc 2 o)))
        (omega (arith, buddy, e, ap (λ t. t * 2 ^ o) half, ap (λ t. t * 2 ^ o) less))
]

-- A longer aligned block that meets an aligned one contains it.
pub contains :
    (k d u v a : ℕ)
    → Aligned k u
    → Aligned (k + d) v
    → In k u a
    → In (k + d) v a
    → (v ≤ u) × (u + 2 ^ k ≤ v + 2 ^ (k + d))
contains k d u v a (r, e) (q, f) i j =
    let long : 2 ^ (k + d) ≡ 2 ^ d * 2 ^ k = omega (arith, pow-add k d) in
    let start : v ≡ q * 2 ^ d * 2 ^ k = omega (arith, f, ap (λ t. q * t) long) in
    let low : q * 2 ^ d < suc r = lt_of_mul-lt-mul_right (2 ^ k) (omega (arith, start, e, i, j)) in
    let high : r < q * 2 ^ d + 2 ^ d =
      lt_of_mul-lt-mul_right (2 ^ k) (omega (arith, start, long, e, i, j)) in
    let from : q * 2 ^ d * 2 ^ k ≤ r * 2 ^ k = mul-le-mul_right (2 ^ k) (omega (arith, low)) in
    let to : suc r * 2 ^ k ≤ (q * 2 ^ d + 2 ^ d) * 2 ^ k =
      mul-le-mul_right (2 ^ k) (omega (arith, high)) in
    (omega (arith, from, start, e), omega (arith, to, start, long, e))

-- Aligned blocks within n pages of which no two meet.
pub record Tiling (n : ℕ) (B : Blocks) : Type 0 where
  pub aligned : (o p : ℕ) → B o p ≡ true → (o < 11) × Aligned o p × (p + 2 ^ o ≤ n)
  pub disjoint : (o p k q : ℕ) → B o p ≡ true → B k q ≡ true → ((o ≡ k) × (p ≡ q)) ⊎ Apart o p k q

-- In B' the block of order k + 1 at p is its two halves.
pub record Halved (B B' : Blocks) (k p : ℕ) : Type 0 where
  pub whole : B (suc k) p ≡ true
  pub cases :
      (o r : ℕ)
      → B' o r ≡ true
      → ((o ≡ k) × ((r ≡ p) ⊎ (r ≡ p + 2 ^ k)))
        ⊎ ((B o r ≡ true) × ((o == suc k && r == p) ≡ false))
  pub halves : (B' k p ≡ true) × (B' k (p + 2 ^ k) ≡ true)
  pub keep : (o r : ℕ) → B o r ≡ true → (o == suc k && r == p) ≡ false → B' o r ≡ true

-- In B' the two halves are one block.
pub record Joined (B B' : Blocks) (k p : ℕ) : Type 0 where
  pub halves : (B k p ≡ true) × (B k (p + 2 ^ k) ≡ true)
  pub start : Aligned (suc k) p
  pub room : suc k < 11
  pub cases :
      (o r : ℕ)
      → B' o r ≡ true
      → ((o ≡ suc k) × (r ≡ p))
        ⊎ ((B o r ≡ true) × ((o == k && (r == p || r == p + 2 ^ k)) ≡ false))
  pub whole : B' (suc k) p ≡ true
  pub keep :
      (o r : ℕ) → B o r ≡ true → (o == k && (r == p || r == p + 2 ^ k)) ≡ false → B' o r ≡ true

module _ (n : ℕ) (B B' : Blocks) (k p : ℕ) (t : Tiling n B) where
  half-Apart :
      Halved B B' k p
      → (o r h : ℕ) → B o r ≡ true
      → (o == suc k && r == p) ≡ false
      → (h ≡ p) ⊎ (h ≡ p + 2 ^ k)
      → Apart k h o r
  half-Apart g o r h block other half = elim (t.disjoint (suc k) p o r g.whole block) [
    | inl (same, at) ↦ absurd (ground (arith, other))
    | inr apart ↦ elim apart [
      | inl before ↦ inl (omega (arith, half, double k))
      | inr behind ↦ inr (omega (arith, half, double k))
    ]
  ]

  pub Halved-Tiling : Halved B B' k p → Tiling n B'
  Halved-Tiling g = record {
    aligned = λ o r b. elim (g.cases o r b) [
      | inl (same, half) ↦
          let (small, (q, e), room) = t.aligned (suc k) p g.whole in
          half_aligned q e (omega (arith, small)) room o r same half
      | inr (old, other) ↦ t.aligned o r old
    ];
    disjoint = λ o r m u b c. elim (g.cases o r b) [
      | inl (same, half) ↦ elim (g.cases m u c) [
        | inl (same', half') ↦ two_halves o r m u same half same' half'
        | inr (old, other) ↦ inr (rw same (half-Apart g m u r old other half))
      ]
      | inr (old, other) ↦ elim (g.cases m u c) [
        | inl (same', half') ↦
            inr (rw same' (Apart-sym k u o r (half-Apart g o r u old other half')))
        | inr (old', other') ↦ t.disjoint o r m u old old'
      ]
    ];
  }
    where
      half_aligned :
          (q : ℕ)
          → p ≡ q * 2 ^ suc k
          → k < 11
          → p + 2 ^ suc k ≤ n
          → (o r : ℕ) → o ≡ k
          → (r ≡ p) ⊎ (r ≡ p + 2 ^ k)
          → (o < 11) × Aligned o r × (r + 2 ^ o ≤ n)
      half_aligned q e small room o r same (inl h) = rw same (
        small,
        (2 * q, omega (arith, h, e, ap (λ x. q * x) (double k))),
        omega (arith, h, double k, room),
      )
      half_aligned q e small room o r same (inr h) = rw same (
        small,
        (2 * q + 1, omega (arith, h, e, ap (λ x. q * x) (double k))),
        omega (arith, h, double k, room),
      )

      two_halves :
          (o r m u : ℕ)
          → o ≡ k
          → (r ≡ p) ⊎ (r ≡ p + 2 ^ k)
          → m ≡ k
          → (u ≡ p) ⊎ (u ≡ p + 2 ^ k)
          → ((o ≡ m) × (r ≡ u)) ⊎ Apart o r m u
      two_halves o r m u e (inl h) f (inl g) = inl (omega arith, omega arith)
      two_halves o r m u e (inr h) f (inr g) = inl (omega arith, omega arith)
      two_halves o r m u e (inl h) f (inr g) = rw (e, f) (inr (inl (omega arith)))
      two_halves o r m u e (inr h) f (inl g) = rw (e, f) (inr (inr (omega arith)))

  joined-Apart :
      Joined B B' k p
      → (o r : ℕ) → B o r ≡ true
      → (o == k && (r == p || r == p + 2 ^ k)) ≡ false
      → Apart (suc k) p o r
  joined-Apart g o r block other = elim (t.disjoint k p o r g.halves.0 block) [
    | inl (same, at) ↦ absurd (ground (arith, other))
    | inr (inr behind) ↦ inr behind
    | inr (inl before) ↦ elim (t.disjoint k (p + 2 ^ k) o r g.halves.1 block) [
      | inl (same, at) ↦ absurd (ground (arith, other))
      | inr (inl past) ↦ inl (omega (arith, double k))
      | inr (inr short) ↦ absurd (omega (arith, pow-pos o))
    ]
  ]

  pub Joined-Tiling : Joined B B' k p → Tiling n B'
  Joined-Tiling g = record {
    aligned = λ o r b. elim (g.cases o r b) [
      | inl (same, at) ↦
          rw (same, at)
            (g.room, g.start, omega (arith, (t.aligned k (p + 2 ^ k) g.halves.1).2, double k))
      | inr (old, other) ↦ t.aligned o r old
    ];
    disjoint = λ o r m u b c. elim (g.cases o r b) [
      | inl (same, at) ↦ elim (g.cases m u c) [
        | inl (same', at') ↦ inl (omega arith, omega arith)
        | inr (old, other) ↦ inr (rw (same, at) (joined-Apart g m u old other))
      ]
      | inr (old, other) ↦ elim (g.cases m u c) [
        | inl (same', at') ↦
            inr (rw (same', at') (Apart-sym (suc k) p o r (joined-Apart g o r old other)))
        | inr (old', other') ↦ t.disjoint o r m u old old'
      ]
    ];
  }

-- The same blocks.
pub Tiling-ext : (n : ℕ) (B B' : Blocks) → ((o p : ℕ) → B' o p ≡ B o p) → Tiling n B → Tiling n B'
Tiling-ext n B B' e t = record {
  aligned = λ o p b. t.aligned o p (sym (e o p) ∙ b);
  disjoint = λ o p k q b c. t.disjoint o p k q (sym (e o p) ∙ b) (sym (e k q) ∙ c);
}

pub Aligned-unique : (k p a : ℕ) → Aligned k p → Aligned k a → In k p a → a ≡ p
Aligned-unique k p a (r, e) (q, f) i =
    let low : r < suc q = lt_of_mul-lt-mul_right (2 ^ k) (omega (arith, e, f, i, pow-pos k)) in
    let high : q < suc r = lt_of_mul-lt-mul_right (2 ^ k) (omega (arith, e, f, i)) in
    let same : q ≡ r = omega arith in f ∙ ap (λ t. t * 2 ^ k) same ∙ sym e

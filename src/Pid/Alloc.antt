-- ===== src/Pid/Alloc.antt =====
-- `alloc` and `free` of na/kernel/pid.cc against the set of PIDs in use.
use lume.Common.{
  ℕ, zero, suc, ◌+◌, ◌-◌, ◌*◌, ◌/◌, ◌%◌, ◌^◌, ◌≤◌, ◌<◌, ◌≡◌, ◌≢◌, refl, ap, ◌∙◌, sym, false, ◌==◌,
  ==_iff, leb, if◌then◌else◌, arith, Bool-cases, inl, inr, ◌⊎◌, ℤ, pos, negsuc,
}
use lume.Word.{not64}
use lume.Word.Bits.{pow-lt_of_lt}
use lume.Word.Digits.{bit, bit-bit_or, bit-pow_self, bit-pow_ne, bit_or-lt}
use lume.Pid.{PidAllocator, max_pid, bitmap_words, take, trailing_zeros, scan_words, alloc}
use lume.Pid.Scan.{Full, FirstZero, complement-Full, trailing_zeros-FirstZero}

-- 1 for a PID in use.
abbrev pub used : PidAllocator → ℕ → ℕ
used a p = bit (a.bitmap (p / 64)) (p % 64)

pub record IsValid (a : PidAllocator) : Type 0 where
  pub words : (w : ℕ) → a.bitmap w < 2 ^ 64
  pub hint : a.next_hint < max_pid
  pub reserved : (used a 0 ≡ 1) × (used a 1 ≡ 1)

pub record Handed (a : PidAllocator) (pid : ℕ) (a' : PidAllocator) : Type 0 where
  pub range : (2 ≤ pid) × (pid < max_pid)
  pub fresh : used a pid ≡ 0
  pub now : (p : ℕ) → used a' p ≡ (if p == pid then 1 else used a p)
  pub valid : IsValid a'

module _ (a : PidAllocator) (v : IsValid a) (w b : ℕ) (small : w < bitmap_words) where
  used-take : b < 64 → (p : ℕ) → used (take a w b) p ≡ (if p == w * 64 + b then 1 else used a p)
  unfolding take
  used-take h p =
      let both = bit-bit_or (p % 64) (a.bitmap w) (2 ^ b) in
      elim (Bool-cases (p == w * 64 + b)) [
        | inl same ↦
            let at : p / 64 ≡ w = ground arith in
            let off : p % 64 ≡ b = ground arith in
            rw (same, at, off) (ground (arith, bit-bit_or b (a.bitmap w) (2 ^ b), bit-pow_self b))
        | inr other ↦ rw other (elim (Bool-cases (p / 64 == w)) [
          | inr away ↦ rw away refl
          | inl here ↦ rw here (
              let at : p / 64 ≡ w = ground arith in
              let off : p % 64 ≢ b = λ e. ground arith in
              rw at (omega (arith, both, bit-pow_ne b (p % 64) off)))
        ])
      ]

  take-IsValid : FirstZero (a.bitmap w) b → IsValid (take a w b)
  unfolding take
  take-IsValid z = record {
    words = λ n. ground (
      arith,
      v.words n,
      bit_or-lt 64 (a.bitmap w) (2 ^ b) (v.words w) (pow-lt_of_lt b 64 z.small),
    );
    hint = ground (arith, z.small);
    reserved = (
      ground (arith, used-take z.small 0, v.reserved),
      ground (arith, used-take z.small 1, v.reserved),
    );
  }

  take-Handed : FirstZero (a.bitmap w) b → Handed a (w * 64 + b) (take a w b)
  take-Handed z =
      let at : (w * 64 + b) / 64 ≡ w = omega (arith, z.small) in
      let off : (w * 64 + b) % 64 ≡ b = omega (arith, z.small) in
      let fresh : used a (w * 64 + b) ≡ 0 = rw (at, off) z.clear in
      record {
        range = (
          omega (arith, z.small, not_at 0 fresh v.reserved.0, not_at 1 fresh v.reserved.1),
          omega (arith, z.small),
        );
        fresh = fresh;
        now = used-take z.small;
        valid = take-IsValid z;
      }
    where
      not_at : (p : ℕ) → used a (w * 64 + b) ≡ 0 → used a p ≡ 1 → w * 64 + b ≢ p
      not_at p free_bit set e = omega (arith, free_bit, set, ap (used a) e)

-- Either a PID is handed out, or all are in use and nothing changes.
abbrev pub Answers : PidAllocator → ℤ × PidAllocator → Type 0
Answers a r =
    ((pid : ℕ) × (r.0 ≡ pos pid) × Handed a pid r.1)
    ⊎ ((r ≡ (negsuc 0, a)) × ((p : ℕ) → p < max_pid → used a p ≡ 1))

abbrev word_at : PidAllocator → ℕ → ℕ
word_at a passes = (a.next_hint / 64 + passes) % bitmap_words

-- After as many passes as there are words, each has been seen.
all_seen :
    (a : PidAllocator)
    → IsValid a
    → ((j : ℕ) → j < 512 → Full (a.bitmap (word_at a j)))
    → (p : ℕ) → p < max_pid
    → used a p ≡ 1
all_seen a v seen p h =
    let start = a.next_hint / 64 in
    let j = (p / 64 + 512 - start) % 512 in
    let at : word_at a j ≡ p / 64 = omega (arith, v.hint) in
    sym (ap (λ w. bit (a.bitmap w) (p % 64)) at) ∙ seen j (omega arith) (p % 64) (omega arith)

scan_words-Answers :
    (left passes : ℕ) (a : PidAllocator)
    → IsValid a
    → passes + left ≡ 512
    → ((j : ℕ) → j < passes → Full (a.bitmap (word_at a j)))
    → Answers a (scan_words left passes a)
unfolding scan_words
scan_words-Answers zero passes a v sum seen = inr (refl, all_seen a v (λ j h. seen j (omega arith)))
scan_words-Answers (suc left) passes a v sum seen =
    let w = word_at a passes in
    let word = v.words w in
    elim (Bool-cases (not64 (a.bitmap w) == 0)) [
      | inl full ↦ rw full (
          scan_words-Answers left (suc passes) a v (omega arith) (λ j h.
            elim (Bool-cases (j == passes)) [
              | inl last ↦
                  rw ((==_iff j passes).0 last) (complement-Full (a.bitmap w) word (ground arith))
              | inr before ↦ seen j (ground arith)
            ]))
      | inr some ↦
          let z = trailing_zeros-FirstZero (a.bitmap w) word some in
          let b = trailing_zeros 64 (not64 (a.bitmap w)) in
          let fits : leb max_pid (w * 64 + b) ≡ false = ground (arith, z.small) in
          rw (some, fits) (inl (w * 64 + b, refl, take-Handed a v w b (omega arith) z))
    ]

-- From a valid allocator `alloc` hands out a PID that was not in use, not one of the reserved two,
-- and marks that one only, or it answers -1 and all PIDs are in use.
pub alloc-Answers : (a : PidAllocator) → IsValid a → Answers a (alloc a)
unfolding alloc
alloc-Answers a v = scan_words-Answers 512 0 a v refl (λ j h. absurd (omega arith))

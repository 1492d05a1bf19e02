-- ===== src/Pid/Free.antt =====
-- `free` of na/kernel/pid.cc, and what `alloc` finds after it.
use lume.Common.{
  ℕ, ◌/◌, ◌%◌, ◌^◌, ◌≤◌, ◌<◌, ◌↔◌, ◌≡◌, ◌≢◌, refl, false, ◌==◌, ==_iff, leb, if◌then◌else◌, arith,
  Bool-cases, inl, inr, pos, negsuc,
}
use lume.Word.{not64}
use lume.Word.Bits.{pow-lt_of_lt}
use lume.Word.Digits.{bit-complement, bit-bit_and, bit-pow_self, bit-pow_ne, bit_and-le}
use lume.Pid.{PidAllocator, max_pid, init, alloc, free}
use lume.Pid.Alloc.{used, IsValid, alloc-Answers}

pub init-IsValid : IsValid init
unfolding init
init-IsValid = record { words = λ w. ground arith; hint = omega arith; reserved = (refl, refl) }

used-free :
    (a : PidAllocator) (pid p : ℕ)
    → pid < max_pid
    → used (free a (pos pid)) p ≡ (if p == pid then 0 else used a p)
unfolding free
used-free a pid p h =
    let w = pid / 64 in
    let b = pid % 64 in
    let fits : leb max_pid pid ≡ false = ground arith in
    let small : 2 ^ b < 2 ^ 64 = pow-lt_of_lt b 64 (omega arith) in
    let clear = bit-complement 64 (p % 64) (2 ^ b) (omega arith) small in
    let both = bit-bit_and (p % 64) (a.bitmap w) (not64 (2 ^ b)) in
    rw fits (elim (Bool-cases (p == pid)) [
      | inl same ↦
          rw (same, (==_iff p pid).0 same)
            (ground (
              arith,
              bit-bit_and b (a.bitmap w) (not64 (2 ^ b)),
              bit-complement 64 b (2 ^ b),
              small,
              bit-pow_self b,
            ))
      | inr other ↦ rw other (elim (Bool-cases (p / 64 == w)) [
        | inr away ↦ rw away refl
        | inl here ↦ rw here (
            let at : p / 64 ≡ w = ground arith in
            let off : p % 64 ≢ b = λ e. ground arith in
            rw at (omega (arith, both, clear, bit-pow_ne b (p % 64) off)))
      ])
    ])

-- Where the two reserved PIDs are in use after `free`, it was of another one.
Reserved-free :
    (a : PidAllocator) (pid : ℕ)
    → pid < max_pid
    → (used (free a (pos pid)) 0 ≡ 1) × (used (free a (pos pid)) 1 ≡ 1)
    → 2 ≤ pid
Reserved-free a pid h r =
    let zeroth = used-free a pid 0 h in
    let first = used-free a pid 1 h in ground (arith, zeroth, first, r)

pub record Freed (a : PidAllocator) (pid : ℕ) (a' : PidAllocator) : Type 0 where
  pub now : (p : ℕ) → used a' p ≡ (if p == pid then 0 else used a p)
  pub valid : IsValid a' ↔ (2 ≤ pid)

-- On a valid allocator `free` of a PID frees that one only, and the allocator is valid afterwards just
-- if the PID is not one of the two reserved ones, which `free` does not refuse; a number that is no PID,
-- negative ones included, changes nothing.
pub free-Freed :
    (a : PidAllocator)
    → IsValid a
    → ((pid : ℕ) → pid < max_pid → Freed a pid (free a (pos pid)))
      × ((pid : ℕ) → max_pid ≤ pid → free a (pos pid) ≡ a)
      × ((n : ℕ) → free a (negsuc n) ≡ a)
unfolding free
free-Freed a v = (
  λ pid hi. record {
    now = λ p. used-free a pid p hi;
    valid = (
      λ w. Reserved-free a pid hi w.reserved,
      λ lo. record {
        words = λ n.
            ground
              (arith, v.words n, bit_and-le 64 (a.bitmap n) (not64 (2 ^ (pid % 64))) (v.words n));
        hint = ground (arith, v.hint);
        reserved = (
          ground (arith, used-free a pid 0 hi, v.reserved),
          ground (arith, used-free a pid 1 hi, v.reserved),
        );
      },
    );
  },
  λ pid h. ground arith,
  λ n. refl,
)

-- After a PID has been given back `alloc` does not fail. If all others are in use, it hands out that
-- very PID.
pub alloc-free :
    (a : PidAllocator) (pid : ℕ)
    → IsValid a
    → 2 ≤ pid
    → pid < max_pid
    → (next : ℕ) × ((alloc (free a (pos pid))).0 ≡ pos next)
      × (((p : ℕ) → p < max_pid → p ≢ pid → used a p ≡ 1) → next ≡ pid)
alloc-free a pid v lo hi =
    let freed = (free-Freed a v).0 pid hi in
    elim (alloc-Answers (free a (pos pid)) (freed.valid.1 lo)) [
      | inl (next, e, handed) ↦ (
        next,
        e,
        λ others. elim (Bool-cases (next == pid)) [
          | inl same ↦ (==_iff next pid).0 same
          | inr other ↦
              absurd (ground (arith, others next handed.range.1, freed.now next, handed.fresh))
        ],
      )
      | inr (_, full) ↦ absurd (ground (arith, full pid hi, freed.now pid))
    ]

-- ===== src/Sched/Queue.antt =====
-- `O1RunQueue` of na/kernel/sched_internal.h: what ties the bitmap to the lists, and that `enqueue`
-- and `dequeue` keep it.
use Prim.Native.Nat.{max}
use lume.Common.{
  Distinct, Distinct-snoc, Distinct-unlink, flag, flag-snoc, flag-unlink, mem, mem-snoc, mem-unlink,
  unlink, unlink_absent, ℕ, ◌-◌, ◌^◌, ◌<◌, ◌≡◌, ◌≢◌, refl, sym, ap, ◌∙◌, true, false, ◌==◌, ==_iff,
  arith, Bool-cases, inl, inr,
}
use lume.Word.Bits.{pow-lt_of_lt}
use lume.Word.Digits.{
  bit, bit-bit_or, bit-bit_and, bit-pow_self, bit-pow_ne, bit-complement, bit_or-lt, bit_and-le,
  bit-zero,
}
use lume.Sched.{TaskState, Tasks, O1RunQueue, enqueue, dequeue, num_priorities, init}

-- The bit of each priority says whether its list has a task, and each list holds runnable tasks of
-- its priority, once each.
pub record IsValid (q : O1RunQueue) (tasks : Tasks) : Type 0 where
  pub word : q.bitmap < 2 ^ 32
  pub bits : (p : ℕ) → p < num_priorities → bit q.bitmap p ≡ flag (q.queues p)
  pub distinct : (p : ℕ) → Distinct (q.queues p)
  pub range : (p t : ℕ) → mem t (q.queues p) ≡ true → p < num_priorities
  pub level : (p t : ℕ) → mem t (q.queues p) ≡ true → (tasks t).priority ≡ p
  pub ready : (p t : ℕ) → mem t (q.queues p) ≡ true → (tasks t).state ≡ TaskState.runnable

abbrev pub Absent : ℕ → O1RunQueue → Type 0
Absent t q = (p : ℕ) → mem t (q.queues p) ≡ false

pub init-IsValid : (tasks : Tasks) → IsValid init tasks
unfolding init
init-IsValid tasks = record {
  word = omega arith;
  bits = λ p h. bit-zero p;
  distinct = λ p. tt;
  range = λ p t m. cc;
  level = λ p t m. cc;
  ready = λ p t m. cc;
}

pub init-Absent : (t : ℕ) → Absent t init
unfolding init
init-Absent t p = refl

module _ (q : O1RunQueue) (tasks : Tasks) (t : ℕ) (v : IsValid q tasks)
    (fits : (tasks t).priority < num_priorities) where
  abbrev prio : ℕ
  prio = (tasks t).priority

  prio_bit : 2 ^ prio < 2 ^ 32
  prio_bit = pow-lt_of_lt prio 32 fits

  -- Queueing a task that is in no list keeps the invariant.
  pub enqueue-IsValid : Absent t q → IsValid (enqueue q tasks t).0 (enqueue q tasks t).1
  unfolding enqueue
  enqueue-IsValid absent = record {
    word = bit_or-lt 32 q.bitmap (2 ^ prio) v.word prio_bit;
    bits = λ p h. elim (Bool-cases (p == prio)) [
      | inl here ↦ rw here (
          let at : p ≡ prio = (==_iff p prio).0 here in
          bit-bit_or p q.bitmap (2 ^ prio)
          ∙ ap (λ n. max (bit q.bitmap p) (bit (2 ^ prio) n)) at
          ∙ omega (arith, bit-pow_self prio, flag-snoc t (q.queues prio)))
      | inr other ↦ rw other (
          let off : p ≢ prio = λ e. cc (other, (==_iff p prio).1 e) in
          bit-bit_or p q.bitmap (2 ^ prio) ∙ omega (arith, bit-pow_ne prio p off, v.bits p h))
    ];
    distinct = λ p.
        ground (arith, v.distinct p, v.distinct prio, Distinct-snoc t (q.queues prio), absent prio);
    range = λ p u m. ground (arith, v.range p u, fits);
    level = λ p u m. ground (arith, v.level p u, mem-snoc u t (q.queues prio));
    ready = λ p u m. ground (arith, v.ready p u, mem-snoc u t (q.queues prio));
  }

  unlink_other : (p : ℕ) → p ≢ prio → unlink t (q.queues p) ≡ q.queues p
  unlink_other p h = elim (Bool-cases (mem t (q.queues p))) [
    | inl here ↦ absurd (h (sym (v.level p t here)))
    | inr gone ↦ unlink_absent t (q.queues p) gone
  ]

  cleared : (p : ℕ) → p < num_priorities → bit (2 ^ 32 - 1 - 2 ^ prio) p ≡ 1 - bit (2 ^ prio) p
  cleared p h = bit-complement 32 p (2 ^ prio) h prio_bit

  dequeue_bits :
      (p : ℕ)
      → p < num_priorities
      → bit (dequeue q tasks t).bitmap p ≡ flag ((dequeue q tasks t).queues p)
  unfolding dequeue
  dequeue_bits p h =
      let last = bit-bit_and p q.bitmap (2 ^ 32 - 1 - 2 ^ prio) in
      elim (Bool-cases (p == prio)) [
        | inl here ↦
            let at : p ≡ prio = (==_iff p prio).0 here in
            ground (
              arith,
              at,
              last,
              cleared p h,
              ap (λ n. bit (2 ^ prio) n) at,
              bit-pow_self prio,
              ap q.queues at,
              v.bits p h,
              flag-unlink t (q.queues prio),
            )
        | inr other ↦
            let off : p ≢ prio = λ e. cc (other, (==_iff p prio).1 e) in
            ground (arith, last, cleared p h, bit-pow_ne prio p off, unlink_other p off, v.bits p h)
      ]

  -- Taking a task out keeps the invariant and leaves it in no list.
  pub dequeue-IsValid : IsValid (dequeue q tasks t) tasks × Absent t (dequeue q tasks t)
  unfolding dequeue
  dequeue-IsValid = (
    record {
      word = ground (arith, v.word, bit_and-le 32 q.bitmap (2 ^ 32 - 1 - 2 ^ prio) v.word);
      bits = dequeue_bits;
      distinct = λ p. Distinct-unlink t (q.queues p) (v.distinct p);
      range = λ p u m. ground (arith, v.range p u, mem-unlink u t (q.queues p));
      level = λ p u m. ground (arith, v.level p u, mem-unlink u t (q.queues p));
      ready = λ p u m. ground (arith, v.ready p u, mem-unlink u t (q.queues p));
    },
    λ p. ground (arith, mem-unlink t t (q.queues p)),
  )

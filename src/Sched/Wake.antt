-- ===== src/Sched/Wake.antt =====
-- `sched_enqueue` and `sched_dequeue` of na/kernel/sched_core.cc, as a wake-up and a wait use them.
use lume.Common.{
  mem-unlink, unlink, update, ℕ, ◌<◌, ◌≡◌, ◌≢◌, refl, sym, ap, ◌∙◌, [], ◌∷◌, ◌++◌, some, ◌==◌,
  if◌then◌else◌, arith, inl, inr, ◌⊎◌,
}
use lume.Sched.{
  TaskState, SchedClass, Task, Cpu, enqueue, dequeue, enqueue_task, dequeue_task, o1_enqueue_task,
  o1_dequeue_task, num_priorities,
}
use lume.Sched.Core.{sched_enqueue, sched_dequeue, with_class}
use lume.Sched.Queue.{Absent, dequeue-IsValid}
use lume.Sched.PutBack.{Base, o1_enqueue-Base, o1_enqueue_queues}

-- A task of the O(1) class, or of none yet.
abbrev pub Ordinary : SchedClass → Type 0
Ordinary c = (c ≡ SchedClass.o1) ⊎ (c ≡ SchedClass.unset)

with_class-Ordinary : (c : SchedClass) → Ordinary c → with_class c ≡ SchedClass.o1
with_class-Ordinary c (inl e) = ap with_class e
with_class-Ordinary c (inr e) = ap with_class e

not_idle : (c : SchedClass) → Ordinary c → c ≡ SchedClass.idle → ⊥
not_idle c (inl e) k = cc
not_idle c (inr e) k = cc

-- The class that the task is given.
abbrev named : Cpu → ℕ → Cpu
named s t =
    let task = s.tasks t in
    let given : Task = record task { sched_class = with_class task.sched_class } in
    record s { tasks = update s.tasks t given }

named-Base : (s : Cpu) (i t : ℕ) → Base s i → Ordinary (s.tasks t).sched_class → Base (named s t) i
named-Base s i t b c =
    let o1 = with_class-Ordinary (s.tasks t).sched_class c in
    let other : i ≢ t = λ e.
      not_idle (s.tasks t).sched_class c
        (sym (ap (λ u. (s.tasks u).sched_class) e) ∙ b.idle_class) in
    record {
      queue = record {
        word = b.queue.word;
        bits = b.queue.bits;
        distinct = b.queue.distinct;
        range = b.queue.range;
        level = λ p u m. ground (arith, b.queue.level p u m);
        ready = λ p u m. ground (arith, b.queue.ready p u m);
      };
      classes = λ p u m. ground (arith, b.classes p u m, o1);
      idle = b.idle;
      idle_class = ground (arith, b.idle_class, other);
      idle_absent = b.idle_absent;
    }

pub record Woken (s : Cpu) (i t : ℕ) (s' : Cpu) : Type 0 where
  pub base : Base s' i
  pub state : (s'.tasks t).state ≡ TaskState.runnable
  pub queues :
      (p : ℕ)
      → s'.rq.o1.queues p
        ≡ (if p == (s.tasks t).priority then s.rq.o1.queues p ++ (t ∷ []) else s.rq.o1.queues p)

o1_enqueue_state : (s : Cpu) (t : ℕ) → ((o1_enqueue_task s t).tasks t).state ≡ TaskState.runnable
unfolding o1_enqueue_task enqueue
o1_enqueue_state s t = ground arith

-- From a valid CPU `sched_enqueue` of an ordinary task that is in no list succeeds: the task becomes
-- runnable, stands last in the list of its priority, and the CPU is valid again.
pub sched_enqueue-Woken :
    (s : Cpu) (i t : ℕ)
    → Base s i
    → Ordinary (s.tasks t).sched_class
    → Absent t s.rq.o1
    → (s.tasks t).priority < num_priorities
    → (s' : Cpu) × (sched_enqueue s t ≡ some s') × Woken s i t s'
unfolding sched_enqueue enqueue_task
sched_enqueue-Woken s i t b c absent fits =
    let o1 = with_class-Ordinary (s.tasks t).sched_class c in
    let n = named s t in
    (
      o1_enqueue_task n t,
      ground (arith, o1),
      record {
        base =
            o1_enqueue-Base n i t (named-Base s i t b c) absent (ground (arith, fits))
              (ground (arith, o1));
        state = o1_enqueue_state n t;
        queues = λ p. o1_enqueue_queues n t p ∙ ground arith;
      },
    )

pub record Removed (s : Cpu) (i t : ℕ) (s' : Cpu) : Type 0 where
  pub base : Base s' i
  pub absent : Absent t s'.rq.o1
  pub queues : (p : ℕ) → s'.rq.o1.queues p ≡ unlink t (s.rq.o1.queues p)

o1_dequeue-Removed :
    (s : Cpu) (i t : ℕ)
    → Base s i
    → (s.tasks t).priority < num_priorities
    → Removed s i t (o1_dequeue_task s t)
unfolding o1_dequeue_task dequeue
o1_dequeue-Removed s i t b fits =
    let both = dequeue-IsValid s.rq.o1 s.tasks t b.queue fits in
    record {
      base = record {
        queue = both.0;
        classes = λ n u h. ground (arith, b.classes n u, mem-unlink u t (s.rq.o1.queues n));
        idle = b.idle;
        idle_class = b.idle_class;
        idle_absent = λ n. ground (arith, b.idle_absent n, mem-unlink i t (s.rq.o1.queues n));
      };
      absent = both.1;
      queues = λ p. refl;
    }

-- From a valid CPU `sched_dequeue` of an ordinary task succeeds, whether it is queued or not: it is in
-- no list, the others keep their order, and the CPU is valid again.
pub sched_dequeue-Removed :
    (s : Cpu) (i t : ℕ)
    → Base s i
    → Ordinary (s.tasks t).sched_class
    → (s.tasks t).priority < num_priorities
    → (s' : Cpu) × (sched_dequeue s t ≡ some s') × Removed s i t s'
unfolding sched_dequeue dequeue_task
sched_dequeue-Removed s i t b c fits =
    let o1 = with_class-Ordinary (s.tasks t).sched_class c in
    let n = named s t in
    let done = o1_dequeue-Removed n i t (named-Base s i t b c) (ground (arith, fits)) in
    (
      o1_dequeue_task n t,
      ground (arith, o1),
      record { base = done.base; absent = done.absent; queues = done.queues },
    )

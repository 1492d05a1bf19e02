-- ===== src/Sched/Switch.antt =====
-- The second half of `schedule` of na/kernel/sched_core.cc: the task that is switched to.
use lume.Common.{
  mem, mem-unlink, unlink, unlink_absent, ℕ, ◌<◌, ◌≡◌, refl, sym, true, false, some, ◌==◌, ==_iff,
  if◌then◌else◌, arith, Bool-cases, inl, inr, ◌⊎◌,
}
use lume.Sched.{TaskState, SchedClass, Cpu, dequeue, dequeue_task, o1_dequeue_task, num_priorities}
use lume.Sched.Core.{set_state, switch_to}
use lume.Sched.Queue.{Absent, dequeue-IsValid}
use lume.Sched.PutBack.{Base}

-- The CPU after the switch to `next`.
abbrev pub taken : Cpu → ℕ → ℕ → Cpu
taken s i next = if next == i then s else o1_dequeue_task s next

abbrev pub switched : Cpu → ℕ → ℕ → Cpu
switched s i next =
    let d = set_state (taken s i next) next TaskState.running in
    record d { rq = record (d.rq) { current = some next; need_resched = false } }

-- Whom the classes may pick.
abbrev pub Picked : Cpu → ℕ → ℕ → Type 0
Picked s i next = (next ≡ i) ⊎ ((p : ℕ) × (mem next (s.rq.o1.queues p) ≡ true))

pub switch_to_eq :
    (s : Cpu) (i prev next : ℕ)
    → s.rq.idle ≡ some i
    → s.rq.current ≡ some prev
    → (s.tasks i).sched_class ≡ SchedClass.idle
    → ((next ≡ i) ⊎ ((s.tasks next).sched_class ≡ SchedClass.o1))
    → switch_to s prev next ≡ some (switched s i next)
unfolding switch_to dequeue_task o1_dequeue_task dequeue
switch_to_eq s i prev next idle current idle_class class =
    ground (arith, idle, current, idle_class, class)

o1_dequeue-Base :
    (s : Cpu) (i t p : ℕ)
    → Base s i
    → mem t (s.rq.o1.queues p) ≡ true
    → Base (o1_dequeue_task s t) i
      × Absent t (o1_dequeue_task s t).rq.o1
      × ((n : ℕ) → (o1_dequeue_task s t).rq.o1.queues n ≡ unlink t (s.rq.o1.queues n))
unfolding o1_dequeue_task dequeue
o1_dequeue-Base s i t p b m =
    let fits : (s.tasks t).priority < num_priorities =
      omega (arith, b.queue.level p t m, b.queue.range p t m) in
    let both = dequeue-IsValid s.rq.o1 s.tasks t b.queue fits in
    (
      record {
        queue = both.0;
        classes = λ n u h. ground (arith, b.classes n u, mem-unlink u t (s.rq.o1.queues n));
        idle = b.idle;
        idle_class = b.idle_class;
        idle_absent = λ n. ground (arith, b.idle_absent n, mem-unlink i t (s.rq.o1.queues n));
      },
      both.1,
      λ n. refl,
    )

-- The idle task is in no list, so that taking it out changes nothing.
pub record Chosen (s : Cpu) (i next : ℕ) (d : Cpu) : Type 0 where
  pub base : Base d i
  pub absent : Absent next d.rq.o1
  pub queues : (n : ℕ) → d.rq.o1.queues n ≡ unlink next (s.rq.o1.queues n)
  pub class :
      (((d.tasks next).sched_class ≡ SchedClass.o1) × ((d.tasks next).priority < num_priorities))
      ⊎ (next ≡ i)

pub taken-Chosen :
    (s : Cpu) (i next : ℕ) → Base s i → Picked s i next → Chosen s i next (taken s i next)
unfolding o1_dequeue_task
taken-Chosen s i next b (inl idle_task) =
    let same_task : (next == i) ≡ true = ground arith in
    rw same_task (record {
      base = b;
      absent = λ n. rw idle_task (b.idle_absent n);
      queues = λ n. rw idle_task (sym (unlink_absent i (s.rq.o1.queues n) (b.idle_absent n)));
      class = inr idle_task;
    })
taken-Chosen s i next b (inr (p, m)) = elim (Bool-cases (next == i)) [
  | inl same_task ↦ let eq = (==_iff next i).0 same_task in absurd (cc (m, b.idle_absent p, eq))
  | inr other ↦
      let d = o1_dequeue-Base s i next p b m in
      rw other (record {
        base = d.0;
        absent = d.1;
        queues = d.2;
        class =
            inl (b.classes p next m, omega (arith, b.queue.level p next m, b.queue.range p next m));
      })
]

-- ===== src/Sched/Schedule.antt =====
-- `schedule` of na/kernel/sched_core.cc: who runs next, and what is queued afterwards.
use lume.Common.{
  unlink, ℕ, ◌≡◌, refl, sym, ap, fun_ext, ◌∙◌, subst, false, Option, none, some, arith, inl, inr,
  ◌⊎◌,
}
use lume.Sched.{TaskState, SchedClass, Cpu, pick_next_task, o1_dequeue_task, num_priorities}
use lume.Sched.Core.{schedule, schedule_from}
use lume.Sched.Pick.{scan, scan-mem, pick_next-scan}
use lume.Sched.PutBack.{Base, Current, PutBack, requeued, set_state-Base, put_back_lem}
use lume.Sched.Switch.{taken, switched, Picked, switch_to_eq, Chosen, taken-Chosen}

abbrev or_idle : ℕ → Option ℕ → ℕ
or_idle i none = i
or_idle i (some t) = t

-- Who is to run: the first task of the most urgent list once the old one is back, or the idle task.
abbrev pub winner : Cpu → ℕ → ℕ → ℕ
winner s i t = or_idle i (scan num_priorities 0 (requeued s t))

pub record Switched (s : Cpu) (i t : ℕ) (s' : Cpu) : Type 0 where
  pub current : s'.rq.current ≡ some (winner s i t)
  pub state : (s'.tasks (winner s i t)).state ≡ TaskState.running
  pub queues : (p : ℕ) → s'.rq.o1.queues p ≡ unlink (winner s i t) (requeued s t p)
  pub resched : s'.rq.need_resched ≡ false
  pub slices : (u : ℕ) → (s'.tasks u).time_slice ≡ (s.tasks u).time_slice
  pub base : Base s' i
  pub next : Current s' i (winner s i t)

or_idle-Picked :
    (s : Cpu) (i : ℕ) (found : Option ℕ)
    → scan num_priorities 0 s.rq.o1.queues ≡ found
    → Picked s i (or_idle i found)
or_idle-Picked s i none e = inl refl
or_idle-Picked s i (some t) e = inr (scan-mem num_priorities 0 s.rq.o1.queues t e)

pick_next_task_lem :
    (s : Cpu) (i : ℕ)
    → Base s i
    → pick_next_task s.rq ≡ some (some (or_idle i (scan num_priorities 0 s.rq.o1.queues)))
unfolding pick_next_task
pick_next_task_lem s i b =
    rw (pick_next-scan s.rq.o1 s.tasks b.queue, pick_next_task)
      (by_find (scan num_priorities 0 s.rq.o1.queues))
  where
    by_find :
        (found : Option ℕ)
        → (elim found [ none ↦ some s.rq.idle | some t ↦ some (some t) ])
          ≡ some (some (or_idle i found))
    by_find none = ap some b.idle
    by_find (some t) = refl

Picked-class :
    (s : Cpu) (i next : ℕ)
    → Base s i
    → Picked s i next
    → (next ≡ i) ⊎ ((s.tasks next).sched_class ≡ SchedClass.o1)
Picked-class s i next b (inl e) = inl e
Picked-class s i next b (inr (p, m)) = inr (b.classes p next m)

switched_slices :
    (s : Cpu) (i next u : ℕ) → ((switched s i next).tasks u).time_slice ≡ (s.tasks u).time_slice
unfolding o1_dequeue_task
switched_slices s i next u = ground arith

switched-Switched :
    (s : Cpu) (i t : ℕ) (s1 : Cpu)
    → PutBack s i t s1
    → winner s i t ≡ or_idle i (scan num_priorities 0 s1.rq.o1.queues)
    → Chosen s1 i (winner s i t) (taken s1 i (winner s i t))
    → Switched s i t (switched s1 i (winner s i t))
switched-Switched s i t s1 put same_winner c =
    let next = winner s i t in
    let b = set_state-Base (taken s1 i next) i next TaskState.running c.base c.absent in
    record {
      current = refl;
      state = ground arith;
      queues = λ p. c.queues p ∙ ap (unlink next) (put.queues p);
      resched = refl;
      slices = λ u. switched_slices s1 i next u ∙ put.slices u;
      base = record {
        queue = b.queue;
        classes = b.classes;
        idle = b.idle;
        idle_class = b.idle_class;
        idle_absent = b.idle_absent;
      };
      next = record {
        current = refl;
        unqueued = λ _. c.absent;
        class = elim c.class [
          | inl (o1, fits) ↦ inl (ground (arith, o1), ground (arith, fits))
          | inr idle_task ↦ inr idle_task
        ];
      };
    }

schedule_current : (s : Cpu) (t : ℕ) → s.rq.current ≡ some t → schedule s ≡ schedule_from s t
unfolding schedule
schedule_current s t e = ground (arith, e)

schedule_after :
    (s : Cpu) (i t : ℕ)
    → Current s i t
    → (s1 : Cpu) × PutBack s i t s1
    → (s' : Cpu) × (schedule s ≡ some s') × Switched s i t s'
unfolding schedule_from
schedule_after s i t c (s1, put) =
    let b = put.base in
    let lists : s1.rq.o1.queues ≡ requeued s t = fun_ext put.queues in
    let same_winner : winner s i t ≡ or_idle i (scan num_priorities 0 s1.rq.o1.queues) =
      ap (λ q. or_idle i (scan num_priorities 0 q)) (sym lists) in
    let picked : Picked s1 i (winner s i t) =
      subst (Picked s1 i) (sym same_winner)
        (or_idle-Picked s1 i (scan num_priorities 0 s1.rq.o1.queues) refl) in
    (
      switched s1 i (winner s i t),
      schedule_current s t c.current
          ∙ rw (put.step, pick_next_task_lem s1 i b, ← same_winner)
              (switch_to_eq s1 i t (winner s i t) b.idle (put.current ∙ c.current) b.idle_class
                (Picked-class s1 i (winner s i t) b picked)),
      switched-Switched s i t s1 put same_winner (taken-Chosen s1 i (winner s i t) b picked),
    )

-- From a valid CPU `schedule` succeeds. A task that was running goes to the end of its list; then
-- the first task of the most urgent list runs, or the idle task if all lists are empty. It alone
-- leaves its list, the request to reschedule is cleared, all slices are as they were, and the CPU is
-- valid again.
pub schedule-Switched :
    (s : Cpu) (i t : ℕ)
    → Base s i
    → Current s i t
    → (s' : Cpu) × (schedule s ≡ some s') × Switched s i t s'
schedule-Switched s i t b c = schedule_after s i t c (put_back_lem s i t b c)

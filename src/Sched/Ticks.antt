-- ===== src/Sched/Ticks.antt =====
-- Time slices: `priority_to_timeslice` and `o1_task_tick` of na/kernel/sched_class_o1.cc, with
-- `sched_tick` and `sched_yield` of na/kernel/sched_core.cc.
use lume.Common.{
  update, ℕ, zero, suc, ◌-◌, ◌≤◌, ◌<◌, ◌≡◌, ◌≢◌, refl, ap, ◌∙◌, true, Option, some, arith, inl, inr,
}
use lume.Sched.{SchedClass, Cpu, priority_to_timeslice, o1_task_tick, o1_yield_task}
use lume.Sched.Core.{sched_tick, request_yield, sched_yield, ◌>>=◌}
use lume.Sched.PutBack.{Base, Current}
use lume.Sched.Schedule.{Switched, schedule-Switched}

-- The most urgent priority, 0, has a slice of 20 ticks and the least urgent, 31, one of a tick; from one
-- priority to the next the slice is the same or a tick shorter, and among the 32 it is never below 1.
pub timeslice_bounds :
    (priority_to_timeslice 0 ≡ 20)
    × (priority_to_timeslice 31 ≡ 1)
    × ((p : ℕ)
        → p < 31
        → (priority_to_timeslice (suc p) ≤ priority_to_timeslice p)
          × (priority_to_timeslice p ≤ suc (priority_to_timeslice (suc p)))
          × (1 ≤ priority_to_timeslice p))
unfolding priority_to_timeslice
timeslice_bounds = (refl, refl, λ p h. ground arith)

-- A chain of k ticks.
unfoldable pub ticks : ℕ → Cpu → Option Cpu
ticks zero s = some s
ticks (suc k) s = sched_tick s >>= λ s'. ticks k s'

-- The task of the O(1) class that runs on the CPU, other than the idle task.
pub record Runs (s : Cpu) (i t : ℕ) : Type 0 where
  pub current : s.rq.current ≡ some t
  pub idle : s.rq.idle ≡ some i
  pub other : t ≢ i
  pub class : (s.tasks t).sched_class ≡ SchedClass.o1

tick_eq : (s : Cpu) (i t : ℕ) → Runs s i t → sched_tick s ≡ some (o1_task_tick s t)
unfolding sched_tick
tick_eq s i t r = ground (arith, r.current, r.class)

record Ticked (s : Cpu) (i t : ℕ) (s' : Cpu) : Type 0 where
  runs : Runs s' i t
  slice : (s'.tasks t).time_slice ≡ (s.tasks t).time_slice - 1
  quiet : s'.rq.need_resched ≡ s.rq.need_resched
  priority : (s'.tasks t).priority ≡ (s.tasks t).priority

tick_within :
    (s : Cpu) (i t : ℕ) → Runs s i t → 1 < (s.tasks t).time_slice → Ticked s i t (o1_task_tick s t)
unfolding o1_task_tick
tick_within s i t r left = record {
  runs = record {
    current = ground (arith, r.current, r.idle, r.other);
    idle = ground (arith, r.current, r.idle, r.other);
    other = r.other;
    class = ground (arith, r.class, r.idle, r.other);
  };
  slice = ground (arith, r.idle, r.other);
  quiet = ground (arith, r.idle, r.other);
  priority = ground (arith, r.idle, r.other);
}

pub record Expired (s s' : Cpu) (t : ℕ) : Type 0 where
  pub resched : s'.rq.need_resched ≡ true
  pub refilled : (s'.tasks t).time_slice ≡ priority_to_timeslice (s.tasks t).priority

tick_last :
    (s : Cpu) (i t : ℕ) → Runs s i t → (s.tasks t).time_slice ≤ 1 → Expired s (o1_task_tick s t) t
unfolding o1_task_tick
tick_last s i t r left = record {
  resched = ground (arith, r.idle, r.other);
  refilled = ground (arith, r.idle, r.other);
}

ticks-suc : (k : ℕ) (s : Cpu) (i t : ℕ) → Runs s i t → ticks (suc k) s ≡ ticks k (o1_task_tick s t)
unfolding ticks
ticks-suc k s i t r = rw (tick_eq s i t r)

early :
    (k : ℕ) (s : Cpu) (i t : ℕ)
    → Runs s i t
    → k < (s.tasks t).time_slice
    → (s' : Cpu) × (ticks k s ≡ some s') × (s'.rq.need_resched ≡ s.rq.need_resched)
unfolding ticks
early zero s i t r left = (s, refl, refl)
early (suc k) s i t r left =
    let one = tick_within s i t r (omega arith) in
    let (s', e, quiet) = early k (o1_task_tick s t) i t one.runs (omega (arith, one.slice)) in
    (s', ticks-suc k s i t r ∙ e, quiet ∙ one.quiet)

last_tick :
    (k : ℕ) (s : Cpu) (i t : ℕ)
    → Runs s i t
    → (s.tasks t).time_slice ≡ suc k
    → (s' : Cpu) × (ticks (suc k) s ≡ some s') × Expired s s' t
unfolding ticks
last_tick zero s i t r e =
    (o1_task_tick s t, ticks-suc zero s i t r, tick_last s i t r (omega arith))
last_tick (suc k) s i t r e =
    let one = tick_within s i t r (omega arith) in
    let (s', run, x) = last_tick k (o1_task_tick s t) i t one.runs (omega (arith, one.slice)) in
    (
      s',
      ticks-suc (suc k) s i t r ∙ run,
      record { resched = x.resched; refilled = x.refilled ∙ ap priority_to_timeslice one.priority },
    )

-- A task that runs on with a slice of n + 1 ticks is left alone for n ticks; the next asks for a
-- reschedule and gives it a full slice of its priority.
pub slice_expires :
    (n : ℕ) (s : Cpu) (i t : ℕ)
    → Runs s i t
    → (s.tasks t).time_slice ≡ suc n
    → ((k : ℕ)
        → k ≤ n
        → (s' : Cpu) × (ticks k s ≡ some s') × (s'.rq.need_resched ≡ s.rq.need_resched))
      × ((s' : Cpu) × (ticks (suc n) s ≡ some s') × Expired s s' t)
slice_expires n s i t r e = (λ k h. early k s i t r (omega arith), last_tick n s i t r e)

-- The CPU after a task has given up its slice.
abbrev pub yielded : Cpu → ℕ → Cpu
yielded s t = record {
  rq = record (s.rq) { need_resched = true };
  tasks = update s.tasks t (record (s.tasks t) { time_slice = 0 });
}

yielded-Base : (s : Cpu) (i t : ℕ) → Base s i → Base (yielded s t) i
yielded-Base s i t b = record {
  queue = record {
    word = b.queue.word;
    bits = b.queue.bits;
    distinct = b.queue.distinct;
    range = b.queue.range;
    level = λ p u m. ground (arith, b.queue.level p u m);
    ready = λ p u m. ground (arith, b.queue.ready p u m);
  };
  classes = λ p u m. ground (arith, b.classes p u m);
  idle = b.idle;
  idle_class = ground (arith, b.idle_class);
  idle_absent = b.idle_absent;
}

yielded-Current : (s : Cpu) (i t : ℕ) → Current s i t → Current (yielded s t) i t
yielded-Current s i t c = record {
  current = c.current;
  unqueued = λ e. c.unqueued (ground (arith, e));
  class = elim c.class [
    | inl (o1, fits) ↦ inl (ground (arith, o1), ground (arith, fits))
    | inr idle_task ↦ inr idle_task
  ];
}

request_yield_eq : (s : Cpu) (i t : ℕ) → Runs s i t → request_yield s ≡ some (yielded s t)
unfolding request_yield o1_yield_task
request_yield_eq s i t r = ground (arith, r.current, r.class, r.idle, r.other)

-- `sched_yield` by a task of the O(1) class succeeds: afterwards the task has no slice left and those of
-- the others are as they were, it stands behind the other tasks of its priority if it was running and
-- does not win again, and the CPU is valid.
pub sched_yield-Switched :
    (s : Cpu) (i t : ℕ)
    → Base s i
    → Current s i t
    → Runs s i t
    → (s' : Cpu) × (sched_yield s ≡ some s')
      × Switched (yielded s t) i t s'
      × ((s'.tasks t).time_slice ≡ 0)
unfolding sched_yield
sched_yield-Switched s i t b c r =
    let after =
      schedule-Switched (yielded s t) i t (yielded-Base s i t b) (yielded-Current s i t c) in
    (after.0, rw (request_yield_eq s i t r) after.1, after.2, after.2.slices t ∙ ground arith)

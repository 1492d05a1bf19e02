-- ===== src/Sched/PutBack.antt =====
-- The first half of `schedule` of na/kernel/sched_core.cc: the task that gives up the CPU.
use lume.Common.{
  mem, mem-snoc, ℕ, ◌<◌, ◌≡◌, refl, sym, ◌∙◌, subst, Bool, true, false, List, [], ◌∷◌, ◌++◌, some,
  ◌==◌, ◌&&◌, if◌then◌else◌, arith, Bool-cases, inl, inr, ◌⊎◌,
}
use lume.Sched.{
  TaskState, SchedClass, Cpu, enqueue, enqueue_task, put_prev_task, o1_enqueue_task, num_priorities,
}
use lume.Sched.Core.{set_state, is_running, put_back}
use lume.Sched.Queue.{IsValid, Absent, enqueue-IsValid}

-- The queue is valid and holds tasks of the O(1) class; the idle task is of its own class and never
-- queued.
pub record Base (s : Cpu) (i : ℕ) : Type 0 where
  pub queue : IsValid s.rq.o1 s.tasks
  pub classes :
      (p t : ℕ) → mem t (s.rq.o1.queues p) ≡ true → (s.tasks t).sched_class ≡ SchedClass.o1
  pub idle : s.rq.idle ≡ some i
  pub idle_class : (s.tasks i).sched_class ≡ SchedClass.idle
  pub idle_absent : Absent i s.rq.o1

-- The state of a task that is in no list may change.
pub set_state-Base :
    (s : Cpu) (i t : ℕ) (state : TaskState)
    → Base s i
    → Absent t s.rq.o1
    → Base (set_state s t state) i
set_state-Base s i t state b absent = record {
  queue = record {
    word = b.queue.word;
    bits = b.queue.bits;
    distinct = b.queue.distinct;
    range = b.queue.range;
    level = λ p u m. ground (arith, b.queue.level p u m, absent p);
    ready = λ p u m. ground (arith, b.queue.ready p u m, absent p);
  };
  classes = λ p u m. ground (arith, b.classes p u m, absent p);
  idle = b.idle;
  idle_class = ground (arith, b.idle_class);
  idle_absent = b.idle_absent;
}

abbrev is_o1 : SchedClass → Bool
is_o1 SchedClass.o1 = true
is_o1 _ = false

-- The lists once the task that gives up the CPU is back: a running one stands last in its list.
abbrev pub requeued : Cpu → ℕ → ℕ → List ℕ
requeued s t p =
    if is_running (s.tasks t).state && (is_o1 (s.tasks t).sched_class && p == (s.tasks t).priority)
    then s.rq.o1.queues p ++ (t ∷ [])
    else s.rq.o1.queues p

pub o1_enqueue-Base :
    (s : Cpu) (i t : ℕ)
    → Base s i
    → Absent t s.rq.o1
    → (s.tasks t).priority < num_priorities
    → (s.tasks t).sched_class ≡ SchedClass.o1
    → Base (o1_enqueue_task s t) i
unfolding o1_enqueue_task enqueue
o1_enqueue-Base s i t b absent fits c = record {
  queue = enqueue-IsValid s.rq.o1 s.tasks t b.queue fits absent;
  classes =
      λ p u m. ground (arith, b.classes p u, c, mem-snoc u t (s.rq.o1.queues (s.tasks t).priority));
  idle = b.idle;
  idle_class = ground (arith, b.idle_class);
  idle_absent = λ p.
      ground (
        arith,
        b.idle_absent p,
        c,
        b.idle_class,
        mem-snoc i t (s.rq.o1.queues (s.tasks t).priority),
      );
}

pub o1_enqueue_queues :
    (s : Cpu) (t p : ℕ)
    → (o1_enqueue_task s t).rq.o1.queues p ≡ (
        if p == (s.tasks t).priority
        then s.rq.o1.queues (s.tasks t).priority ++ (t ∷ [])
        else s.rq.o1.queues p)
unfolding o1_enqueue_task enqueue
o1_enqueue_queues s t p = refl

o1_enqueue_class :
    (s : Cpu) (t u : ℕ) → ((o1_enqueue_task s t).tasks u).sched_class ≡ (s.tasks u).sched_class
unfolding o1_enqueue_task enqueue
o1_enqueue_class s t u = ground arith

o1_enqueue_slices :
    (s : Cpu) (t u : ℕ) → ((o1_enqueue_task s t).tasks u).time_slice ≡ (s.tasks u).time_slice
unfolding o1_enqueue_task enqueue
o1_enqueue_slices s t u = ground arith

o1_enqueue_current : (s : Cpu) (t : ℕ) → (o1_enqueue_task s t).rq.current ≡ s.rq.current
unfolding o1_enqueue_task enqueue
o1_enqueue_current s t = refl

-- The task that runs, or has just gone to sleep, on this CPU.
pub record Current (s : Cpu) (i t : ℕ) : Type 0 where
  pub current : s.rq.current ≡ some t
  pub unqueued : (s.tasks t).state ≡ TaskState.running → Absent t s.rq.o1
  pub class :
      (((s.tasks t).sched_class ≡ SchedClass.o1) × ((s.tasks t).priority < num_priorities))
      ⊎ (t ≡ i)

pub record PutBack (s : Cpu) (i t : ℕ) (s' : Cpu) : Type 0 where
  pub step : put_back s t ≡ some s'
  pub current : s'.rq.current ≡ s.rq.current
  pub base : Base s' i
  pub queues : (p : ℕ) → s'.rq.o1.queues p ≡ requeued s t p
  pub class : (s'.tasks t).sched_class ≡ (s.tasks t).sched_class
  pub slices : (u : ℕ) → (s'.tasks u).time_slice ≡ (s.tasks u).time_slice

running_state : (state : TaskState) → is_running state ≡ true → state ≡ TaskState.running
running_state TaskState.running e = refl
running_state TaskState.runnable e = cc
running_state TaskState.sleeping e = cc
running_state TaskState.zombie e = cc
running_state TaskState.dead e = cc

PutBack-o1 :
    (s : Cpu) (i t : ℕ)
    → Base s i
    → Current s i t
    → (s.tasks t).sched_class ≡ SchedClass.o1
    → (s.tasks t).priority < num_priorities
    → (s' : Cpu) × PutBack s i t s'
unfolding put_back enqueue_task put_prev_task
PutBack-o1 s i t b c o1 fits = elim (Bool-cases (is_running (s.tasks t).state)) [
  | inl running ↦
      let absent = c.unqueued (running_state (s.tasks t).state running) in
      let ready = set_state s t TaskState.runnable in
      (
        o1_enqueue_task ready t,
        record {
          step = ground (arith, o1, running);
          current = o1_enqueue_current ready t;
          base =
              o1_enqueue-Base ready i t (set_state-Base s i t TaskState.runnable b absent) absent
                (ground (arith, fits)) (ground (arith, o1));
          queues = λ p. ground (arith, o1, running, o1_enqueue_queues ready t p);
          class = o1_enqueue_class ready t t ∙ ground arith;
          slices = λ u. o1_enqueue_slices ready t u ∙ ground arith;
        },
      )
  | inr left ↦ (
    s,
    record {
      step = ground (arith, o1, left);
      current = refl;
      base = b;
      queues = λ p. ground (arith, left);
      class = refl;
      slices = λ u. refl;
    },
  )
]

PutBack-idle : (s : Cpu) (i : ℕ) → Base s i → (s' : Cpu) × PutBack s i i s'
unfolding put_back enqueue_task put_prev_task
PutBack-idle s i b = elim (Bool-cases (is_running (s.tasks i).state)) [
  | inl running ↦ (
    set_state s i TaskState.runnable,
    record {
      step = ground (arith, b.idle_class, running);
      current = refl;
      base = set_state-Base s i i TaskState.runnable b b.idle_absent;
      queues = λ p. ground (arith, b.idle_class);
      class = ground arith;
      slices = λ u. ground arith;
    },
  )
  | inr left ↦ (
    s,
    record {
      step = ground (arith, b.idle_class, left);
      current = refl;
      base = b;
      queues = λ p. ground (arith, b.idle_class);
      class = refl;
      slices = λ u. refl;
    },
  )
]

pub put_back_lem : (s : Cpu) (i t : ℕ) → Base s i → Current s i t → (s' : Cpu) × PutBack s i t s'
put_back_lem s i t b c = elim c.class [
  | inl (o1, fits) ↦ PutBack-o1 s i t b c o1 fits
  | inr same_task ↦ subst (λ u. (s' : Cpu) × PutBack s i u s') (sym same_task) (PutBack-idle s i b)
]

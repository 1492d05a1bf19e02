-- ===== src/Sched.antt =====
-- na/kernel/sched_internal.h, sched_class_o1.cc and sched_core.cc: the per-CPU run queue, the
-- O(1) class and the core. A task is a number that indexes a store; an intrusive circular list is
-- the list of its members, so that unlinking a node takes it out of whichever list holds it.
pub mod Core
pub mod Queue
pub mod Pick
pub mod PutBack
pub mod Switch
pub mod Schedule
pub mod Ticks
pub mod Wake
mod Tests
use lume.Common.{
  is_empty, unlink, update, ℕ, ◌+◌, ◌-◌, ◌*◌, ◌/◌, ◌%◌, ◌^◌, Bool, true, false, not, List, [], ◌∷◌,
  ◌++◌, Option, none, some, bit_and, bit_or, ◌==◌, leb, ltb, ◌&&◌, if◌then◌else◌,
}
use lume.Bitops.{ctz32}

pub data TaskState : Type 0 where
  runnable running sleeping zombie dead : TaskState

-- The two scheduling classes; `unset` is a null pointer.
pub data SchedClass : Type 0 where
  unset o1 idle : SchedClass

pub record Task : Type 0 where
  pub state : TaskState
  pub priority : ℕ
  pub time_slice : ℕ
  pub sched_class : SchedClass

abbrev pub num_priorities : ℕ
num_priorities = 32

pub record O1RunQueue : Type 0 where
  pub bitmap : ℕ
  pub queues : ℕ → List ℕ
  pub nr_running : ℕ

abbrev pub Tasks : Type 0
Tasks = ℕ → Task

unfoldable pub init : O1RunQueue
init = record { bitmap = 0; queues = λ _. []; nr_running = 0 }

-- Appends to the list of the task's priority and sets that bit; the task becomes runnable.
unfoldable pub enqueue : O1RunQueue → Tasks → ℕ → O1RunQueue × Tasks
enqueue q tasks t =
    let prio = (tasks t).priority in
    (
      record {
        bitmap = bit_or q.bitmap (2 ^ prio);
        queues = update q.queues prio (q.queues prio ++ (t ∷ []));
        nr_running = (q.nr_running + 1) % 2 ^ 32;
      },
      update tasks t (record (tasks t) { state = TaskState.runnable }),
    )

unfoldable pub dequeue : O1RunQueue → Tasks → ℕ → O1RunQueue
dequeue q tasks t =
    let prio = (tasks t).priority in
    let queues : ℕ → List ℕ = λ p. unlink t (q.queues p) in
    record {
      bitmap =
          if is_empty (queues prio) then bit_and q.bitmap (2 ^ 32 - 1 - 2 ^ prio) else q.bitmap;
      queues = queues;
      nr_running = if ltb 0 q.nr_running then q.nr_running - 1 else q.nr_running;
    }

-- The outer option is `none` where `list_entry` would be taken of an empty list's head; the inner
-- one is the pointer.
unfoldable pub front : List ℕ → Option (Option ℕ)
front [] = none
front (t ∷ _) = some (some t)

unfoldable pub pick_next : O1RunQueue → Option (Option ℕ)
pick_next q = if q.bitmap == 0 then some none else front (q.queues (ctz32 q.bitmap))

-- Time left after the integer division; below 0 the subtraction gives 0, which is raised to 1.
unfoldable pub priority_to_timeslice : ℕ → ℕ
priority_to_timeslice priority = let ts = 20 - priority * 19 / 31 in if ltb ts 1 then 1 else ts

pub record RunQueue : Type 0 where
  pub nr_running : ℕ
  pub need_resched : Bool
  pub current : Option ℕ
  pub idle : Option ℕ
  pub o1 : O1RunQueue

-- One CPU with the store of tasks. Critical sections under the run queue's lock are single steps.
pub record Cpu : Type 0 where
  pub rq : RunQueue
  pub tasks : Tasks

unfoldable pub o1_enqueue_task : Cpu → ℕ → Cpu
o1_enqueue_task s t =
    let (q, tasks) = enqueue s.rq.o1 s.tasks t in
    record {
      rq = record (s.rq) { o1 = q; nr_running = (s.rq.nr_running + 1) % 2 ^ 32 };
      tasks = tasks;
    }

unfoldable pub o1_dequeue_task : Cpu → ℕ → Cpu
o1_dequeue_task s t = record s {
  rq = record (s.rq) {
    o1 = dequeue s.rq.o1 s.tasks t;
    nr_running = if ltb 0 s.rq.nr_running then s.rq.nr_running - 1 else s.rq.nr_running;
  };
}

abbrev pub same : ℕ → Option ℕ → Bool
same t none = false
same t (some u) = t == u

-- `curr->time_slice--` and the test `<= 0`: from 0 the decrement gives -1, which is replaced too.
unfoldable pub o1_task_tick : Cpu → ℕ → Cpu
o1_task_tick s t =
    let task = s.tasks t in
    if same t s.rq.idle
    then s
    else (if leb (task.time_slice - 1) 0
        then record {
          rq = record (s.rq) { need_resched = true };
          tasks =
              update s.tasks t (record task { time_slice = priority_to_timeslice task.priority });
        }
        else record s {
          tasks = update s.tasks t (record task { time_slice = task.time_slice - 1 });
        })

unfoldable pub o1_yield_task : Cpu → ℕ → Cpu
o1_yield_task s t = if same t s.rq.idle then s else record {
  rq = record (s.rq) { need_resched = true };
  tasks = update s.tasks t (record (s.tasks t) { time_slice = 0 });
}

-- Calls through `task->sched_class`; the idle class does nothing, and `none` is a null dereference.
abbrev pub dispatch : SchedClass → Cpu → Cpu → Option Cpu
dispatch SchedClass.unset by_o1 by_idle = none
dispatch SchedClass.o1 by_o1 by_idle = some by_o1
dispatch SchedClass.idle by_o1 by_idle = some by_idle

unfoldable pub enqueue_task : Cpu → ℕ → Option Cpu
enqueue_task s t = dispatch (s.tasks t).sched_class (o1_enqueue_task s t) s

unfoldable pub dequeue_task : Cpu → ℕ → Option Cpu
dequeue_task s t = dispatch (s.tasks t).sched_class (o1_dequeue_task s t) s

unfoldable pub put_prev_task : Cpu → ℕ → Option Cpu
put_prev_task s t = dispatch (s.tasks t).sched_class s s

-- The chain of classes: o1, then idle, which gives the idle task.
unfoldable pub pick_next_task : RunQueue → Option (Option ℕ)
pick_next_task rq = elim (pick_next rq.o1) [
  | none ↦ none
  | some picked ↦ elim picked [ none ↦ some rq.idle | some t ↦ some (some t) ]
]

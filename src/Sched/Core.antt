-- ===== src/Sched/Core.antt =====
-- na/kernel/sched_core.cc: `schedule`, the tick, the yield and the preemption check, on one CPU.
-- `none` is the dereference of a null pointer. What runs after the context switch is the next task,
-- in the state that is returned.
use lume.Common.{update, ℕ, ◌==◌, Bool, true, false, Option, none, some, if◌then◌else◌}
use lume.Sched.{
  TaskState, SchedClass, Task, Cpu, same, enqueue_task, dequeue_task, put_prev_task, pick_next_task,
  o1_task_tick, o1_yield_task, dispatch,
}

infixl 5 ◌>>=◌
abbrev pub ◌>>=◌ {ℓ κ} : {A : Type ℓ} {B : Type κ} → Option A → (A → Option B) → Option B
none >>= f = none
some a >>= f = f a

abbrev pub set_state : Cpu → ℕ → TaskState → Cpu
set_state s t state = record s { tasks = update s.tasks t (record (s.tasks t) { state = state }) }

abbrev pub is_running : TaskState → Bool
is_running TaskState.running = true
is_running _ = false

-- The task that gives up the CPU: runnable again and queued, or left to its class.
unfoldable pub put_back : Cpu → ℕ → Option Cpu
put_back s prev =
    if is_running (s.tasks prev).state
    then enqueue_task (set_state s prev TaskState.runnable) prev
    else put_prev_task s prev

-- `next` becomes the current task of the CPU.
unfoldable pub switch_to : Cpu → ℕ → ℕ → Option Cpu
switch_to s prev next =
    if prev == next
    then (do
      s ← dequeue_task (set_state s next TaskState.running) next
      some (record s { rq = record (s.rq) { need_resched = false } }))
    else (do
      s ← (if same next s.rq.idle then some s else dequeue_task s next)
      let s = set_state s next TaskState.running
      some (record s { rq = record (s.rq) { current = some next; need_resched = false } }))

-- `schedule` where the CPU has a previous task.
unfoldable pub schedule_from : Cpu → ℕ → Option Cpu
schedule_from s prev = do
  s ← put_back s prev
  picked ← pick_next_task s.rq
  next ← picked
  switch_to s prev next

-- With no previous task the context switch would save through a null pointer.
unfoldable pub schedule : Cpu → Option Cpu
schedule s = elim s.rq.current [ none ↦ none | some prev ↦ schedule_from s prev ]

unfoldable pub sched_tick : Cpu → Option Cpu
sched_tick s = elim s.rq.current [
  | none ↦ some s
  | some curr ↦ dispatch (s.tasks curr).sched_class (o1_task_tick s curr) s
]

unfoldable pub sched_check_preempt : Cpu → Option Cpu
sched_check_preempt s = let switched = schedule s in if s.rq.need_resched then switched else some s

-- The flag is set once more after the class has had its turn.
unfoldable pub request_yield : Cpu → Option Cpu
request_yield s = elim s.rq.current [
  | none ↦ some s
  | some curr ↦ if same curr s.rq.idle then some s else (do
    s ← dispatch (s.tasks curr).sched_class (o1_yield_task s curr) s
    some (record s { rq = record (s.rq) { need_resched = true } }))
]

unfoldable pub sched_yield : Cpu → Option Cpu
sched_yield s = do s ← request_yield s; schedule s

-- A task without a class gets the O(1) class.
abbrev pub with_class : SchedClass → SchedClass
with_class SchedClass.unset = SchedClass.o1
with_class c = c

-- `sched_enqueue` and `sched_dequeue`, in the state of the CPU that the task is pinned to.
unfoldable pub sched_enqueue : Cpu → ℕ → Option Cpu
sched_enqueue s t =
    let task = s.tasks t in
    let named : Task = record task { sched_class = with_class task.sched_class } in
    enqueue_task (record s { tasks = update s.tasks t named }) t

unfoldable pub sched_dequeue : Cpu → ℕ → Option Cpu
sched_dequeue s t =
    let task = s.tasks t in
    let named : Task = record task { sched_class = with_class task.sched_class } in
    dequeue_task (record s { tasks = update s.tasks t named }) t

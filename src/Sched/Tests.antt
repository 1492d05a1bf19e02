-- ===== src/Sched/Tests.antt =====
-- Runs of na/kernel/sched_core.cc and its theorems on a CPU with three tasks.
use lume.Common.{mem, ℕ, ◌≤◌, ◌≡◌, refl, true, [], ◌∷◌, some, if◌then◌else◌, ◌==◌, arith, inl}
use lume.Sched.{
  TaskState, SchedClass, Task, O1RunQueue, Cpu, enqueue, init, num_priorities, pick_next,
}
use lume.Sched.Core.{schedule, sched_yield, sched_enqueue, sched_dequeue}
use lume.Sched.Wake.{Woken, Removed, sched_enqueue-Woken, sched_dequeue-Removed}
use lume.Sched.Queue.{IsValid, init-IsValid, init-Absent, enqueue-IsValid}
use lume.Sched.Pick.{scan, pick_next-scan}
use lume.Sched.PutBack.{Base, Current}
use lume.Sched.Schedule.{Switched, schedule-Switched, winner}
use lume.Sched.Ticks.{slice_expires, sched_yield-Switched, Runs, ticks, Expired, yielded}

-- Task 0 is the idle task, task 1 runs with a slice of 3 ticks, task 2 waits.
abbrev task_of : ℕ → Task
task_of t = record {
  state = if t == 1 then TaskState.running else TaskState.runnable;
  priority = if t == 0 then 31 else 4;
  time_slice = 3;
  sched_class = if t == 0 then SchedClass.idle else SchedClass.o1;
}

abbrev waiting : O1RunQueue
waiting = (enqueue init task_of 2).0

abbrev cpu : Cpu
cpu = record {
  rq = record {
    nr_running = 1;
    need_resched = true;
    current = some 1;
    idle = some 0;
    o1 = waiting;
  };
  tasks = (enqueue init task_of 2).1;
}

waiting_list : (p : ℕ) → waiting.queues p ≡ (if p == 4 then 2 ∷ [] else [])
unfolding enqueue init
waiting_list p = ground arith

waiting_mem : (p t : ℕ) → mem t (waiting.queues p) ≡ true → (t ≡ 2)
waiting_mem p t m = ground (arith, waiting_list p)

waiting-IsValid : IsValid waiting cpu.tasks
waiting-IsValid =
    enqueue-IsValid init task_of 2 (init-IsValid task_of) (omega arith) (init-Absent 2)

cpu-Base : Base cpu 0
unfolding enqueue
cpu-Base = record {
  queue = waiting-IsValid;
  classes = λ p t m. ground (arith, waiting_mem p t m);
  idle = refl;
  idle_class = refl;
  idle_absent = λ p. ground (arith, waiting_list p);
}

cpu-Current : Current cpu 0 1
unfolding enqueue
cpu-Current = record {
  current = refl;
  unqueued = λ _ p. ground (arith, waiting_list p);
  class = inl (refl, omega arith);
}

cpu-Runs : Runs cpu 0 1
unfolding enqueue
cpu-Runs = record { current = refl; idle = refl; other = λ e. omega arith; class = refl }

pick_next-scan_example : pick_next waiting ≡ some (scan num_priorities 0 waiting.queues)
pick_next-scan_example = pick_next-scan waiting cpu.tasks waiting-IsValid

schedule-Switched_example : (s' : Cpu) × (schedule cpu ≡ some s') × Switched cpu 0 1 s'
schedule-Switched_example = schedule-Switched cpu 0 1 cpu-Base cpu-Current

-- The waiting task wins over the one that has run.
waiting_wins : winner cpu 0 1 ≡ 2
unfolding enqueue init
waiting_wins = refl

slice_expires_example :
    ((k : ℕ)
      → k ≤ 2
      → (s' : Cpu) × (ticks k cpu ≡ some s') × (s'.rq.need_resched ≡ cpu.rq.need_resched))
    × ((s' : Cpu) × (ticks 3 cpu ≡ some s') × Expired cpu s' 1)
unfolding enqueue
slice_expires_example = slice_expires 2 cpu 0 1 cpu-Runs refl

sched_yield-Switched_example :
    (s' : Cpu) × (sched_yield cpu ≡ some s')
    × Switched (yielded cpu 1) 0 1 s'
    × ((s'.tasks 1).time_slice ≡ 0)
sched_yield-Switched_example = sched_yield-Switched cpu 0 1 cpu-Base cpu-Current cpu-Runs

-- Task 3 is woken, and task 2 taken out.
sched_enqueue-Woken_example : (s' : Cpu) × (sched_enqueue cpu 3 ≡ some s') × Woken cpu 0 3 s'
unfolding enqueue
sched_enqueue-Woken_example =
    sched_enqueue-Woken cpu 0 3 cpu-Base (inl refl) (λ p. ground (arith, waiting_list p))
      (omega arith)

sched_dequeue-Removed_example : (s' : Cpu) × (sched_dequeue cpu 2 ≡ some s') × Removed cpu 0 2 s'
unfolding enqueue
sched_dequeue-Removed_example = sched_dequeue-Removed cpu 0 2 cpu-Base (inl refl) (omega arith)

-- ===== src/Pid/Tests.antt =====
-- Runs of na/kernel/pid.cc and its theorems.
use lume.Common.{ℕ, ◌≤◌, ◌<◌, ◌≡◌, refl, pos, negsuc}
use lume.Pid.{max_pid, init, trailing_zeros, take, scan_words, alloc, free}
use lume.Pid.Alloc.{Answers, alloc-Answers}
use lume.Pid.Free.{init-IsValid, Freed, free-Freed}

alloc_runs :
    ((alloc init).0 ≡ pos 2)
    × ((alloc (alloc init).1).0 ≡ pos 3)
    × ((alloc (free (alloc (alloc init).1).1 (pos 2))).0 ≡ pos 2)
unfolding alloc scan_words take trailing_zeros init free
alloc_runs = (refl, refl, refl)

alloc-Answers_example : Answers init (alloc init)
alloc-Answers_example = alloc-Answers init init-IsValid

free-Freed_example :
    ((pid : ℕ) → pid < max_pid → Freed init pid (free init (pos pid)))
    × ((pid : ℕ) → max_pid ≤ pid → free init (pos pid) ≡ init)
    × ((n : ℕ) → free init (negsuc n) ≡ init)
free-Freed_example = free-Freed init init-IsValid

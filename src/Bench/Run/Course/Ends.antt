-- ===== src/Bench/Run/Course/Ends.antt =====
-- Lists of tasks that end.
use pulsemq_cli.Base.{ℕ, zero, suc, true, List, [], ◌∷◌, length, ◌≡◌, refl, ap, arith}
use pulsemq_cli.Bench.Config.{Joined}
use pulsemq_cli.Bench.Run.Course.{Task, running, ended, spawned, end_task, all_ended}

pub length-spawned : (n : ℕ) → length (spawned n) ≡ n
length-spawned zero = refl
length-spawned (suc n) = omega (arith, length-spawned n)

pub length-end_task :
    (i : ℕ) (j : Joined) (tasks : List Task) → length (end_task i j tasks) ≡ length tasks
unfolding end_task
length-end_task i j [] = refl
length-end_task zero j (running ∷ tasks) = refl
length-end_task zero j (ended k ∷ tasks) = refl
length-end_task (suc i) j (task ∷ tasks) = omega (arith, length-end_task i j tasks)

-- A task that has ended stays so.
pub end_task_ended :
    (i : ℕ) (j : Joined) (tasks : List Task) → all_ended tasks ≡ true → end_task i j tasks ≡ tasks
unfolding end_task
end_task_ended i j [] h = refl
end_task_ended zero j (running ∷ tasks) h = absurd (ground arith)
end_task_ended zero j (ended k ∷ tasks) h = refl
end_task_ended (suc i) j (running ∷ tasks) h = absurd (ground arith)
end_task_ended (suc i) j (ended k ∷ tasks) h = ap (◌∷◌ (ended k)) (end_task_ended i j tasks h)

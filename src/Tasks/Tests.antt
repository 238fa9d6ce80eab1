-- ===== src/Tasks/Tests.antt =====
-- A table with one task, which forks, and one with a dead task.
use razos.Base.{ℕ, ◌≡◌, refl, arith, true, List, Option, get_or, [], ◌∷◌, none, some, replicate}
use razos.Tasks.Death.{task_kill, sys_wait, reaps}
use razos.Tasks.Queue.{Queue, at}
use razos.Tasks.Kill.{task_kill_lem}
use razos.Tasks.Wait.{sys_wait_lem}
use razos.Tasks.{Task, TaskTable, returns, empty_task, task_fork_inner, sched_next}
use razos.Tasks.Schedule.{NextReady, sched_next_lem}
use razos.Tasks.Fork.{LeastFree, task_fork_lem}

abbrev init_task : Task
init_task = empty_task [] 1

abbrev one_task : TaskTable
one_task = record {
  tasks = none ∷ some init_task ∷ replicate 254 none;
  cur_task = 1;
  clones = [];
  heap = true ∷ [];
}

sched_next_example : NextReady one_task.tasks 1 one_task (sched_next one_task)
sched_next_example = sched_next_lem one_task init_task (omega arith) refl refl

task_fork_example :
    (pid : ℕ) × (t' : TaskTable) × (task_fork_inner [] one_task ≡ returns pid t')
    × LeastFree one_task.tasks 1 pid
task_fork_example =
    let (pid, t', run, least, _, _, _, _) =
      task_fork_lem [] one_task init_task [] 2 refl (omega arith) refl refl (omega arith)
        (omega arith) refl in
    (pid, t', run, least)

-- Task 1 with two children, of which 2 is dead and 3 runs.
abbrev family : List (Option Task)
family =
    none
    ∷ some (record init_task { children = 2; wait_queue = some 2; state = 2 })
    ∷ some (record (empty_task [] 2) { ppid = 1; state = 3; exit_status = 5 })
    ∷ some (record (empty_task [] 3) { ppid = 1 })
    ∷ []

family-Queue : Queue family 1 (2 ∷ [])
family-Queue = (refl, refl)

task_kill_example :
    (tasks' : List (Option Task)) × (task_kill 3 7 family ≡ some tasks')
    × Queue tasks' 1 (2 ∷ 3 ∷ [])
task_kill_example =
    let (tasks', run, queue, _, _, _, _) =
      task_kill_lem 3 7 2 family (record (empty_task [] 3) { ppid = 1 })
        (record init_task { children = 2; wait_queue = some 2; state = 2 }) (2 ∷ []) refl refl refl
        (omega arith) family-Queue (omega arith) (omega arith, (omega arith, tt)) (omega arith)
        (omega arith) in
    (tasks', run, queue)

sys_wait_example :
    (tasks' : List (Option Task)) × (sys_wait 1 family ≡ reaps 2 5 tasks')
    × Queue tasks' 1 []
    × (get_or tasks' 2 none ≡ none)
    × (at (λ t. t.children) 1 tasks' ≡ some 1)
sys_wait_example =
    sys_wait_lem 1 2 family (record init_task { children = 2; wait_queue = some 2; state = 2 })
      (record (empty_task [] 2) { ppid = 1; state = 3; exit_status = 5 }) [] refl (omega arith)
      family-Queue refl refl (omega arith)

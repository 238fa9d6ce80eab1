-- ===== src/Tasks/Death.antt =====
-- The end of tasks: `task_kill` and `task_destroy` of kernel/src/mm/task.c, and `sys_wait` of
-- kernel/src/syscall/sys_tasking.c. The memory of the address space that `task_destroy` frees is left out.
use razos.Base.{
  ℕ, zero, suc, ◌+◌, ◌==◌, if◌then◌else◌, List, [], ◌∷◌, Option, none, some, get_or, set, sub32,
}
use razos.Tasks.{Task, task_state_ready, get_task}
use mathlib.Core.Option

abbrev pub task_state_block_wait : ℕ
task_state_block_wait = 2

abbrev pub task_state_exiting : ℕ
task_state_exiting = 3

-- A store to the task that a pointer names.
unfoldable pub update : ℕ → (Task → Task) → List (Option Task) → List (Option Task)
update i f [] = []
update zero f (x ∷ tasks) = Option.map f x ∷ tasks
update (suc i) f (x ∷ tasks) = x ∷ update i f tasks

abbrev pub less_child : Task → Task
less_child task = record task { children = sub32 task.children 1 }

-- The parent of a dead task, which has to be there, counts a child less, and the table forgets the task.
abbrev pub forget : ℕ → ℕ → Option Task → List (Option Task) → Option (List (Option Task))
forget pid ppid none tasks = none
forget pid ppid (some parent) tasks = some (set (update ppid less_child tasks) pid none)

abbrev pub destroy : ℕ → Option Task → List (Option Task) → Option (List (Option Task))
destroy pid none tasks = none
destroy pid (some task) tasks = forget pid task.ppid (get_or tasks task.ppid none) tasks

-- `task_destroy(task)`: the table, or `none` for an access through NULL.
unfoldable pub task_destroy : ℕ → List (Option Task) → Option (List (Option Task))
task_destroy pid tasks = destroy pid (get_or tasks pid none) tasks

abbrev pub wait_queue_of : Option Task → Option ℕ
wait_queue_of none = none
wait_queue_of (some task) = task.wait_queue

-- The loop over the dead children. Each round takes a task out of the table, so 256 are enough.
unfoldable pub destroy_queue : ℕ → Option ℕ → List (Option Task) → Option (List (Option Task))
destroy_queue fuel none tasks = some tasks
destroy_queue zero (some child) tasks = none
destroy_queue (suc fuel) (some child) tasks = elim (task_destroy child tasks) [
  | none ↦ none
  | some tasks' ↦ destroy_queue fuel (wait_queue_of (get_or tasks child none)) tasks'
]

-- The parent of a task whose parent was `ppid`, when `pid` ends.
unfoldable pub new_parent : ℕ → ℕ → ℕ
new_parent pid ppid = if ppid == pid then 1 else ppid

abbrev pub adopt : ℕ → Task → Task
adopt pid task = record task { ppid = new_parent pid task.ppid }

-- The loop over the pids from `i` on, which gives the children of `pid` to task 1.
unfoldable pub reparent : ℕ → ℕ → ℕ → List (Option Task) → List (Option Task)
reparent zero i pid tasks = tasks
reparent (suc left) i pid tasks = reparent left (i + 1) pid (update i (adopt pid) tasks)

-- `while (queue->wait_queue) queue = queue->wait_queue`: the last task of the queue. It is `none` for an
-- access through a bad pointer, and for a queue that goes round.
unfoldable pub queue_end : ℕ → ℕ → List (Option Task) → Option ℕ
queue_end zero queue tasks = none
queue_end (suc fuel) queue tasks = elim (get_or tasks queue none) [
  | none ↦ none
  | some task ↦ elim task.wait_queue [ none ↦ some queue | some next ↦ queue_end fuel next tasks ]
]

unfoldable pub woken : ℕ → ℕ
woken state = if state == task_state_block_wait then task_state_ready else state

abbrev pub wake : Task → Task
wake task = record task { state = woken task.state }

-- The task is put at the end of the queue, the parent is woken, and the task is not scheduled any more.
abbrev pub enqueue : ℕ → ℕ → Option ℕ → List (Option Task) → Option (List (Option Task))
enqueue pid parent none tasks = none
enqueue pid parent (some last) tasks =
    let tasks = update last (λ task. record task { wait_queue = some pid }) tasks in
    let tasks = update pid (λ task. record task { wait_queue = none }) tasks in
    let tasks = update parent wake tasks in
    some (update pid (λ task. record task { state = task_state_exiting }) tasks)

-- `parent` is what `get_task` found.
abbrev pub join_queue :
    ℕ → ℕ → (parent : Option Task) → List (Option Task) → Option (List (Option Task))
join_queue pid ppid none tasks = none
join_queue pid ppid (some parent) tasks = enqueue pid ppid (queue_end 256 ppid tasks) tasks

-- The parent is looked up by `get_task` after the loops.
abbrev pub join_parent : ℕ → Option Task → List (Option Task) → Option (List (Option Task))
join_parent pid none tasks = none
join_parent pid (some task) tasks = join_queue pid task.ppid (get_task task.ppid tasks) tasks

abbrev pub end_task : ℕ → Option (List (Option Task)) → Option (List (Option Task))
end_task pid none = none
end_task pid (some tasks) =
    let tasks' = reparent 254 2 pid tasks in join_parent pid (get_or tasks' pid none) tasks'

abbrev pub with_status : ℕ → Task → Task
with_status status task = record task { exit_status = status }

-- `task_kill(task, status)` of a task that is in the table.
unfoldable pub task_kill : ℕ → ℕ → List (Option Task) → Option (List (Option Task))
task_kill pid status tasks =
    let tasks' = update pid (with_status status) tasks in
    end_task pid (destroy_queue 256 (wait_queue_of (get_or tasks' pid none)) tasks')

-- `sys_wait` returns the pid and the status of a dead child (which is stored unless
-- the argument is NULL), fails with ECHILD, or sleeps, and goes on at
-- the label `again` when it is woken.
pub data Waited : Type 0 where
  reaps : ℕ → ℕ → List (Option Task) → Waited
  has_no_child : Waited
  sleeps : List (Option Task) → Waited
  faulted : Waited

abbrev pub reap : ℕ → ℕ → Option (List (Option Task)) → Waited
reap pid status none = faulted
reap pid status (some tasks) = reaps pid status tasks

-- `child` is at the head of the queue of the task `cur`.
abbrev pub take_child : ℕ → ℕ → Option Task → List (Option Task) → Waited
take_child cur child none tasks = faulted
take_child cur child (some dead) tasks =
    reap dead.pid dead.exit_status
      (task_destroy child (update cur (λ task. record task { wait_queue = dead.wait_queue }) tasks))

-- The code behind the label `again`.
abbrev pub wait_on : ℕ → Option ℕ → List (Option Task) → Waited
wait_on cur none tasks =
    sleeps (update cur (λ task. record task { state = task_state_block_wait }) tasks)
wait_on cur (some child) tasks = take_child cur child (get_or tasks child none) tasks

abbrev pub waited : ℕ → Option Task → List (Option Task) → Waited
waited cur none tasks = faulted
waited cur (some task) tasks =
    if task.children == 0 then has_no_child else wait_on cur task.wait_queue tasks

unfoldable pub sys_wait : ℕ → List (Option Task) → Waited
sys_wait cur tasks = waited cur (get_or tasks cur none) tasks

-- ===== src/Tasks.antt =====
-- The table of tasks of kernel/src/mm/task.c: new tasks, fork and the choice of the next task.
-- Tasks.Death is their end.
pub mod Schedule
pub mod Fork
pub mod Death
pub mod Queue
pub mod Orphans
pub mod Kill
pub mod Wait
mod Tests
use razos.Base.{
  ℕ, zero, suc, ◌+◌, ◌-◌, Bool, true, false, ◌&&◌, ltb, leb, ◌==◌, if◌then◌else◌, List, [], ◌∷◌,
  Option, none, some, get_or, set, is_some, add32,
}
use razos.Fs.Kernel.{Fildes}

abbrev pub task_state_ready : ℕ
task_state_ready = 1

-- `struct task_t`. A pointer to a task is its pid. The registers, the state of the floating point unit and the
-- place of `errno`, which fork copies too, are left out.
pub record Task : Type 0 where
  pub pid : ℕ
  pub ppid : ℕ
  pub state : ℕ
  pub exit_status : ℕ
  pub children : ℕ
  pub wait_queue : Option ℕ
  pub uheap_begin : ℕ
  pub uheap_end : ℕ
  pub files : List Fildes

-- `tasks`, the pid of `cur_task`, the calls of `clone_page_dir` (to, from), last first, and whether the next
-- calls of `kmalloc` succeed.
pub record TaskTable : Type 0 where
  pub tasks : List (Option Task)
  pub cur_task : ℕ
  pub clones : List (ℕ × ℕ)
  pub heap : List Bool

-- A run ends, panics, or stops at a bad access to memory.
pub data Result (A : Type 0) : Type 0 where
  returns : A → TaskTable → Result A
  panics : Result A
  faults : Result A

-- `get_task(pid)`: the test lets the place behind the table through.
unfoldable pub get_task : ℕ → List (Option Task) → Option Task
get_task pid tasks = if ltb 256 pid then none else get_or tasks pid none

-- A `task_t` of zeros, but for its state and pid.
abbrev pub empty_task : (no_files : List Fildes) → ℕ → Task
empty_task no_files pid = record {
  pid = pid;
  ppid = 0;
  state = task_state_ready;
  exit_status = 0;
  children = 0;
  wait_queue = none;
  uheap_begin = 0;
  uheap_end = 0;
  files = no_files;
}

-- The loop over the pids from `pid` on: the first that is not taken.
unfoldable pub free_pid : ℕ → ℕ → List (Option Task) → Option ℕ
free_pid zero pid tasks = none
free_pid (suc left) pid tasks =
    let rest = free_pid left (pid + 1) tasks in
    if is_some (get_or tasks pid none) then rest else some pid

-- `alloc_empty_task()`: the pid of the new task, if there is one to give.
unfoldable pub alloc_empty_task : List Fildes → TaskTable → Result (Option ℕ)
alloc_empty_task no_files t = elim (free_pid 255 1 t.tasks) [
  | none ↦ returns none t
  | some pid ↦ elim t.heap [
    | true ∷ heap ↦
        returns (some pid)
          (record t { tasks = set t.tasks pid (some (empty_task no_files pid)); heap = heap })
    | false ∷ heap ↦ panics
    | [] ↦ panics
  ]
]

-- What the child of `parent` starts with. The bounds of the heap are not copied.
abbrev pub child_of : Task → Task → Task
child_of parent child = record child { files = parent.files; ppid = parent.pid }

abbrev pub with_child : Task → Task
with_child parent = record parent { children = add32 parent.children 1 }

-- `task_fork_inner()`: the child's pid. Without a free pid the new task is NULL.
unfoldable pub task_fork_inner : List Fildes → TaskTable → Result ℕ
task_fork_inner no_files t = elim (alloc_empty_task no_files t) [
  | returns none t' ↦ faults
  | returns (some pid) t' ↦ elim (get_or t'.tasks t'.cur_task none) [
    | none ↦ faults
    | some parent ↦
        (let child = child_of parent (empty_task no_files pid) in
          let tasks = set t'.tasks pid (some child) in
          returns pid (record t' {
            tasks = set tasks t'.cur_task (some (with_child parent));
            clones = (pid, t'.cur_task) ∷ t'.clones;
          }))
  ]
  | panics ↦ panics
  | faults ↦ faults
]

abbrev pub is_ready : Option Task → Bool
is_ready none = false
is_ready (some task) = task.state == task_state_ready

-- A loop of `sched_next` over `left` pids from `i` on: the first task that is ready.
unfoldable pub ready_from : ℕ → ℕ → List (Option Task) → Option ℕ
ready_from zero i tasks = none
ready_from (suc left) i tasks =
    let rest = ready_from left (i + 1) tasks in if is_ready (get_task i tasks) then some i else rest

-- `sched_next()`: first behind the current task, then from 1 up to it.
unfoldable pub sched_next : TaskTable → Result ℕ
sched_next t = elim (get_or t.tasks t.cur_task none) [
  | none ↦ faults
  | some cur ↦ elim (ready_from (255 - cur.pid) (cur.pid + 1) t.tasks) [
    | some pid ↦ returns pid t
    | none ↦ elim (ready_from cur.pid 1 t.tasks) [ some pid ↦ returns pid t | none ↦ panics ]
  ]
]

-- `sched_switch` of task.s, as far as the table goes.
unfoldable pub sched_switch : TaskTable → Result ℕ
sched_switch t = elim (sched_next t) [
  | returns pid t' ↦ returns pid (record t' { cur_task = pid })
  | panics ↦ panics
  | faults ↦ faults
]

-- ===== src/Tasks/Fork.antt =====
-- What a fork leaves in the table of tasks.
use razos.Base.{
  ℕ, zero, suc, ◌+◌, ◌<◌, ◌≤◌, ◌≡◌, ◌≢◌, refl, sym, ◌∙◌, arith, Bool, true, false, List, Option,
  ◌∷◌, none, some, get_or, set, length, Bool-cases, inl, inr, is_some, add32, length-set,
  get_or-set_self, get_or-set_ne,
}
use native.Mathlib.Decide.{ℕ_discrete}
use razos.Fs.Kernel.{Fildes}
use razos.Tasks.{
  Task, TaskTable, returns, faults, free_pid, alloc_empty_task, task_fork_inner, empty_task,
  child_of, with_child, task_state_ready,
}

-- A pid from 1 to 255 that is free, while those below it are taken.
pub record LeastFree (tasks : List (Option Task)) (lo pid : ℕ) : Type 0 where
  pub from_lo : lo ≤ pid
  pub in_table : pid < 256
  pub free : is_some (get_or tasks pid none) ≡ false
  pub taken : (j : ℕ) → lo ≤ j → j < pid → is_some (get_or tasks j none) ≡ true

LeastFree-first :
    (tasks : List (Option Task)) (lo pid : ℕ)
    → is_some (get_or tasks lo none) ≡ true
    → LeastFree tasks (lo + 1) pid
    → LeastFree tasks lo pid
LeastFree-first tasks lo pid o f = record {
  from_lo = omega (arith, f.from_lo);
  in_table = f.in_table;
  free = f.free;
  taken = λ j a b. elim (ℕ_discrete lo j) [
    | yes e ↦ rw (← e) o
    | no ne ↦ f.taken j (omega (arith, ne)) b
  ];
}

free_pid_lem :
    (left lo free : ℕ) (tasks : List (Option Task))
    → lo + left ≡ 256
    → lo ≤ free
    → free < 256
    → is_some (get_or tasks free none) ≡ false
    → (pid : ℕ) × (free_pid left lo tasks ≡ some pid) × LeastFree tasks lo pid
unfolding free_pid
free_pid_lem zero lo free tasks h a b o = absurd (omega arith)
free_pid_lem (suc left) lo free tasks h a b o = elim (Bool-cases (is_some (get_or tasks lo none))) [
  | inl e ↦ elim (ℕ_discrete lo free) [
    | yes q ↦ absurd (cc)
    | no ne ↦
        let (pid, p, f) =
          free_pid_lem left (lo + 1) free tasks (omega arith) (omega (arith, ne)) b o in
        (pid, rw (e, p) refl, LeastFree-first tasks lo pid e f)
  ]
  | inr e ↦ (
    lo,
    rw e refl,
    record {
      from_lo = omega arith;
      in_table = omega arith;
      free = e;
      taken = λ j a b. absurd (omega arith);
    },
  )
]

-- Every pid from `lo` on is taken.
abbrev pub AllTaken : List (Option Task) → ℕ → Type 0
AllTaken tasks lo = (j : ℕ) → lo ≤ j → j < 256 → is_some (get_or tasks j none) ≡ true

free_pid-none :
    (left lo : ℕ) (tasks : List (Option Task))
    → lo + left ≡ 256
    → AllTaken tasks lo
    → free_pid left lo tasks ≡ none
unfolding free_pid
free_pid-none zero lo tasks h a = refl
free_pid-none (suc left) lo tasks h a =
    rw (a lo (omega arith) (omega arith))
      (free_pid-none left (lo + 1) tasks (omega arith) (λ j p q. a j (omega arith) q))

-- The table after a fork of `parent` to `pid`.
abbrev pub forked : List Fildes → ℕ → Task → List Bool → TaskTable → TaskTable
forked no_files pid parent heap t = record t {
  tasks =
      set
        (set (set t.tasks pid (some (empty_task no_files pid))) pid
          (some (child_of parent (empty_task no_files pid))))
        t.cur_task (some (with_child parent));
  clones = (pid, t.cur_task) ∷ t.clones;
  heap = heap;
}

alloc_runs :
    (no_files : List Fildes) (t : TaskTable) (heap : List Bool) (pid : ℕ)
    → t.heap ≡ true ∷ heap
    → free_pid 255 1 t.tasks ≡ some pid
    → alloc_empty_task no_files t
      ≡ returns
          (some pid)
          (record t { tasks = set t.tasks pid (some (empty_task no_files pid)); heap = heap })
unfolding alloc_empty_task
alloc_runs no_files t heap pid h p = rw (p, h, alloc_empty_task) refl

fork_runs :
    (no_files : List Fildes) (t : TaskTable) (parent : Task) (heap : List Bool) (pid : ℕ)
    → get_or t.tasks t.cur_task none ≡ some parent
    → t.heap ≡ true ∷ heap
    → pid ≢ t.cur_task
    → free_pid 255 1 t.tasks ≡ some pid
    → task_fork_inner no_files t ≡ returns pid (forked no_files pid parent heap t)
unfolding task_fork_inner
fork_runs no_files t parent heap pid e h ne p =
    let u = get_or-set_ne t.tasks pid t.cur_task (some (empty_task no_files pid)) none ne ∙ e in
    rw (alloc_runs no_files t heap pid h p, task_fork_inner) (rw (u, task_fork_inner) refl)

-- A fork while some pid is free and memory is left gives the child the least free pid from 1 on. The child is
-- ready, has the parent's files and its pid as ppid, has no children and no heap; the parent counts one child more;
-- the address space is cloned once, from the parent to the child; no other task changes.
pub task_fork_lem :
    (no_files : List Fildes) (t : TaskTable) (parent : Task) (heap : List Bool) (free : ℕ)
    → length t.tasks ≡ 256
    → t.cur_task < 256
    → get_or t.tasks t.cur_task none ≡ some parent
    → t.heap ≡ true ∷ heap
    → 1 ≤ free
    → free < 256
    → is_some (get_or t.tasks free none) ≡ false
    → (pid : ℕ) × (t' : TaskTable) × (task_fork_inner no_files t ≡ returns pid t')
      × LeastFree t.tasks 1 pid
      × (get_or t'.tasks pid none
          ≡ some (record {
            pid = pid;
            ppid = parent.pid;
            state = task_state_ready;
            exit_status = 0;
            children = 0;
            wait_queue = none;
            uheap_begin = 0;
            uheap_end = 0;
            files = parent.files;
          }))
      × (get_or t'.tasks t.cur_task none
          ≡ some (record parent { children = add32 parent.children 1 }))
      × ((j : ℕ) → j ≢ pid → j ≢ t.cur_task → get_or t'.tasks j none ≡ get_or t.tasks j none)
      × (t'.clones ≡ (pid, t.cur_task) ∷ t.clones)
task_fork_lem no_files t parent heap free w l e h a b o =
    let (pid, p, f) = free_pid_lem 255 1 free t.tasks refl a b o in
    let ne : pid ≢ t.cur_task =
      λ q. (let r : is_some (get_or t.tasks pid none) ≡ true = rw (q, e) refl in cc) in
    let one = set t.tasks pid (some (empty_task no_files pid)) in
    let two = set one pid (some (child_of parent (empty_task no_files pid))) in
    let w1 = length-set t.tasks pid (some (empty_task no_files pid)) in
    let w2 = length-set one pid (some (child_of parent (empty_task no_files pid))) in
    (
      pid,
      forked no_files pid parent heap t,
      fork_runs no_files t parent heap pid e h ne p,
      f,
      get_or-set_ne two t.cur_task pid (some (with_child parent)) none (λ q. ne (sym q))
          ∙ get_or-set_self one pid (some (child_of parent (empty_task no_files pid))) none
              (omega (arith, f.in_table)),
      get_or-set_self two t.cur_task (some (with_child parent)) none (omega arith),
      λ j n m.
          get_or-set_ne two t.cur_task j (some (with_child parent)) none (λ q. m (sym q))
          ∙ get_or-set_ne one pid j _ none (λ q. n (sym q))
          ∙ get_or-set_ne t.tasks pid j _ none (λ q. n (sym q)),
      refl,
    )

alloc_full :
    (no_files : List Fildes) (t : TaskTable)
    → AllTaken t.tasks 1
    → alloc_empty_task no_files t ≡ returns none t
unfolding alloc_empty_task
alloc_full no_files t a = rw (free_pid-none 255 1 t.tasks refl a, alloc_empty_task) refl

-- A fork while all pids from 1 to 255 are taken stores through NULL.
pub task_fork_full :
    (no_files : List Fildes) (t : TaskTable)
    → AllTaken t.tasks 1
    → task_fork_inner no_files t ≡ faults
unfolding task_fork_inner
task_fork_full no_files t a = rw (alloc_full no_files t a, task_fork_inner) refl

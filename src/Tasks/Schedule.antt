-- ===== src/Tasks/Schedule.antt =====
-- Which task `sched_next` chooses.
use razos.Base.{
  ℕ, zero, suc, ◌+◌, ◌-◌, ◌<◌, ◌≤◌, ◌≡◌, refl, arith, Bool, true, false, ltb, List, Option, none,
  some, get_or, Bool-cases, inl, inr,
}
use mathlib.Core.Path.{subst}
use native.Mathlib.Decide.{ℕ_discrete}
use razos.Tasks.{
  Task, TaskTable, Result, returns, panics, get_task, is_ready, ready_from, sched_next,
}

-- Whether the table holds a task under `pid` that is ready.
abbrev pub runs : List (Option Task) → ℕ → Bool
runs tasks pid = is_ready (get_or tasks pid none)

abbrev pub NoneBetween : List (Option Task) → ℕ → ℕ → Type 0
NoneBetween tasks lo hi = (j : ℕ) → lo ≤ j → j < hi → runs tasks j ≡ false

get_task-runs :
    (tasks : List (Option Task)) (i : ℕ) → i ≤ 256 → is_ready (get_task i tasks) ≡ runs tasks i
unfolding get_task
get_task-runs tasks i h = let e : ltb 256 i ≡ false = ground arith in rw e refl

-- What a loop from `lo` up to `hi` finds.
data FirstReady (tasks : List (Option Task)) (lo hi : ℕ) : Option ℕ → Type 0 where
  at :
      (r : ℕ)
      → lo ≤ r
      → r < hi
      → runs tasks r ≡ true
      → NoneBetween tasks lo r
      → FirstReady tasks lo hi (some r)
  nowhere : NoneBetween tasks lo hi → FirstReady tasks lo hi none

NoneBetween-first :
    (tasks : List (Option Task)) (lo hi : ℕ)
    → runs tasks lo ≡ false
    → NoneBetween tasks (lo + 1) hi
    → NoneBetween tasks lo hi
NoneBetween-first tasks lo hi o rest j a b = elim (ℕ_discrete lo j) [
  | yes e ↦ rw (← e) o
  | no ne ↦ rest j (omega (arith, ne)) b
]

FirstReady-first :
    (tasks : List (Option Task)) (lo hi : ℕ) (o : Option ℕ)
    → runs tasks lo ≡ false
    → FirstReady tasks (lo + 1) hi o
    → FirstReady tasks lo hi o
FirstReady-first tasks lo hi (some r) o (at s a b c d) =
    at s (omega arith) b c (NoneBetween-first tasks lo s o d)
FirstReady-first tasks lo hi none o (nowhere d) = nowhere (NoneBetween-first tasks lo hi o d)

ready_from_lem :
    (left i : ℕ) (tasks : List (Option Task))
    → i + left ≤ 256
    → FirstReady tasks i (i + left) (ready_from left i tasks)
unfolding ready_from
ready_from_lem zero i tasks h = nowhere (λ j a b. absurd (omega arith))
ready_from_lem (suc left) i tasks h = elim (Bool-cases (runs tasks i)) [
  | inl e ↦
      rw (get_task-runs tasks i (omega arith), e)
        (at i (omega arith) (omega arith) e (λ j a b. absurd (omega arith)))
  | inr e ↦
      let next : i + suc left ≡ i + 1 + left = omega arith in
      rw (get_task-runs tasks i (omega arith), e, next)
        (FirstReady-first tasks i (i + 1 + left) (ready_from left (i + 1) tasks) e
          (ready_from_lem left (i + 1) tasks (omega arith)))
]

-- The choice that follows `cur`: the next ready task behind it, else the first from 1 up to itself.
pub data NextReady (tasks : List (Option Task)) (cur : ℕ) (t : TaskTable) : Result ℕ → Type 0 where
  behind :
      (r : ℕ)
      → cur < r
      → r < 256
      → runs tasks r ≡ true
      → NoneBetween tasks (cur + 1) r
      → NextReady tasks cur t (returns r t)
  around :
      (r : ℕ)
      → 0 < r
      → r ≤ cur
      → runs tasks r ≡ true
      → NoneBetween tasks (cur + 1) 256
      → NoneBetween tasks 1 r
      → NextReady tasks cur t (returns r t)
  none_ready : NoneBetween tasks 1 256 → NextReady tasks cur t panics

NoneBetween-join :
    (tasks : List (Option Task)) (a b c : ℕ)
    → NoneBetween tasks a b
    → NoneBetween tasks b c
    → NoneBetween tasks a c
NoneBetween-join tasks a b c p q j l h = elim (Bool-cases (ltb j b)) [
  | inl e ↦ p j l (ground arith)
  | inr e ↦ q j (ground arith) h
]

after_first :
    (tasks : List (Option Task)) (cur : ℕ) (t : TaskTable) (o : Option ℕ)
    → cur < 256
    → NoneBetween tasks (cur + 1) 256
    → FirstReady tasks 1 (1 + cur) o
    → NextReady tasks cur t (elim o [ some pid ↦ returns pid t | none ↦ panics ])
after_first tasks cur t (some r) l n (at s a b c d) = around s (omega arith) (omega arith) c n d
after_first tasks cur t none l n (nowhere d) =
    none_ready (NoneBetween-join tasks 1 (cur + 1) 256 (λ j a b. d j a (omega arith)) n)

choose :
    (tasks : List (Option Task)) (cur : ℕ) (t : TaskTable) (o o' : Option ℕ)
    → cur < 256
    → FirstReady tasks (cur + 1) (cur + 1 + (255 - cur)) o
    → FirstReady tasks 1 (1 + cur) o'
    → NextReady tasks cur t (elim o [
      | some pid ↦ returns pid t
      | none ↦ elim o' [ some pid ↦ returns pid t | none ↦ panics ]
    ])
choose tasks cur t (some r) o' l (at s a b c d) f' = behind s (omega arith) (omega arith) c d
choose tasks cur t none o' l (nowhere d) f' =
    after_first tasks cur t o' l (λ j a b. d j a (omega arith)) f'

-- The scheduler goes around: it returns the first ready task behind the current one, else the first from pid 1
-- up to the current one, itself included, and panics exactly where no task is ready. It changes nothing.
pub sched_next_lem :
    (t : TaskTable) (task : Task)
    → t.cur_task < 256
    → get_or t.tasks t.cur_task none ≡ some task
    → task.pid ≡ t.cur_task
    → NextReady t.tasks t.cur_task t (sched_next t)
unfolding sched_next
sched_next_lem t task l e p =
    let n : NextReady t.tasks task.pid t (sched_next t) =
      rw (e, sched_next)
        (choose t.tasks task.pid t _ _ (omega (arith, p))
          (ready_from_lem (255 - task.pid) (task.pid + 1) t.tasks (omega (arith, p)))
          (ready_from_lem task.pid 1 t.tasks (omega (arith, p)))) in
    subst (λ c. NextReady t.tasks c t (sched_next t)) p n

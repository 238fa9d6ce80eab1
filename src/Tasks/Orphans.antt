-- ===== src/Tasks/Orphans.antt =====
-- The loop of `task_kill` of kernel/src/mm/task.c that gives the children of a task to task 1.
use mathlib.Core.Path.{subst}
use razos.Base.{
  ℕ, zero, suc, ◌+◌, ◌<◌, ◌≤◌, ◌≡◌, ◌≢◌, refl, sym, ap, ◌∙◌, arith, ◌==◌, List, Option, none, some,
  get_or, inl, inr, Bool-cases,
}
use razos.Tasks.{Task}
use razos.Tasks.Death.{update, reparent, adopt, new_parent}
use razos.Tasks.Queue.{at, get_or-update_self, get_or-update_ne, at-update_self, at-update_ne}
use mathlib.Core.Option

pub reparent_same :
    (left i j pid : ℕ) (task : Task) (tasks : List (Option Task))
    → task.ppid ≢ pid
    → get_or tasks j none ≡ some task
    → get_or (reparent left i pid tasks) j none ≡ some task
unfolding reparent new_parent
reparent_same zero i j pid task tasks ne h = h
reparent_same (suc left) i j pid task tasks ne h =
    let stays : new_parent pid task.ppid ≡ task.ppid = ground arith in
    let step : get_or (update i (adopt pid) tasks) j none ≡ some task = elim (Bool-cases (i == j)) [
      | inl e ↦
          (let f : i ≡ j = ground arith in
            ap (λ x. get_or (update i (adopt pid) tasks) x none) (sym f)
            ∙ get_or-update_self i (adopt pid) tasks
            ∙ ap (λ x. Option.map (adopt pid) (get_or tasks x none)) f
            ∙ ap (Option.map (adopt pid)) h
            ∙ ap (λ x. some (record task { ppid = x })) stays)
      | inr e ↦ get_or-update_ne i j (adopt pid) tasks (ground arith) ∙ h
    ] in
    reparent_same left (i + 1) j pid task (update i (adopt pid) tasks) ne step

-- The loop has not come to the place `j` yet, or is behind it.
reparent_other :
    {B : Type 0}
    → (g : Task → B) (left i j pid : ℕ) (tasks : List (Option Task)) → j < i
    → at g j (reparent left i pid tasks) ≡ at g j tasks
unfolding reparent
reparent_other g zero i j pid tasks lt = refl
reparent_other g (suc left) i j pid tasks lt =
    reparent_other g left (i + 1) j pid (update i (adopt pid) tasks) (omega arith)
    ∙ at-update_ne g i j (adopt pid) tasks (omega arith)

-- A task that the loop comes to has the parent that `new_parent` gives.
pub reparent_lem :
    (left i j pid : ℕ) (tasks : List (Option Task))
    → i ≤ j
    → j < left + i
    → at (λ task. task.ppid) j (reparent left i pid tasks)
      ≡ at (λ task. new_parent pid task.ppid) j tasks
unfolding reparent
reparent_lem zero i j pid tasks le lt = absurd (omega arith)
reparent_lem (suc left) i j pid tasks le lt = elim (Bool-cases (i == j)) [
  | inl e ↦
      (let f : i ≡ j = ground arith in
        subst
          (λ x.
            at (λ task. task.ppid) x (reparent left (i + 1) pid (update i (adopt pid) tasks))
            ≡ at (λ task. new_parent pid task.ppid) x tasks)
          f
          (reparent_other (λ task. task.ppid) left (i + 1) i pid (update i (adopt pid) tasks)
              (omega arith)
            ∙ at-update_self (λ task. task.ppid) i (adopt pid) tasks))
  | inr e ↦
      reparent_lem left (i + 1) j pid (update i (adopt pid) tasks) (ground arith) (omega arith)
      ∙ at-update_ne (λ task. new_parent pid task.ppid) i j (adopt pid) tasks (ground arith)
]

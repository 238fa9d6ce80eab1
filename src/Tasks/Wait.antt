-- ===== src/Tasks/Wait.antt =====
-- What `sys_wait` of kernel/src/syscall/sys_tasking.c does with the queue of dead children.
use razos.Base.{
  ℕ, zero, suc, ◌≡◌, ◌≢◌, refl, sym, ap, ◌∙◌, arith, false, ◌==◌, if◌then◌else◌, List, [], ◌∷◌,
  Option, none, some, get_or, set, sub32, get_or-set_ne,
}
use razos.Tasks.{Task}
use razos.Tasks.Death.{
  update, destroy, forget, task_destroy, less_child, Waited, reaps, take_child, wait_on, waited,
  reap, sys_wait,
}
use razos.Tasks.Queue.{
  at, link, Queue, AllNe, get_or-update_self, get_or-update_ne, at-update_self, at-update_ne,
  at-update_keeps, Queue-frame, Queue-AllNe,
}
use mathlib.Core.Option

abbrev set_queue : Option ℕ → Task → Task
set_queue q task = record task { wait_queue = q }

-- The table behind a wait that takes `child`.
abbrev reaped : ℕ → ℕ → Option ℕ → List (Option Task) → List (Option Task)
reaped cur child q tasks = set (update cur less_child (update cur (set_queue q) tasks)) child none

get_or-set-none : (tasks : List (Option Task)) (i : ℕ) → get_or (set tasks i none) i none ≡ none
get_or-set-none [] i = refl
get_or-set-none (x ∷ tasks) zero = refl
get_or-set-none (x ∷ tasks) (suc i) = get_or-set-none tasks i

at-reaped :
    {B : Type 0}
    → (g : Task → B) (cur child : ℕ) (q : Option ℕ) (tasks : List (Option Task)) (j : ℕ) → child ≢ j
    → at g j (reaped cur child q tasks)
      ≡ at g j (update cur less_child (update cur (set_queue q) tasks))
at-reaped g cur child q tasks j ne =
    ap (Option.map g)
      (get_or-set_ne (update cur less_child (update cur (set_queue q) tasks)) child j none none ne)

-- The run of a wait.
sys_wait-reaped :
    (cur child : ℕ) (tasks : List (Option Task)) (task dead : Task)
    → get_or tasks cur none ≡ some task
    → task.children ≢ 0
    → task.wait_queue ≡ some child
    → get_or tasks child none ≡ some dead
    → dead.ppid ≡ cur
    → cur ≢ child
    → sys_wait cur tasks ≡ reaps dead.pid dead.exit_status (reaped cur child dead.wait_queue tasks)
unfolding sys_wait task_destroy
sys_wait-reaped cur child tasks task dead here some_children head there ppid ne =
    let t1 : List (Option Task) = update cur (set_queue dead.wait_queue) tasks in
    let there' : get_or t1 child none ≡ some dead =
      get_or-update_ne cur child (set_queue dead.wait_queue) tasks ne ∙ there in
    let here' : get_or t1 cur none ≡ some (set_queue dead.wait_queue task) =
      get_or-update_self cur (set_queue dead.wait_queue) tasks
      ∙ ap (Option.map (set_queue dead.wait_queue)) here in
    let counted : (task.children == 0) ≡ false = ground arith in
    ap (λ x. waited cur x tasks) here
    ∙ ap (λ b. if b then Waited.has_no_child else wait_on cur task.wait_queue tasks) counted
    ∙ ap (λ q. wait_on cur q tasks) head
    ∙ ap (λ x. take_child cur child x tasks) there
    ∙ ap (λ x. reap dead.pid dead.exit_status (destroy child x t1)) there'
    ∙ ap (λ p. reap dead.pid dead.exit_status (forget child p (get_or t1 p none) t1)) ppid
    ∙ ap (λ x. reap dead.pid dead.exit_status (forget child cur x t1)) here'

-- The queue of `child` is that of `cur` in the new table.
moved-Queue :
    (cur child : ℕ) (tasks tasks' : List (Option Task)) (qs : List ℕ)
    → link cur tasks' ≡ link child tasks
    → ((j : ℕ) → cur ≢ j → child ≢ j → link j tasks' ≡ link j tasks)
    → Queue tasks child qs
    → AllNe cur (child ∷ qs)
    → Queue tasks' cur qs
moved-Queue cur child tasks tasks' [] first others h ne = first ∙ h
moved-Queue cur child tasks tasks' (q ∷ qs) first others (l, h) (_, ne) = (
  first ∙ l,
  Queue-frame tasks tasks' cur child q qs others ne
      (Queue-AllNe tasks child (q ∷ qs) q qs (l, h) h (omega arith)) h,
)

-- `child` is the first of the dead children that wait for the task cur, another task, which counts
-- children and is the parent of `child`. Then `sys_wait` does not sleep: it returns the pid and the status of
-- `child`, takes it out of the table and out of the queue, whose order stays, and counts a child less.
pub sys_wait_lem :
    (cur child : ℕ) (tasks : List (Option Task)) (task dead : Task) (qs : List ℕ)
    → get_or tasks cur none ≡ some task
    → task.children ≢ 0
    → Queue tasks cur (child ∷ qs)
    → get_or tasks child none ≡ some dead
    → dead.ppid ≡ cur
    → cur ≢ child
    → (tasks' : List (Option Task)) × (sys_wait cur tasks ≡ reaps dead.pid dead.exit_status tasks')
      × Queue tasks' cur qs
      × (get_or tasks' child none ≡ none)
      × (at (λ t. t.children) cur tasks' ≡ some (sub32 task.children 1))
sys_wait_lem cur child tasks task dead qs here some_children queue there ppid ne =
    let head : task.wait_queue ≡ some child =
      Option.some-injective task.wait_queue (some child)
        (sym (ap (Option.map (λ t. t.wait_queue)) here) ∙ queue.0) in
    let q = dead.wait_queue in
    let t1 : List (Option Task) = update cur (set_queue q) tasks in
    let ne' : child ≢ cur = λ e. ne (sym e) in
    let first : link cur (reaped cur child q tasks) ≡ link child tasks =
      at-reaped (λ t. t.wait_queue) cur child q tasks cur ne'
      ∙ at-update_keeps (λ t. t.wait_queue) cur cur less_child t1 (λ t. refl)
      ∙ at-update_self (λ t. t.wait_queue) cur (set_queue q) tasks
      ∙ ap (Option.map (λ t. q)) here
      ∙ sym (ap (Option.map (λ t. t.wait_queue)) there) in
    let others : (j : ℕ) → cur ≢ j → child ≢ j → link j (reaped cur child q tasks) ≡ link j tasks =
      λ j a b.
        at-reaped (λ t. t.wait_queue) cur child q tasks j b
        ∙ at-update_keeps (λ t. t.wait_queue) cur j less_child t1 (λ t. refl)
        ∙ at-update_ne (λ t. t.wait_queue) cur j (set_queue q) tasks a in
    (
      reaped cur child q tasks,
      sys_wait-reaped cur child tasks task dead here some_children head there ppid ne,
      moved-Queue cur child tasks (reaped cur child q tasks) qs first others queue.1
          (Queue-AllNe tasks cur (child ∷ qs) child qs queue queue.1 (omega arith)),
      get_or-set-none (update cur less_child t1) child,
      at-reaped (λ t. t.children) cur child q tasks cur ne'
          ∙ at-update_self (λ t. t.children) cur less_child t1
          ∙ at-update_self (λ t. sub32 t.children 1) cur (set_queue q) tasks
          ∙ ap (Option.map (λ t. sub32 t.children 1)) here,
    )

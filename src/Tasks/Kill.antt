-- ===== src/Tasks/Kill.antt =====
-- What `task_kill` of kernel/src/mm/task.c does to the table.
use razos.Base.{
  ℕ, ◌<◌, ◌≤◌, ◌≡◌, ◌≢◌, refl, sym, ap, ◌∙◌, arith, true, ◌==◌, if◌then◌else◌, List, [], ◌∷◌, ◌++◌,
  length, Option, none, some, get_or,
}
use razos.Tasks.{Task, get_task}
use razos.Tasks.Death.{
  update, reparent, queue_end, destroy_queue, wait_queue_of, end_task, join_parent, join_queue,
  enqueue, wake, woken, task_state_exiting, task_kill, with_status, new_parent,
}
use razos.Tasks.Queue.{
  at, link, Queue, AllNe, last_of, get_or-update_self, at-update_self, at-update_ne,
  at-update_keeps, at-reparent, at-some, Queue-cong, link-last_of, Queue-append, queue_end_lem,
}
use razos.Tasks.Orphans.{reparent_same, reparent_lem}
use mathlib.Core.Option
use mathlib.Core.Path.{subst}

-- The stores of `task_kill` behind its loops.
module _ (c parent last : ℕ) (tasks : List (Option Task)) where
  abbrev linked : List (Option Task)
  linked = update last (λ task. record task { wait_queue = some c }) tasks

  abbrev cleared : List (Option Task)
  cleared = update c (λ task. record task { wait_queue = none }) linked

  abbrev pub stored : List (Option Task)
  stored =
      update c (λ task. record task { state = task_state_exiting }) (update parent wake cleared)

  -- A field that none of the stores is to.
  pub at-stored :
      {B : Type 0}
      → (g : Task → B)
      → ((task : Task) (s : ℕ) (q : Option ℕ)
          → g (record task { state = s; wait_queue = q }) ≡ g task)
      → (j : ℕ) → at g j stored ≡ at g j tasks
  at-stored g k j =
      at-update_keeps g c j (λ task. record task { state = task_state_exiting })
        (update parent wake cleared) (λ task. k task task_state_exiting task.wait_queue)
      ∙ at-update_keeps g parent j wake cleared (λ task. k task (woken task.state) task.wait_queue)
      ∙ at-update_keeps g c j (λ task. record task { wait_queue = none }) linked
          (λ task. k task task.state none)
      ∙ at-update_keeps g last j (λ task. record task { wait_queue = some c }) tasks
          (λ task. k task task.state (some c))

  link-woken : (j : ℕ) → link j stored ≡ link j cleared
  link-woken j =
      at-update_keeps (λ task. task.wait_queue) c j
        (λ task. record task { state = task_state_exiting }) (update parent wake cleared)
        (λ task. refl)
      ∙ at-update_keeps (λ task. task.wait_queue) parent j wake cleared (λ task. refl)

  pub link-stored_ne : (j : ℕ) → last ≢ j → c ≢ j → link j stored ≡ link j tasks
  link-stored_ne j ne ne' =
      link-woken j
      ∙ at-update_ne (λ task. task.wait_queue) c j (λ task. record task { wait_queue = none })
          linked ne'
      ∙ at-update_ne (λ task. task.wait_queue) last j (λ task. record task { wait_queue = some c })
          tasks ne

  pub link-stored : at (λ task. true) c tasks ≡ some true → link c stored ≡ some none
  link-stored h =
      link-woken c
      ∙ at-update_self (λ task. task.wait_queue) c (λ task. record task { wait_queue = none })
          linked
      ∙ at-update_keeps (λ task. none) last c (λ task. record task { wait_queue = some c }) tasks
          (λ task. refl)
      ∙ (let (task, e, _) = at-some (λ task. true) (get_or tasks c none) true h in
          ap (Option.map (λ task. none)) e)

  pub link-stored_last : c ≢ last → link last tasks ≡ some none → link last stored ≡ some (some c)
  link-stored_last ne h =
      link-woken last
      ∙ at-update_ne (λ task. task.wait_queue) c last (λ task. record task { wait_queue = none })
          linked ne
      ∙ at-update_self (λ task. task.wait_queue) last (λ task. record task { wait_queue = some c })
          tasks
      ∙ (let (task, e, _) = at-some (λ task. task.wait_queue) (get_or tasks last none) none h in
          ap (Option.map (λ task. some c)) e)

  pub state-stored :
      at (λ task. true) c tasks ≡ some true
      → at (λ task. task.state) c stored ≡ some task_state_exiting
  state-stored h =
      at-update_self (λ task. task.state) c (λ task. record task { state = task_state_exiting })
        (update parent wake cleared)
      ∙ at-update_keeps (λ task. task_state_exiting) parent c wake cleared (λ task. refl)
      ∙ at-update_keeps (λ task. task_state_exiting) c c (λ task. record task { wait_queue = none })
          linked (λ task. refl)
      ∙ at-update_keeps (λ task. task_state_exiting) last c
          (λ task. record task { wait_queue = some c }) tasks (λ task. refl)
      ∙ (let (task, e, _) = at-some (λ task. true) (get_or tasks c none) true h in
          ap (Option.map (λ task. task_state_exiting)) e)

  pub state-stored_parent :
      c ≢ parent
      → at (λ task. task.state) parent stored ≡ at (λ task. woken task.state) parent tasks
  state-stored_parent ne =
      at-update_ne (λ task. task.state) c parent
        (λ task. record task { state = task_state_exiting }) (update parent wake cleared) ne
      ∙ at-update_self (λ task. task.state) parent wake cleared
      ∙ at-update_keeps (λ task. woken task.state) c parent
          (λ task. record task { wait_queue = none }) linked (λ task. refl)
      ∙ at-update_keeps (λ task. woken task.state) last parent
          (λ task. record task { wait_queue = some c }) tasks (λ task. refl)

  -- The queue of the parent ends with the task.
  pub Queue-stored :
      (qs : List ℕ)
      → last ≡ last_of parent qs
      → AllNe c (parent ∷ qs)
      → c ≢ last
      → at (λ task. true) c tasks ≡ some true
      → Queue tasks parent qs
      → Queue stored parent (qs ++ c ∷ [])
  Queue-stored qs e ne ne' h k =
      let end : link last tasks ≡ some none =
        subst (λ x. link x tasks ≡ some none) (sym e) (link-last_of tasks parent qs k) in
      Queue-append tasks stored c last parent qs link-stored_ne (link-stored h)
        (link-stored_last ne' end) end e ne k

pub last_of_ne : (c p : ℕ) (qs : List ℕ) → AllNe c (p ∷ qs) → c ≢ last_of p qs
last_of_ne c p [] (a, _) = λ e. a (sym e)
last_of_ne c p (q ∷ qs) (a, h) = last_of_ne c q qs h

destroy_queue-none :
    (q : Option ℕ) (tasks : List (Option Task)) → q ≡ none → destroy_queue 256 q tasks ≡ some tasks
unfolding destroy_queue
destroy_queue-none none tasks h = refl
destroy_queue-none (some q) tasks h = absurd (Option.some-ne-none q h)

-- The run of `task_kill` up to the stores.
task_kill-stored :
    (c status : ℕ) (tasks tasks' : List (Option Task)) (task task' parent' : Task) (qs : List ℕ)
    → tasks' ≡ reparent 254 2 c (update c (with_status status) tasks)
    → get_or tasks c none ≡ some task
    → task.wait_queue ≡ none
    → get_or tasks' c none ≡ some task'
    → get_task task'.ppid tasks' ≡ some parent'
    → queue_end 256 task'.ppid tasks' ≡ some (last_of task'.ppid qs)
    → task_kill c status tasks ≡ some (stored c task'.ppid (last_of task'.ppid qs) tasks')
unfolding task_kill
task_kill-stored c status tasks tasks' task task' parent' qs e own idle now there end =
    let t1 : List (Option Task) = update c (with_status status) tasks in
    let empty : wait_queue_of (get_or t1 c none) ≡ none =
      ap wait_queue_of
        (get_or-update_self c (with_status status) tasks ∙ ap (Option.map (with_status status)) own)
      ∙ idle in
    let joined : join_parent c (get_or tasks' c none) tasks'
        ≡ some (stored c task'.ppid (last_of task'.ppid qs) tasks') =
      ap (λ x. join_parent c x tasks') now
      ∙ ap (λ x. join_queue c task'.ppid x tasks') there
      ∙ ap (λ x. enqueue c task'.ppid x tasks') end in
    ap (end_task c) (destroy_queue-none (wait_queue_of (get_or t1 c none)) t1 empty)
    ∙ ap (λ ts. join_parent c (get_or ts c none) ts) (sym e)
    ∙ joined

task-present :
    (x : Option Task) (task : Task) → x ≡ some task → Option.map (λ t. true) x ≡ some true
task-present x task e = ap (Option.map (λ t. true)) e

get_task-some :
    (p : ℕ) (tasks : List (Option Task)) (task : Task)
    → p ≤ 256
    → get_or tasks p none ≡ some task
    → get_task p tasks ≡ some task
unfolding get_task
get_task-some p tasks task le e = ground (arith, e)

-- Task c is killed. None of its own children is dead and waits for it; its parent, another task, is in the
-- table, and fewer than 256 dead children wait for the parent, c not among them. Then `task_kill` returns;
-- c stands behind the others in the queue of the parent, with the status, and is not scheduled any more; the
-- parent is ready if it slept in `wait`, and in its old state if not; and of the tasks from 2 to 255 those whose
-- parent was c have task 1 as their parent, and the others the parent that they had.
pub task_kill_lem :
    (c status i : ℕ) (tasks : List (Option Task)) (task parent : Task) (qs : List ℕ)
    → get_or tasks c none ≡ some task
    → task.wait_queue ≡ none
    → get_or tasks task.ppid none ≡ some parent
    → task.ppid ≤ 256
    → Queue tasks task.ppid qs
    → length qs < 256
    → AllNe c (task.ppid ∷ qs)
    → 2 ≤ i
    → i < 256
    → (tasks' : List (Option Task)) × (task_kill c status tasks ≡ some tasks')
      × Queue tasks' task.ppid (qs ++ c ∷ [])
      × (at (λ t. t.exit_status) c tasks' ≡ some status)
      × (at (λ t. t.state) c tasks' ≡ some 3)
      × (at (λ t. t.state) task.ppid tasks' ≡ some (if parent.state == 2 then 1 else parent.state))
      × (at (λ t. t.ppid) i tasks' ≡ at (λ t. if t.ppid == c then 1 else t.ppid) i tasks)
unfolding woken new_parent
task_kill_lem c status i tasks task parent qs own idle there le queue lt ne lo hi =
    let t1 : List (Option Task) = update c (with_status status) tasks in
    let t2 : List (Option Task) = reparent 254 2 c t1 in
    let last = last_of task.ppid qs in
    let links : (j : ℕ) → link j t2 ≡ link j tasks = λ j.
      at-reparent (λ t. t.wait_queue) 254 2 j c t1 (λ t. refl)
      ∙ at-update_keeps (λ t. t.wait_queue) c j (with_status status) tasks (λ t. refl) in
    let queue' : Queue t2 task.ppid qs = Queue-cong tasks t2 task.ppid qs links queue in
    let states : at (λ t. t.state) task.ppid t2 ≡ some parent.state =
      at-reparent (λ t. t.state) 254 2 task.ppid c t1 (λ t. refl)
      ∙ at-update_keeps (λ t. t.state) c task.ppid (with_status status) tasks (λ t. refl)
      ∙ ap (Option.map (λ t. t.state)) there in
    let (parent', there', same) =
      at-some (λ t. t.state) (get_or t2 task.ppid none) parent.state states in
    let now : get_or t2 c none ≡ some (with_status status task) =
      reparent_same 254 2 c c (with_status status task) t1 (λ e. ne.0 e)
        (get_or-update_self c (with_status status) tasks
          ∙ ap (Option.map (with_status status)) own) in
    let present = task-present (get_or t2 c none) (with_status status task) now in
    (
      stored c task.ppid last t2,
      task_kill-stored c status tasks t2 task (with_status status task) parent' qs refl own idle now
          (get_task-some task.ppid t2 parent' le there')
          (queue_end_lem 256 t2 task.ppid qs lt queue'),
      Queue-stored c task.ppid last t2 qs refl ne (last_of_ne c task.ppid qs ne) present queue',
      at-stored c task.ppid last t2 (λ t. t.exit_status) (λ t s q. refl) c
          ∙ ap (Option.map (λ t. t.exit_status)) now,
      state-stored c task.ppid last t2 present,
      state-stored_parent c task.ppid last t2 (λ e. ne.0 (sym e))
          ∙ ap (Option.map (λ t. woken t.state)) there'
          ∙ ap (λ s. some (woken s)) same,
      at-stored c task.ppid last t2 (λ t. t.ppid) (λ t s q. refl) i
          ∙ reparent_lem 254 2 i c t1 lo (omega arith)
          ∙ at-update_keeps (λ t. new_parent c t.ppid) c i (with_status status) tasks (λ t. refl),
    )

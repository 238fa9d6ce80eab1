-- ===== src/Tasks/Queue.antt =====
-- The queue of dead children that starts at a task of kernel/src/mm/task.c, and what stores to tasks do
-- to it.
use razos.Base.{
  ℕ, zero, suc, ◌+◌, ◌<◌, ◌≡◌, ◌≢◌, refl, sym, ap, ◌∙◌, arith, List, [], ◌∷◌, ◌++◌, length, Option,
  none, some, get_or,
}
use razos.Tasks.{Task}
use razos.Tasks.Death.{update, reparent, adopt, queue_end}
use mathlib.Core.Option
use mathlib.Core.Path.{subst}

-- A field of a task in the table.
abbrev pub at : {B : Type 0} → (Task → B) → ℕ → List (Option Task) → Option B
at g i tasks = Option.map g (get_or tasks i none)

abbrev pub link : ℕ → List (Option Task) → Option (Option ℕ)
link i tasks = at (λ task. task.wait_queue) i tasks

-- The tasks behind `p` are those of the list, in this order.
abbrev pub Queue : List (Option Task) → ℕ → List ℕ → Type 0
Queue tasks p [] = link p tasks ≡ some none
Queue tasks p (q ∷ qs) = (link p tasks ≡ some (some q)) × Queue tasks q qs

abbrev pub AllNe : ℕ → List ℕ → Type 0
AllNe x [] = Unit
AllNe x (y ∷ ys) = (y ≢ x) × AllNe x ys

abbrev pub last_of : ℕ → List ℕ → ℕ
last_of p [] = p
last_of p (q ∷ qs) = last_of q qs

pub get_or-update_self :
    (i : ℕ) (f : Task → Task) (tasks : List (Option Task))
    → get_or (update i f tasks) i none ≡ Option.map f (get_or tasks i none)
unfolding update
get_or-update_self zero f [] = refl
get_or-update_self (suc i) f [] = refl
get_or-update_self zero f (x ∷ tasks) = refl
get_or-update_self (suc i) f (x ∷ tasks) = get_or-update_self i f tasks

pub get_or-update_ne :
    (i j : ℕ) (f : Task → Task) (tasks : List (Option Task))
    → i ≢ j
    → get_or (update i f tasks) j none ≡ get_or tasks j none
unfolding update
get_or-update_ne zero j f [] h = refl
get_or-update_ne (suc i) j f [] h = refl
get_or-update_ne zero zero f (x ∷ tasks) h = absurd (h refl)
get_or-update_ne zero (suc j) f (x ∷ tasks) h = refl
get_or-update_ne (suc i) zero f (x ∷ tasks) h = refl
get_or-update_ne (suc i) (suc j) f (x ∷ tasks) h = get_or-update_ne i j f tasks (λ e. h (ap suc e))

map-map :
    {B : Type 0}
    → (g : Task → B) (f : Task → Task) (x : Option Task)
    → Option.map g (Option.map f x) ≡ Option.map (λ task. g (f task)) x
map-map g f none = refl
map-map g f (some task) = refl

pub at-update_self :
    {B : Type 0}
    → (g : Task → B) (i : ℕ) (f : Task → Task) (tasks : List (Option Task))
    → at g i (update i f tasks) ≡ at (λ task. g (f task)) i tasks
at-update_self g i f tasks =
    ap (Option.map g) (get_or-update_self i f tasks) ∙ map-map g f (get_or tasks i none)

pub at-update_ne :
    {B : Type 0}
    → (g : Task → B) (i j : ℕ) (f : Task → Task) (tasks : List (Option Task)) → i ≢ j
    → at g j (update i f tasks) ≡ at g j tasks
at-update_ne g i j f tasks h = ap (Option.map g) (get_or-update_ne i j f tasks h)

-- A store to another field.
pub at-update_keeps :
    {B : Type 0}
    → (g : Task → B) (i j : ℕ) (f : Task → Task) (tasks : List (Option Task))
    → ((task : Task) → g (f task) ≡ g task)
    → at g j (update i f tasks) ≡ at g j tasks
unfolding update
at-update_keeps g zero j f [] k = refl
at-update_keeps g (suc i) j f [] k = refl
at-update_keeps g zero zero f (none ∷ tasks) k = refl
at-update_keeps g zero zero f (some task ∷ tasks) k = ap some (k task)
at-update_keeps g zero (suc j) f (x ∷ tasks) k = refl
at-update_keeps g (suc i) zero f (x ∷ tasks) k = refl
at-update_keeps g (suc i) (suc j) f (x ∷ tasks) k = at-update_keeps g i j f tasks k

pub at-reparent :
    {B : Type 0}
    → (g : Task → B) (left i j pid : ℕ) (tasks : List (Option Task))
    → ((task : Task) → g (adopt pid task) ≡ g task)
    → at g j (reparent left i pid tasks) ≡ at g j tasks
unfolding reparent
at-reparent g zero i j pid tasks k = refl
at-reparent g (suc left) i j pid tasks k =
    at-reparent g left (i + 1) j pid (update i (adopt pid) tasks) k
    ∙ at-update_keeps g i j (adopt pid) tasks k

-- A field that is read is that of a task in the table.
pub at-some :
    {B : Type 0}
    → (g : Task → B) (x : Option Task) (v : B) → Option.map g x ≡ some v
    → (task : Task) × (x ≡ some task) × (g task ≡ v)
at-some g none v h = absurd (Option.none-ne-some v h)
at-some g (some task) v h = (task, refl, Option.some-injective (g task) v h)

pub Queue-cong :
    (tasks tasks' : List (Option Task)) (p : ℕ) (qs : List ℕ)
    → ((j : ℕ) → link j tasks' ≡ link j tasks)
    → Queue tasks p qs
    → Queue tasks' p qs
Queue-cong tasks tasks' p [] k h = k p ∙ h
Queue-cong tasks tasks' p (q ∷ qs) k (a, h) = (k p ∙ a, Queue-cong tasks tasks' q qs k h)

pub link-last_of :
    (tasks : List (Option Task)) (p : ℕ) (qs : List ℕ)
    → Queue tasks p qs
    → link (last_of p qs) tasks ≡ some none
link-last_of tasks p [] h = h
link-last_of tasks p (q ∷ qs) (a, h) = link-last_of tasks q qs h

linked_twice : {q : ℕ} → ¬ Path (Option (Option ℕ)) (some none) (some (some q))
linked_twice {q} h = Option.none-ne-some q (Option.some-injective none (some q) h)

-- The queue has one order.
pub Queue-unique :
    (tasks : List (Option Task)) (p : ℕ) (qs rs : List ℕ)
    → Queue tasks p qs
    → Queue tasks p rs
    → length qs ≡ length rs
Queue-unique tasks p [] [] h k = refl
Queue-unique tasks p [] (r ∷ rs) h (b, k) = absurd (linked_twice (sym h ∙ b))
Queue-unique tasks p (q ∷ qs) [] (a, h) k = absurd (linked_twice (sym k ∙ a))
Queue-unique tasks p (q ∷ qs) (r ∷ rs) (a, h) (b, k) =
    let e : q ≡ r =
      Option.some-injective q r (Option.some-injective (some q) (some r) (sym a ∙ b)) in
    ap suc (Queue-unique tasks q qs rs h (subst (λ x. Queue tasks x rs) (sym e) k))

-- A task whose queue is longer is not in a shorter one.
pub Queue-AllNe :
    (tasks : List (Option Task)) (x : ℕ) (xs : List ℕ) (p : ℕ) (qs : List ℕ)
    → Queue tasks x xs
    → Queue tasks p qs
    → length qs < length xs
    → AllNe x (p ∷ qs)
Queue-AllNe tasks x xs p [] h k lt = (
  λ e. absurd (omega (arith, Queue-unique tasks x xs [] h (subst (λ y. Queue tasks y []) e k))),
  tt,
)
Queue-AllNe tasks x xs p (q ∷ qs) h k lt = (
  λ e.
      absurd (
        omega
          (arith, Queue-unique tasks x xs (q ∷ qs) h (subst (λ y. Queue tasks y (q ∷ qs)) e k))),
  Queue-AllNe tasks x xs q qs h k.1 (omega arith),
)

-- A change of other tasks leaves the queue.
pub Queue-frame :
    (tasks tasks' : List (Option Task)) (x y p : ℕ) (qs : List ℕ)
    → ((j : ℕ) → x ≢ j → y ≢ j → link j tasks' ≡ link j tasks)
    → AllNe x (p ∷ qs)
    → AllNe y (p ∷ qs)
    → Queue tasks p qs
    → Queue tasks' p qs
Queue-frame tasks tasks' x y p [] k (a, _) (b, _) h = k p (λ e. a (sym e)) (λ e. b (sym e)) ∙ h
Queue-frame tasks tasks' x y p (q ∷ qs) k (a, nes) (b, bs) (l, h) =
    (k p (λ e. a (sym e)) (λ e. b (sym e)) ∙ l, Queue-frame tasks tasks' x y q qs k nes bs h)

-- `x` is put behind the last task of the queue.
pub Queue-append :
    (tasks tasks' : List (Option Task)) (x last p : ℕ) (qs : List ℕ)
    → ((j : ℕ) → last ≢ j → x ≢ j → link j tasks' ≡ link j tasks)
    → link x tasks' ≡ some none
    → link last tasks' ≡ some (some x)
    → link last tasks ≡ some none
    → last ≡ last_of p qs
    → AllNe x (p ∷ qs)
    → Queue tasks p qs
    → Queue tasks' p (qs ++ x ∷ [])
Queue-append tasks tasks' x last p [] k end new old e ne h =
    (subst (λ y. link y tasks' ≡ some (some x)) e new, end)
Queue-append tasks tasks' x last p (q ∷ qs) k end new old e (ne, nes) (l, h) = (
  k p (λ f. linked_twice (sym old ∙ ap (λ y. link y tasks) f ∙ l)) (λ f. ne (sym f)) ∙ l,
  Queue-append tasks tasks' x last q qs k end new old e nes h,
)

-- The loop to the end of the queue ends, with the last task.
pub queue_end_lem :
    (fuel : ℕ) (tasks : List (Option Task)) (p : ℕ) (qs : List ℕ)
    → length qs < fuel
    → Queue tasks p qs
    → queue_end fuel p tasks ≡ some (last_of p qs)
unfolding queue_end
queue_end_lem zero tasks p qs lt h = absurd (omega arith)
queue_end_lem (suc fuel) tasks p [] lt h =
    let (task, e, l) = at-some (λ task. task.wait_queue) (get_or tasks p none) none h in
    rw (e, queue_end) (rw (l) refl)
queue_end_lem (suc fuel) tasks p (q ∷ qs) lt (a, h) =
    let (task, e, l) = at-some (λ task. task.wait_queue) (get_or tasks p none) (some q) a in
    rw (e, queue_end, l) (queue_end_lem fuel tasks q qs (omega arith) h)

-- ===== src/Fs/Valid.antt =====
-- A table of descriptors that points only to nodes that are there, and runs that end in such a state.
pub mod Devices
pub mod Calls
pub mod Steps
use razos.Base.{
  ℕ, zero, suc, ◌+◌, ◌<◌, ◌≤◌, ◌≡◌, refl, ap, sym, ◌∙◌, arith, Bool, true, false, if◌then◌else◌,
  List, [], ◌∷◌, ◌++◌, Option, none, some, length, get_or, set, length-set, length-append,
}
use mathlib.Core.Path.{subst}
use razos.Fs.Kernel.{
  Kernel, VfsNode, Fildes, closed_file, Run, done, fault, blocked, Op, and_then, open_max, fildes,
  kmalloc, enomem,
}

-- No node, or one of `n`.
abbrev pub NodeIn : ℕ → Option ℕ → Type 0
NodeIn n none = Unit
NodeIn n (some i) = i < n

-- A table over a list of `n` nodes, and at least `least` of them.
pub record ValidTable (least : ℕ) (files : List Fildes) (n : ℕ) : Type 0 where
  pub whole : length files ≡ open_max
  pub many : least ≤ n
  pub in_list : (fd : ℕ) → NodeIn n (get_or files fd closed_file).vfs_node

-- The table has its 32 entries, every descriptor that is open points to a node of the list, and the list has at least
-- `least` nodes.
abbrev pub IsValid : ℕ → Kernel → Type 0
IsValid least k = ValidTable least k.files (length k.nodes)

NodeIn-weaken : (n m : ℕ) (o : Option ℕ) → n ≤ m → NodeIn n o → NodeIn m o
NodeIn-weaken n m none h v = tt
NodeIn-weaken n m (some i) h v = omega arith

NodeIn-set :
    (n : ℕ) (files : List Fildes) (fd : ℕ) (f : Fildes) (j : ℕ)
    → NodeIn n f.vfs_node
    → NodeIn n (get_or files j closed_file).vfs_node
    → NodeIn n (get_or (set files fd f) j closed_file).vfs_node
NodeIn-set n [] fd f j a b = b
NodeIn-set n (g ∷ files) zero f zero a b = a
NodeIn-set n (g ∷ files) zero f (suc j) a b = b
NodeIn-set n (g ∷ files) (suc fd) f zero a b = b
NodeIn-set n (g ∷ files) (suc fd) f (suc j) a b = NodeIn-set n files fd f j a b

pub ValidTable-set :
    {least : ℕ}
    → (files : List Fildes) (n fd : ℕ) (f : Fildes) → ValidTable least files n
    → NodeIn n f.vfs_node
    → ValidTable least (set files fd f) n
ValidTable-set files n fd f v a = record {
  whole = length-set files fd f ∙ v.whole;
  many = v.many;
  in_list = λ j. NodeIn-set n files fd f j a (v.in_list j);
}

pub ValidTable-more :
    {least : ℕ}
    → (files : List Fildes) (n m : ℕ) → n ≤ m
    → ValidTable least files n
    → ValidTable least files m
ValidTable-more files n m h v = record {
  whole = v.whole;
  many = omega (arith, v.many);
  in_list = λ j. NodeIn-weaken n m (get_or files j closed_file).vfs_node h (v.in_list j);
}

-- Another node in the place of one.
pub ValidTable-node :
    {least : ℕ}
    → (files : List Fildes) (nodes : List VfsNode) (i : ℕ) (m : VfsNode)
    → ValidTable least files (length nodes)
    → ValidTable least files (length (set nodes i m))
ValidTable-node {least} files nodes i m v =
    subst (ValidTable least files) (sym (length-set nodes i m)) v

pub ValidTable-append :
    {least : ℕ}
    → (files : List Fildes) (nodes : List VfsNode) (m : VfsNode)
    → ValidTable least files (length nodes)
    → ValidTable least files (length (nodes ++ (m ∷ [])))
ValidTable-append files nodes m v =
    ValidTable-more files (length nodes) (length (nodes ++ (m ∷ [])))
      (omega (arith, length-append nodes (m ∷ []))) v

-- The run stops at a fault, or its state is valid where it ends or waits.
pub data StaysValid {A : Type 0} (least : ℕ) : Run A → Type 0 where
  ends : {a : A} → {k : Kernel} → IsValid least k → StaysValid least (done a k)
  stops : StaysValid least fault
  waits : {k : Kernel} → IsValid least k → StaysValid least (blocked k)

module _ {A : Type 0} {least : ℕ} where
  pub if_valid :
      (b : Bool) (x y : Run A)
      → StaysValid least x
      → StaysValid least y
      → StaysValid least (if b then x else y)
  if_valid true x y p q = p
  if_valid false x y p q = q

  pub option_valid :
      {B : Type 0} (o : Option B) (x : Run A) (f : B → Run A)
      → StaysValid least x
      → ((b : B) → o ≡ some b → StaysValid least (f b))
      → StaysValid least (elim o [ none ↦ x | some b ↦ f b ])
  option_valid none x f p q = p
  option_valid (some b) x f p q = q b refl

  pub then_valid :
      {B : Type 0} (r : Run A) (f : A → Op B)
      → StaysValid least r
      → ((a : A) (k : Kernel) → IsValid least k → StaysValid least (f a k))
      → StaysValid least (and_then r f)
  then_valid (done a k) f (ends p) q = q a k p
  then_valid fault f p q = stops
  then_valid (blocked k) f (waits p) q = waits p

pub kmalloc-StaysValid : {least : ℕ} → (k : Kernel) → IsValid least k → StaysValid least (kmalloc k)
unfolding kmalloc
kmalloc-StaysValid {least} k v = by_heap k.heap
  where
    by_heap :
        (heap : List Bool)
        → StaysValid least (elim heap [
          | true ∷ rest ↦ done true (record k { heap = rest })
          | false ∷ rest ↦ done false (record k { heap = rest; errno = enomem })
          | [] ↦ done false (record k { errno = enomem })
        ])
    by_heap [] = ends v
    by_heap (true ∷ rest) = ends v
    by_heap (false ∷ rest) = ends v

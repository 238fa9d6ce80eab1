-- ===== src/Fs/Blocks.antt =====
-- Lists of 256-byte blocks, as ramfs.c and fifofs.c walk, read and write them.
pub mod Bytes
pub mod Write
use razos.Base.{
  ℕ, zero, suc, ◌+◌, ◌-◌, Bool, true, false, ltb, if◌then◌else◌, List, [], ◌∷◌, Option, none, some,
  get_or, set, length,
}
use razos.Fs.Kernel.{Block}
use mathlib.Core.Option

-- `for (i = 0; i < n; i++) curnode = curnode->next`: `none` is a step from NULL.
unfoldable pub walk : ℕ → List Block → Option (List Block)
walk zero chain = some chain
walk (suc n) [] = none
walk (suc n) (b ∷ chain) = walk n chain

-- The byte that a read finds first in the next block, and those behind it.
abbrev read_next : (List Block → Option (List ℕ)) → List Block → Option (List ℕ)
read_next more [] = none
read_next more (c ∷ cs) = Option.map (λ bytes. get_or c 0 0 ∷ bytes) (more (c ∷ cs))

-- Reads `left` bytes from `offset` of the first block on: at the end of a block to the next one, and
-- `none` where there is none.
unfoldable pub read_bytes : ℕ → ℕ → List Block → Option (List ℕ)
read_bytes zero offset chain = some []
read_bytes (suc left) offset [] = none
read_bytes (suc left) offset (b ∷ chain) =
    let here =
      Option.map (λ bytes. get_or b offset 0 ∷ bytes) (read_bytes left (offset + 1) (b ∷ chain)) in
    let next = read_next (read_bytes left 1) chain in if ltb offset 256 then here else next

-- The inner loop of a write: what it leaves in the block, and the bytes that did not fit.
unfoldable pub fill : ℕ → List ℕ → Block → Block × List ℕ
fill offset [] b = (b, [])
fill offset (x ∷ xs) b =
    if ltb offset 256 then fill (offset + 1) xs (set b offset x) else (b, x ∷ xs)

pub record Written : Type 0 where
  pub chain : List Block
  -- the bytes not written
  pub left : List ℕ
  pub heap : List Bool
  pub failed : Bool

abbrev pub in_front : Block → Written → Written
in_front b w = record w { chain = b ∷ w.chain }

-- The outer loop. After each block, also the last, a `fresh` block takes the place of what followed
-- it, if `kmalloc` succeeds.
unfoldable pub write_chain :
    (fresh : Block) → ℕ → ℕ → List ℕ → List Block → List Bool → Option Written
write_chain fresh fuel offset [] chain heap =
    some (record { chain = chain; left = []; heap = heap; failed = false })
write_chain fresh zero offset (x ∷ xs) chain heap = none
write_chain fresh (suc fuel) offset (x ∷ xs) [] heap = none
write_chain fresh (suc fuel) offset (x ∷ xs) (b ∷ rest) heap =
    let (b', left) = fill offset (x ∷ xs) b in
    elim heap [
      | true ∷ heap' ↦ Option.map (in_front b') (write_chain fresh fuel 0 left (fresh ∷ []) heap')
      | false ∷ heap' ↦ some (record { chain = b' ∷ []; left = left; heap = heap'; failed = true })
      | [] ↦ some (record { chain = b' ∷ []; left = left; heap = []; failed = true })
    ]

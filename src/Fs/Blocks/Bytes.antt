-- ===== src/Fs/Blocks/Bytes.antt =====
-- The bytes of a list of blocks, and what reads and writes do to them.
use razos.Base.{
  ℕ, zero, suc, ◌+◌, ◌<◌, ◌≤◌, ◌≡◌, ◌≢◌, refl, ap, ◌∙◌, arith, true, List, [], ◌∷◌, length, take,
  drop, get_or, set, some, ◌++◌, ltb, Bool-cases, inl, inr, length-append, length-set, drop-get_or,
  get_or-append_left, drop-append, take-set, drop-set, lt→ltb, take-append-drop,
}
use mathlib.Core.Option
use mathlib.Core.List.{append_assoc}
use razos.Fs.Kernel.{Block}
use razos.Fs.Blocks.{read_bytes, fill}

abbrev pub content : List Block → List ℕ
content [] = []
content (b ∷ chain) = b ++ content chain

abbrev pub AreBlocks : List Block → Type 0
AreBlocks [] = Unit
AreBlocks (b ∷ chain) = (length b ≡ 256) × AreBlocks chain

-- One byte more, from `i` on.
take-suc :
    (xs : List ℕ) (i n : ℕ)
    → i < length xs
    → get_or xs i 0 ∷ take n (drop (i + 1) xs) ≡ take (suc n) (drop i xs)
take-suc xs i n h = let e : i + 1 ≡ suc i = omega arith in rw (e, drop-get_or xs i 0 h) refl

first_byte :
    (b : Block) (rest : List ℕ) (offset n : ℕ)
    → offset < length b
    → get_or b offset 0 ∷ take n (drop (offset + 1) (b ++ rest))
      ≡ take (suc n) (drop offset (b ++ rest))
first_byte b rest offset n h =
    rw (← get_or-append_left b rest offset 0 h)
      (take-suc (b ++ rest) offset n (omega (arith, length-append b rest)))

-- Behind the 256 bytes of a block the next one begins.
drop-block : (b : Block) (rest : List ℕ) → length b ≡ 256 → drop 256 (b ++ rest) ≡ rest
drop-block b rest h = let e : 256 ≡ length b + 0 = omega arith in rw e (drop-append b rest 0)

-- A read inside the blocks gives the bytes that stand there, across the ends of blocks.
pub read_bytes_lem :
    (left offset : ℕ) (chain : List Block)
    → AreBlocks chain
    → offset ≤ 256
    → offset + left ≤ length (content chain)
    → read_bytes left offset chain ≡ some (take left (drop offset (content chain)))
unfolding read_bytes
read_bytes_lem zero offset chain a o h = refl
read_bytes_lem (suc left) offset [] a o h = absurd (omega arith)
read_bytes_lem (suc left) offset (b ∷ []) a o h =
    let e : ltb offset 256 ≡ true = lt→ltb _ _ (omega (arith, length-append b [])) in
    rw (e, read_bytes)
      (ap (Option.map (λ bytes. get_or b offset 0 ∷ bytes))
          (read_bytes_lem left (offset + 1) (b ∷ []) a (ground arith) (omega arith))
        ∙ ap some (first_byte b [] offset left (ground arith)))
read_bytes_lem (suc left) offset (b ∷ c ∷ cs) a o h = elim (Bool-cases (ltb offset 256)) [
  | inl e ↦
      rw (e, read_bytes)
        (ap (Option.map (λ bytes. get_or b offset 0 ∷ bytes))
            (read_bytes_lem left (offset + 1) (b ∷ c ∷ cs) a (ground arith) (omega arith))
          ∙ ap some (first_byte b (content (c ∷ cs)) offset left (ground arith)))
  | inr e ↦
      (let full : offset ≡ 256 = ground arith in
        rw (e, read_bytes)
          (ap (Option.map (λ bytes. get_or c 0 0 ∷ bytes)) (
              read_bytes_lem left 1 (c ∷ cs) a.1 (omega arith)
                (omega (arith, length-append b (content (c ∷ cs)))))
            ∙ ap some (first_byte c (content cs) 0 left (omega arith))
            ∙ rw (full, drop-block b (content (c ∷ cs)) a.0) refl))
]

-- What `fill` leaves: the bytes `ys` that fit, from `offset` on, and the rest of the block. If bytes
-- are left, the block is full.
pub record Filled (offset : ℕ) (data' : List ℕ) (b : Block) (out : Block × List ℕ) (ys : List ℕ)
    : Type 0 where
  pub split : data' ≡ ys ++ out.1
  pub size : length out.0 ≡ 256
  pub bytes : out.0 ≡ take offset b ++ (ys ++ drop (offset + length ys) b)
  pub full : out.1 ≢ [] → 256 ≤ offset + length ys

fill-cons :
    (offset x : ℕ) (ys : List ℕ) (b : Block)
    → offset < length b
    → take (offset + 1) (set b offset x) ++ (ys ++ drop (offset + 1 + length ys) (set b offset x))
      ≡ take offset b ++ (x ∷ ys ++ drop (offset + length (x ∷ ys)) b)
fill-cons offset x ys b h =
    let one : offset + 1 ≡ suc offset = omega arith in
    let end : suc offset + length ys ≡ offset + length (x ∷ ys) = omega arith in
    rw
      (
        one,
        take-set b offset x h,
        end,
        drop-set b offset (offset + length (x ∷ ys)) x (omega arith),
      )
      (append_assoc (take offset b) (x ∷ []) (ys ++ drop (offset + length (x ∷ ys)) b))

pub fill_lem :
    (offset : ℕ) (xs : List ℕ) (b : Block)
    → offset ≤ 256
    → length b ≡ 256
    → (ys : List ℕ) × Filled offset xs b (fill offset xs b) ys
unfolding fill
fill_lem offset [] b o h = (
  [],
  record {
    split = refl;
    size = h;
    bytes = let e : offset + 0 ≡ offset = omega arith in rw (e, take-append-drop offset b);
    full = λ ne. absurd (ne refl);
  },
)
fill_lem offset (x ∷ xs) b o h = elim (Bool-cases (ltb offset 256)) [
  | inl e ↦
      (let (ys, f) =
          fill_lem (offset + 1) xs (set b offset x) (ground arith) (length-set b offset x ∙ h) in
        (
          x ∷ ys,
          rw (e, fill)
              (record {
                split = ap (λ zs. x ∷ zs) f.split;
                size = f.size;
                bytes = f.bytes ∙ fill-cons offset x ys b (ground arith);
                full = λ ne. omega (arith, f.full ne);
              }),
        ))
  | inr e ↦ (
    [],
    rw (e, fill)
        (record {
          split = refl;
          size = h;
          bytes = let e' : offset + 0 ≡ offset = omega arith in rw (e', take-append-drop offset b);
          full = λ ne. ground arith;
        }),
  )
]

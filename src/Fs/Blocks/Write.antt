-- ===== src/Fs/Blocks/Write.antt =====
-- What the loops of a write leave in the blocks.
use razos.Base.{
  ℕ, zero, suc, ◌+◌, ◌<◌, ◌≤◌, ◌≡◌, ◌≢◌, refl, sym, ap, ◌∙◌, arith, Bool, true, false, List, [],
  ◌∷◌, length, take, drop, some, ◌++◌, length-append, take-append-drop, drop_all,
}
use mathlib.Core.Option
use mathlib.Core.Path.{ap₂}
use mathlib.Core.List.{append_assoc, append-nil}
use razos.Fs.Kernel.{Block}
use razos.Fs.Blocks.{fill, Written, write_chain, in_front}
use razos.Fs.Blocks.Bytes.{content, AreBlocks, Filled, fill_lem}

-- After a write to `chain` from `offset` of its block `b` on: of the bytes given, `ys` were written, and
-- they stand behind the first `offset` bytes of the block; unless `kmalloc` failed, those were all.
pub record Wrote (offset : ℕ) (given : List ℕ) (b : Block) (w : Written) (ys tail : List ℕ)
    : Type 0 where
  pub split : given ≡ ys ++ w.left
  pub blocks : AreBlocks w.chain
  pub bytes : content w.chain ≡ take offset b ++ (ys ++ tail)
  pub finished : w.failed ≡ false → w.left ≡ []

append-nil_left : (ys zs : List ℕ) → [] ≡ ys ++ zs → (ys ≡ []) × (zs ≡ [])
append-nil_left [] zs h = (refl, sym h)
append-nil_left (y ∷ ys) zs h = cc

-- A full block, or the last, in front of what was written behind it.
Wrote-next :
    (offset : ℕ) (given : List ℕ) (b fresh : Block) (b' : Block) (left ys : List ℕ) (w : Written)
    (zs tail : List ℕ)
    → length b ≡ 256
    → Filled offset given b (b', left) ys
    → Wrote 0 left fresh w zs tail
    → (tail' : List ℕ) × Wrote offset given b (in_front b' w) (ys ++ zs) tail'
Wrote-next offset given b fresh b' [] ys w zs tail hb f r =
    let (none_written, _) = append-nil_left zs w.left r.split in
    (
      drop (offset + length ys) b ++ tail,
      record {
        split = f.split ∙ (ap (λ l. ys ++ l) r.split ∙ sym (append_assoc ys zs w.left));
        blocks = (f.size, r.blocks);
        bytes = ap₂ ◌++◌ f.bytes r.bytes ∙ rw none_written (simp (append_assoc, append-nil));
        finished = r.finished;
      },
    )
Wrote-next offset given b fresh b' (x ∷ left) ys w zs tail hb f r =
    let full : 256 ≤ offset + length ys = f.full (λ e. cc) in
    let rest : drop (offset + length ys) b ≡ [] = drop_all b (offset + length ys) (omega arith) in
    (
      tail,
      record {
        split = f.split ∙ (ap (λ l. ys ++ l) r.split ∙ sym (append_assoc ys zs w.left));
        blocks = (f.size, r.blocks);
        bytes = ap₂ ◌++◌ f.bytes r.bytes ∙ rw rest (simp (append_assoc, append-nil));
        finished = r.finished;
      },
    )

-- A write stops at `kmalloc`'s failure with the block it has filled.
Wrote-last :
    (offset : ℕ) (given : List ℕ) (b b' : Block) (left ys : List ℕ) (heap : List Bool)
    → Filled offset given b (b', left) ys
    → Wrote offset given b
        (record { chain = b' ∷ []; left = left; heap = heap; failed = true })
        ys
        (drop (offset + length ys) b)
Wrote-last offset given b b' left ys heap f = record {
  split = f.split;
  blocks = (f.size, tt);
  bytes = append-nil b' ∙ f.bytes;
  finished = λ e. cc;
}

left-length :
    (offset n : ℕ) (given left ys : List ℕ)
    → given ≡ ys ++ left
    → (left ≢ [] → 256 ≤ offset + length ys)
    → offset < 256
    → length given ≤ suc n
    → length left ≤ n
left-length offset n given [] ys s full o h = omega arith
left-length offset n given (x ∷ left) ys s full o h =
    omega (arith, full (λ e. cc), ap length s, length-append ys (x ∷ left))

-- With a step of fuel for each byte a write from inside a block always ends.
pub write_chain_lem :
    (fresh : Block) (fuel offset : ℕ) (given : List ℕ) (b : Block) (rest : List Block)
    (heap : List Bool)
    → length fresh ≡ 256
    → length given ≤ fuel
    → offset < 256
    → AreBlocks (b ∷ rest)
    → (w : Written) × (write_chain fresh fuel offset given (b ∷ rest) heap ≡ some w)
      × (ys : List ℕ) × (tail : List ℕ) × Wrote offset given b w ys tail
unfolding write_chain
write_chain_lem fresh fuel offset [] b rest heap hf h o a = (
  record { chain = b ∷ rest; left = []; heap = heap; failed = false },
  refl,
  [],
  drop offset b ++ content rest,
  record {
    split = refl;
    blocks = a;
    bytes =
        ap (λ l. l ++ content rest) (sym (take-append-drop offset b))
        ∙ append_assoc (take offset b) (drop offset b) (content rest);
    finished = λ e. refl;
  },
)
write_chain_lem fresh zero offset (x ∷ xs) b rest heap hf h o a = absurd (omega arith)
write_chain_lem fresh (suc fuel) offset (x ∷ xs) b rest [] hf h o a =
    let (ys, f) = fill_lem offset (x ∷ xs) b (omega arith) a.0 in
    let out = fill offset (x ∷ xs) b in
    (
      record { chain = out.0 ∷ []; left = out.1; heap = []; failed = true },
      refl,
      ys,
      drop (offset + length ys) b,
      Wrote-last offset (x ∷ xs) b out.0 out.1 ys [] f,
    )
write_chain_lem fresh (suc fuel) offset (x ∷ xs) b rest (false ∷ heap) hf h o a =
    let (ys, f) = fill_lem offset (x ∷ xs) b (omega arith) a.0 in
    let out = fill offset (x ∷ xs) b in
    (
      record { chain = out.0 ∷ []; left = out.1; heap = heap; failed = true },
      refl,
      ys,
      drop (offset + length ys) b,
      Wrote-last offset (x ∷ xs) b out.0 out.1 ys heap f,
    )
write_chain_lem fresh (suc fuel) offset (x ∷ xs) b rest (true ∷ heap) hf h o a =
    let (ys, f) = fill_lem offset (x ∷ xs) b (omega arith) a.0 in
    let out = fill offset (x ∷ xs) b in
    let n = left-length offset fuel (x ∷ xs) out.1 ys f.split f.full o h in
    let (w, e, zs, tail, r) =
      write_chain_lem fresh fuel 0 out.1 fresh [] heap hf n (omega arith) (hf, tt) in
    let (tail', r') = Wrote-next offset (x ∷ xs) b fresh out.0 out.1 ys w zs tail a.0 f r in
    (in_front out.0 w, ap (Option.map (in_front out.0)) e, ys ++ zs, tail', r')

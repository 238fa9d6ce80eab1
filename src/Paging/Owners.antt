-- ===== src/Paging/Owners.antt =====
-- Frames that are given out and given back, in kernel/src/mm/paging.c.
use razos.Base.{
  ℕ, ◌*◌, ◌<◌, ◌≡◌, ◌≢◌, ap, ◌∙◌, sym, arith, Bool, true, false, ◌==◌, if◌then◌else◌, inl, inr,
  Bool-cases,
}
use razos.Paging.{Paging, used, frame_alloc, frame_free}
use razos.Paging.Frames.{IsBitmap, managed}
use razos.Paging.Alloc.{Given, frame_alloc_lem, alloc-IsBitmap, alloc-managed, free_lem}

-- What a set of owners holds: frames that `frame_alloc` gave them, and that they have not freed.
pub data Holds : Paging → (ℕ → Bool) → Type 0 where
  holds_none : (s : Paging) → IsBitmap s → Holds s (λ f. false)
  takes :
      {s : Paging} {owned : ℕ → Bool} (f : ℕ)
      → Holds s owned
      → (frame_alloc s).0 ≢ 0
      → (frame_alloc s).0 ≡ f * 4_096
      → Holds (frame_alloc s).1 (λ g. if g == f then true else owned g)
  misses :
      {s : Paging} {owned : ℕ → Bool}
      → Holds s owned
      → (frame_alloc s).0 ≡ 0
      → Holds (frame_alloc s).1 owned
  gives :
      {s : Paging} {owned : ℕ → Bool} (f : ℕ)
      → Holds s owned
      → owned f ≡ true
      → Holds (frame_free (f * 4_096) s) (λ g. if g == f then false else owned g)

record Safe (s : Paging) (owned : ℕ → Bool) : Type 0 where
  bitmap : IsBitmap s
  marked : (f : ℕ) → owned f ≡ true → (f < managed s) × (used s.frames f ≡ true)

frame_alloc-Given :
    (s : Paging) (f : ℕ)
    → IsBitmap s
    → (frame_alloc s).0 ≢ 0
    → (frame_alloc s).0 ≡ f * 4_096
    → Given s (frame_alloc s) f
frame_alloc-Given s f w ne e = elim (frame_alloc_lem s w) [
  | inl (run, all) ↦ absurd (ne (ap (λ r. r.0) run))
  | inr (g, given) ↦ (let same : g ≡ f = omega (arith, given.address) in rw (← same) given)
]

-- A frame that is marked stays marked when another one is given out.
keeps_marked :
    (s : Paging) (f : ℕ)
    → IsBitmap s
    → used s.frames f ≡ true
    → used (frame_alloc s).1.frames f ≡ true
keeps_marked s f w u = elim (frame_alloc_lem s w) [
  | inl (run, all) ↦ rw run u
  | inr (g, given) ↦ elim (Bool-cases (f == g)) [
    | inl e ↦ (let same : f ≡ g = ground arith in rw same given.now_used)
    | inr e ↦ (let ne : f ≢ g = ground arith in given.others f ne ∙ u)
  ]
]

otherwise : (t b o : Bool) → b ≡ false → (if b then t else o) ≡ true → o ≡ true
otherwise t false o e h = h
otherwise t true o e h = absurd (ground arith)

clash : true ≡ false → ⊥
clash e = ground arith

freed_managed : (s : Paging) (f g : ℕ) → g < managed s → g < managed (frame_free (f * 4_096) s)
unfolding frame_free
freed_managed s f g h = h

Holds-Safe : {s : Paging} {owned : ℕ → Bool} → Holds s owned → Safe s owned
Holds-Safe (holds_none s w) = record { bitmap = w; marked = λ f e. absurd (ground arith) }
Holds-Safe (takes {s} {owned} f h ne e) =
    let safe = Holds-Safe h in
    let given = frame_alloc-Given s f safe.bitmap ne e in
    let size = alloc-managed s safe.bitmap in
    record {
      bitmap = alloc-IsBitmap s safe.bitmap;
      marked = λ g o. elim (Bool-cases (g == f)) [
        | inl q ↦
            (let same : g ≡ f = ground arith in rw (same, size) (given.in_range, given.now_used))
        | inr q ↦
            (let before : owned g ≡ true = otherwise true (g == f) (owned g) q o in
              rw size
                ((safe.marked g before).0, keeps_marked s g safe.bitmap (safe.marked g before).1))
      ];
    }
Holds-Safe (misses {s} {owned} h e) =
    let safe = Holds-Safe h in
    let size = alloc-managed s safe.bitmap in
    record {
      bitmap = alloc-IsBitmap s safe.bitmap;
      marked =
          λ g o. rw size ((safe.marked g o).0, keeps_marked s g safe.bitmap (safe.marked g o).1);
    }
Holds-Safe (gives {s} {owned} f h o) =
    let safe = Holds-Safe h in
    let (bitmap, self, other) = free_lem s f safe.bitmap (safe.marked f o).0 in
    record {
      bitmap = bitmap;
      marked = λ g q. elim (Bool-cases (g == f)) [
        | inl e ↦ absurd (ground arith)
        | inr e ↦
            (let ne : g ≢ f = ground arith in
              let (lt, u) = safe.marked g (otherwise false (g == f) (owned g) e q) in
              (freed_managed s f g lt, other g ne ∙ u))
      ];
    }

-- However frames are given out and given back by their owners, starting with none: a frame that
-- `frame_alloc` gives out is not owned at that time, and every owned frame stays marked as used.
pub Holds-exclusive :
    (s : Paging) (owned : ℕ → Bool) (f : ℕ)
    → Holds s owned
    → (frame_alloc s).0 ≢ 0
    → (frame_alloc s).0 ≡ f * 4_096
    → (owned f ≡ false) × ((g : ℕ) → owned g ≡ true → used (frame_alloc s).1.frames g ≡ true)
Holds-exclusive s owned f h ne e =
    let safe = Holds-Safe h in
    let given = frame_alloc-Given s f safe.bitmap ne e in
    (
      elim (Bool-cases (owned f)) [
        | inl o ↦ absurd (clash (sym (safe.marked f o).1 ∙ given.was_free))
        | inr o ↦ o
      ],
      λ g o. keeps_marked s g safe.bitmap (safe.marked g o).1,
    )

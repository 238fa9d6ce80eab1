-- ===== src/Paging/Alloc.antt =====
-- What `frame_alloc` and `frame_free` of kernel/src/mm/paging.c do to the set of used frames.
use razos.Base.{
  ℕ, ◌*◌, ◌/◌, ◌%◌, ◌^◌, ◌<◌, ◌≡◌, ◌≢◌, ◌⊎◌, refl, ap, ◌∙◌, sym, arith, Bool, true, false, ◌==◌,
  List, [], get_or, set, length, neg_one, inl, inr, Bool-cases, get_or-set_self, get_or-set_ne,
  length-set,
}
use razos.Fs.Kernel.{enomem}
use razos.Paging.{
  Paging, used, set_frame, clear_frame, find_free_frame, frame_alloc, frame_free, mark, address_of,
}
use razos.Paging.Frames.{IsBitmap, managed, AllUsed, Found, free_from_lem}

-- What `mark` does to the set.
mark-used :
    (b : Bool) (frames : List (List Bool)) (f : ℕ)
    → f / 32 < length frames
    → length (get_or frames (f / 32) []) ≡ 32
    → (used (mark b frames f) f ≡ b) × ((g : ℕ) → g ≢ f → used (mark b frames f) g ≡ used frames g)
unfolding used
mark-used b frames f h w =
    let word = get_or frames (f / 32) [] in
    let outer = get_or-set_self frames (f / 32) (set word (f % 32) b) [] h in
    (
      rw outer (get_or-set_self word (f % 32) b false (omega arith)),
      λ g ne. elim (Bool-cases (g / 32 == f / 32)) [
        | inl e ↦
            (let same : g / 32 ≡ f / 32 = ground arith in
              rw (same, outer)
                (get_or-set_ne word (f % 32) (g % 32) b false (λ q. ne (omega arith))))
        | inr e ↦
            (let other : f / 32 ≢ g / 32 = ground arith in
              rw (get_or-set_ne frames (f / 32) (g / 32) (set word (f % 32) b) [] other) refl)
      ],
    )

mark-IsBitmap :
    (b : Bool) (s : Paging) (f : ℕ)
    → IsBitmap s
    → IsBitmap (record s { frames = mark b s.frames f })
mark-IsBitmap b s f w = record {
  words = λ i h. elim (Bool-cases (i == f / 32)) [
    | inl e ↦
        (let same : i ≡ f / 32 = ground arith in
          let in_range : f / 32 < length s.frames = omega (arith, w.size) in
          rw
            (
              same,
              get_or-set_self s.frames (f / 32) (set (get_or s.frames (f / 32) []) (f % 32) b) []
                  in_range,
              length-set (get_or s.frames (f / 32) []) (f % 32) b,
              ← same,
            )
            (w.words i h))
    | inr e ↦
        (let other : f / 32 ≢ i = ground arith in
          rw
            (get_or-set_ne s.frames (f / 32) i (set (get_or s.frames (f / 32) []) (f % 32) b) []
              other)
            (w.words i h))
  ];
  size = rw (length-set s.frames (f / 32) (set (get_or s.frames (f / 32) []) (f % 32) b)) w.size;
  range = w.range;
}

-- What a frame that was given out is, and what the bitmap holds then.
pub record Given (s : Paging) (out : ℕ × Paging) (f : ℕ) : Type 0 where
  pub address : out.0 ≡ f * 4_096
  pub in_range : f < managed s
  pub was_free : used s.frames f ≡ false
  pub now_used : used out.1.frames f ≡ true
  pub others : (g : ℕ) → g ≢ f → used out.1.frames g ≡ used s.frames g
  pub first : AllUsed s.frames 0 f

alloc_found :
    (s : Paging) (f : ℕ)
    → find_free_frame s ≡ f * 4_096
    → f < 2 ^ 20
    → frame_alloc s ≡ (f * 4_096, record s { frames = mark true s.frames f })
unfolding frame_alloc set_frame
alloc_found s f e h =
    let not_last : (f * 4_096 == neg_one) ≡ false = ground arith in
    let frame : f * 4_096 / 4_096 ≡ f = omega arith in rw (e, not_last, frame) refl

alloc_none :
    (s : Paging) → find_free_frame s ≡ neg_one → frame_alloc s ≡ (0, record s { errno = enomem })
unfolding frame_alloc
alloc_none s e = rw e refl

alloc_cases :
    (s : Paging)
    → IsBitmap s
    → ((frame_alloc s ≡ (0, record s { errno = enomem })) × AllUsed s.frames 0 (managed s))
      ⊎ ((f : ℕ) × (frame_alloc s ≡ (f * 4_096, record s { frames = mark true s.frames f }))
          × (f < managed s)
          × (used s.frames f ≡ false)
          × AllUsed s.frames 0 f)
unfolding find_free_frame Found
alloc_cases s w =
    elim (free_from_lem (s.memsize / 32) 0 s.frames (λ k h. w.words k (omega arith))) [
      | inl (r, all) ↦
          inl (alloc_none s (ap address_of r), λ f a b. all f (omega arith) (omega arith))
      | inr (f, r, a, b, off, first) ↦
          (let small : f < 2 ^ 20 = omega (arith, w.range) in
            let fits : f * 4_096 % 2 ^ 32 ≡ f * 4_096 = omega arith in
            inr (
              f,
              alloc_found s f (ap address_of r ∙ fits) small,
              omega arith,
              off,
              λ g c d. first g (omega arith) d,
            ))
    ]

-- With a bitmap of enough words, `frame_alloc` gives out the first frame that is not used, marks
-- it, and changes no other; if every frame is used it returns 0 with ENOMEM and changes nothing else.
pub frame_alloc_lem :
    (s : Paging)
    → IsBitmap s
    → ((frame_alloc s ≡ (0, record s { errno = enomem })) × AllUsed s.frames 0 (managed s))
      ⊎ ((f : ℕ) × Given s (frame_alloc s) f)
frame_alloc_lem s w = elim (alloc_cases s w) [
  | inl full ↦ inl full
  | inr (f, run, lt, off, first) ↦
      (let (self, other) =
          mark-used true s.frames f (omega (arith, w.size)) (w.words (f / 32) (omega arith)) in
        inr (
          f,
          rw run (record {
            address = refl;
            in_range = lt;
            was_free = off;
            now_used = self;
            others = other;
            first = first;
          }),
        ))
]

pub alloc-IsBitmap : (s : Paging) → IsBitmap s → IsBitmap (frame_alloc s).1
alloc-IsBitmap s w = elim (alloc_cases s w) [
  | inl (run, all) ↦ rw run (record { words = w.words; size = w.size; range = w.range })
  | inr (f, run, lt, off, first) ↦ rw run (mark-IsBitmap true s f w)
]

pub alloc-managed : (s : Paging) → IsBitmap s → managed (frame_alloc s).1 ≡ managed s
alloc-managed s w = elim (alloc_cases s w) [
  | inl (run, all) ↦ rw run refl
  | inr (f, run, lt, off, first) ↦ rw run refl
]

pub free_lem :
    (s : Paging) (f : ℕ)
    → IsBitmap s
    → f < managed s
    → let s' = frame_free (f * 4_096) s in
      IsBitmap s'
      × (used s'.frames f ≡ false)
      × ((g : ℕ) → g ≢ f → used s'.frames g ≡ used s.frames g)
unfolding frame_free clear_frame
free_lem s f w h =
    let frame : f * 4_096 / 4_096 ≡ f = omega arith in
    let (self, other) =
      mark-used false s.frames f (omega (arith, w.size)) (w.words (f / 32) (omega arith)) in
    rw frame (mark-IsBitmap false s f w, self, other)

-- If `frame_alloc` gives a frame out, `frame_free` of its address brings back the set of used frames.
pub frame_alloc-frame_free :
    (s : Paging) (f : ℕ)
    → IsBitmap s
    → Given s (frame_alloc s) f
    → let (addr, s') = frame_alloc s in
      (g : ℕ) → used (frame_free addr s').frames g ≡ used s.frames g
frame_alloc-frame_free s f w given g =
    let s' = (frame_alloc s).1 in
    let in_range : f < managed s' = rw (alloc-managed s w) given.in_range in
    let (bitmap, self, other) = free_lem s' f (alloc-IsBitmap s w) in_range in
    rw given.address (elim (Bool-cases (g == f)) [
      | inl e ↦ (let same : g ≡ f = ground arith in rw same (self ∙ sym given.was_free))
      | inr e ↦ (let ne : g ≢ f = ground arith in other g ne ∙ given.others g ne)
    ])

-- ===== src/Paging/Tests.antt =====
-- Runs of kernel/src/mm/paging.c, and its theorems at concrete inputs.
use razos.Base.{
  Bool, ◌==◌, sym, ◌∙◌, ℕ, zero, suc, ◌+◌, ◌-◌, ◌*◌, ◌/◌, ◌%◌, ◌<◌, ◌≡◌, ◌≢◌, ◌⊎◌, refl, arith,
  true, false, if◌then◌else◌, [], ◌∷◌, Option, none, some, inl, inr, get_or, replicate, length,
}
use razos.Fs.Kernel.{clear, enomem, has}
use razos.Paging.{
  PageDir, Paging, empty_entry, used, not_full, free_bit, free_from, find_free_frame, frame_alloc,
  frame_free, set_frame, clear_frame, empty_page, get_used_frames, page_map, get_phys, pf_pres,
  pf_rw,
}
use razos.Paging.Frames.{IsBitmap, AllUsed}
use razos.Paging.Alloc.{Given, frame_alloc_lem, frame_alloc-frame_free}
use razos.Paging.Owners.{Holds, holds_none, takes, gives, Holds-exclusive}
use razos.Paging.Pages.{IsDir}
use razos.Paging.Mapping.{page_map-get_phys}

-- 64 frames, the first 33 in use, and memory for one page table.
abbrev small_memory : Paging
small_memory = record {
  frames = replicate 32 true ∷ (true ∷ replicate 31 false) ∷ [];
  memsize = 64;
  tabs = λ t. [];
  heap = some 0x0040_0000 ∷ [];
  errno = clear;
}

small_memory-IsBitmap : IsBitmap small_memory
small_memory-IsBitmap = record { words = words; size = omega arith; range = omega arith }
  where
    words : (i : ℕ) → i < 2 → length (get_or small_memory.frames i []) ≡ 32
    words zero h = refl
    words (suc zero) h = refl
    words (suc (suc i)) h = absurd (omega arith)

frame_alloc_example :
    ((frame_alloc small_memory ≡ (0, record small_memory { errno = enomem }))
      × AllUsed small_memory.frames 0 64)
    ⊎ ((f : ℕ) × Given small_memory (frame_alloc small_memory) f)
frame_alloc_example = frame_alloc_lem small_memory small_memory-IsBitmap

gives_33 : (frame_alloc small_memory).0 ≡ 33 * 4_096
unfolding frame_alloc find_free_frame free_from free_bit not_full
gives_33 = refl

unused_33 : used small_memory.frames 33 ≡ false
unfolding used
unused_33 = refl

frame_33-Given : Given small_memory (frame_alloc small_memory) 33
frame_33-Given = elim frame_alloc_example [
  | inl (run, all) ↦ absurd (ground (arith, unused_33, all 33 (omega arith) (omega arith)))
  | inr (f, given) ↦
      (let same : f ≡ 33 = omega (arith, gives_33, given.address) in rw (← same) given)
]

frame_alloc-frame_free_example :
    let (addr, s') = frame_alloc small_memory in
    (g : ℕ) → used (frame_free addr s').frames g ≡ used small_memory.frames g
frame_alloc-frame_free_example =
    frame_alloc-frame_free small_memory 33 small_memory-IsBitmap frame_33-Given

not_none : (frame_alloc small_memory).0 ≢ 0
not_none = λ e. omega (arith, e, gives_33)

-- Frames 33 and 34 are taken, and 33 is given back.
abbrev after_one : Paging
after_one = (frame_alloc small_memory).1

abbrev after_two : Paging
after_two = (frame_alloc after_one).1

abbrev given_back : Paging
given_back = frame_free (33 * 4_096) after_two

abbrev owns_33 : ℕ → Bool
owns_33 g = if g == 33 then true else false

abbrev owns_both : ℕ → Bool
owns_both g = if g == 34 then true else owns_33 g

abbrev owns_34 : ℕ → Bool
owns_34 g = if g == 33 then false else owns_both g

gives_34 : (frame_alloc after_one).0 ≡ 34 * 4_096
unfolding frame_alloc find_free_frame free_from free_bit not_full set_frame
gives_34 = refl

gives_33_again : (frame_alloc given_back).0 ≡ 33 * 4_096
unfolding frame_alloc find_free_frame free_from free_bit not_full set_frame frame_free clear_frame
gives_33_again = refl

given_back-Holds : Holds given_back owns_34
given_back-Holds =
    gives 33
      (takes 34 (takes 33 (holds_none small_memory small_memory-IsBitmap) not_none gives_33)
        (λ e. omega (arith, e, gives_34)) gives_34)
      refl

Holds-exclusive_example : (owns_34 33 ≡ false) × (used (frame_alloc given_back).1.frames 34 ≡ true)
Holds-exclusive_example =
    let (free, marked) =
      Holds-exclusive given_back owns_34 33 given_back-Holds (λ e. omega (arith, e, gives_33_again))
        gives_33_again in
    (free, marked 34 refl)

-- 33 frames are in use, but only the lowest bit of each word is counted.
counts_words : get_used_frames small_memory ≡ 2
unfolding get_used_frames
counts_words = refl

-- A directory with one table, and a memory whose tables are empty.
abbrev no_pointer : Option ℕ
no_pointer = none

abbrev table_dir : PageDir
table_dir = record {
  tables = none ∷ some 0x0060_0000 ∷ replicate 1_022 no_pointer;
  tables_phys = replicate 1_024 empty_entry;
}

abbrev table_memory : Paging
table_memory = record small_memory { tabs = λ t. replicate 1_024 empty_page; heap = [] }

no_table : (n i : ℕ) → get_or (replicate n no_pointer) i none ≡ none
no_table zero i = refl
no_table (suc n) zero = refl
no_table (suc n) (suc i) = no_table n i

only_table : (i t : ℕ) → get_or table_dir.tables i none ≡ some t → i ≡ 1
only_table zero t e = absurd (ground arith)
only_table (suc zero) t e = refl
only_table (suc (suc i)) t e = absurd (ground (arith, no_table 1_022 i))

table_dir-IsDir : IsDir table_dir table_memory
table_dir-IsDir = record {
  size = refl;
  sizes = λ i t e. refl;
  distinct = λ i j t e e'. only_table i t e ∙ sym (only_table j t e');
}

page_map-get_phys_example :
    let m = page_map 0x0050_0123 0x0002_1000 (pf_pres + pf_rw) table_dir table_memory in
    (m.ret ≡ 0x0050_0123 - 0x0050_0123 % 4_096)
    × IsDir m.dir m.state
    × (0x0050_0FFF / 4_096 ≡ 0x0050_0123 / 4_096
        → get_phys 0x0050_0FFF m.dir m.state ≡ (
            if has (pf_pres + pf_rw) pf_pres
            then 0x0002_1000 / 4_096 * 4_096 + 0x0050_0FFF % 4_096
            else 0))
    × (0x0050_0FFF / 4_096 ≢ 0x0050_0123 / 4_096
        → get_phys 0x0050_0FFF m.dir m.state ≡ get_phys 0x0050_0FFF table_dir table_memory)
page_map-get_phys_example =
    page_map-get_phys 0x0050_0123 0x0002_1000 (pf_pres + pf_rw) 0x0050_0FFF 0x0060_0000 table_dir
      table_memory table_dir-IsDir refl (omega arith) (omega arith)

-- ===== src/Paging.antt =====
-- The page frames and page tables of kernel/src/mm/paging.c. A page table is named by its virtual
-- address. A bit field, or a bit of a word of `frames`, is a Boolean, and such a word is the list of its 32 bits,
-- the lowest first. Flushing the TLB is left out.
pub mod Frames
pub mod Alloc
pub mod Owners
pub mod Pages
pub mod Tables
pub mod Mapping
mod Tests
use razos.Base.{
  ℕ, zero, suc, ◌+◌, ◌-◌, ◌*◌, ◌/◌, ◌%◌, ◌^◌, Bool, true, false, not, ◌&&◌, ◌||◌, ◌==◌,
  if◌then◌else◌, List, [], ◌∷◌, Option, none, some, get_or, set, replicate, neg_one,
}
use razos.Fs.Kernel.{Errno, enomem, has}
use mathlib.Core.Option

-- paging.h
abbrev pub pf_pres : ℕ
pf_pres = 1

abbrev pub pf_rw : ℕ
pf_rw = 2

abbrev pub pf_user : ℕ
pf_user = 4

abbrev pub pf_wtc : ℕ
pf_wtc = 8

abbrev pub pf_noc : ℕ
pf_noc = 16

abbrev pub pf_acc : ℕ
pf_acc = 32

abbrev pub pf_dirty : ℕ
pf_dirty = 64

abbrev pub pf_glo : ℕ
pf_glo = 256

abbrev pub page_size : ℕ
page_size = 4_096

-- `struct page_t`: `writable` is the field `rw`; the field `zero` is always 0.
pub record Page : Type 0 where
  pub present : Bool
  pub writable : Bool
  pub user : Bool
  pub wt_caching : Bool
  pub nocache : Bool
  pub accessed : Bool
  pub dirty : Bool
  pub global : Bool
  pub frame : ℕ

abbrev pub empty_page : Page
empty_page = record {
  present = false;
  writable = false;
  user = false;
  wt_caching = false;
  nocache = false;
  accessed = false;
  dirty = false;
  global = false;
  frame = 0;
}

-- `struct pg_dir_entry_t`, with `writable` for `rw`; its fields `zero` and `size` are always 0.
pub record DirEntry : Type 0 where
  pub present : Bool
  pub writable : Bool
  pub user : Bool
  pub wt_caching : Bool
  pub nocache : Bool
  pub accessed : Bool
  pub global : Bool
  pub table : ℕ

abbrev pub empty_entry : DirEntry
empty_entry = record {
  present = false;
  writable = false;
  user = false;
  wt_caching = false;
  nocache = false;
  accessed = false;
  global = false;
  table = 0;
}

-- `struct page_dir_t`
pub record PageDir : Type 0 where
  pub tables : List (Option ℕ)
  pub tables_phys : List DirEntry

-- `frames`, `memsize`, the page table at each address, what the next calls of `kmalloc_pa` return, and
-- `errno`. A call of `kmalloc_pa` that maps pages for the heap of the kernel first is not modelled.
pub record Paging : Type 0 where
  pub frames : List (List Bool)
  pub memsize : ℕ
  pub tabs : ℕ → List Page
  pub heap : List (Option ℕ)
  pub errno : Errno

-- Whether the frame with the number `f` is marked as used.
unfoldable pub used : List (List Bool) → ℕ → Bool
used frames f = get_or (get_or frames (f / 32) []) (f % 32) false

abbrev mark : Bool → List (List Bool) → ℕ → List (List Bool)
mark b frames f = set frames (f / 32) (set (get_or frames (f / 32) []) (f % 32) b)

unfoldable pub set_frame : ℕ → List (List Bool) → List (List Bool)
set_frame addr frames = mark true frames (addr / 4_096)

unfoldable pub clear_frame : ℕ → List (List Bool) → List (List Bool)
clear_frame addr frames = mark false frames (addr / 4_096)

-- `frames[i] != 0xFFFFFFFF`
unfoldable pub not_full : List Bool → Bool
not_full [] = false
not_full (b ∷ bits) = not b || not_full bits

-- The inner loop over the bits from `j` on.
unfoldable pub free_bit : ℕ → ℕ → List Bool → Option ℕ
free_bit zero j bits = none
free_bit (suc left) j bits =
    let rest = free_bit left (j + 1) bits in if get_or bits j false then rest else some j

-- The outer loop over `left` words from `i` on: the number of the frame.
unfoldable pub free_from : ℕ → ℕ → List (List Bool) → Option ℕ
unfolding free_bit not_full
free_from zero i frames = none
free_from (suc left) i frames =
    let word = get_or frames i [] in
    let rest = free_from left (i + 1) frames in
    if not_full word
    then elim (free_bit 32 0 word) [ some j ↦ some (i * 32 + j) | none ↦ rest ]
    else rest

-- The address of a frame, or -1.
abbrev pub address_of : Option ℕ → ℕ
address_of none = neg_one
address_of (some f) = f * 4_096 % 2 ^ 32

unfoldable pub find_free_frame : Paging → ℕ
find_free_frame s = address_of (free_from (s.memsize / 32) 0 s.frames)

-- The loops of `get_used_frames`: the word with one bit left is compared with 1.
used_bits : ℕ → List Bool → ℕ
used_bits j [] = 0
used_bits j (b ∷ bits) = (if b && (j == 0) then 1 else 0) + used_bits (j + 1) bits

used_words : ℕ → List (List Bool) → ℕ
used_words zero frames = 0
used_words (suc left) [] = 0
used_words (suc left) (word ∷ frames) = used_bits 0 word + used_words left frames

unfoldable pub get_used_frames : Paging → ℕ
unfolding used_bits used_words
get_used_frames s = used_words (s.memsize / 32) s.frames

unfoldable pub frame_alloc : Paging → ℕ × Paging
frame_alloc s =
    let addr = find_free_frame s in
    if addr == neg_one
    then (0, record s { errno = enomem })
    else (addr, record s { frames = set_frame addr s.frames })

unfoldable pub frame_free : ℕ → Paging → Paging
frame_free addr s = record s { frames = clear_frame addr s.frames }

abbrev pub tab_i : ℕ → ℕ
tab_i addr = addr / 4_096 % 1_024

abbrev pub dir_i : ℕ → ℕ
dir_i addr = addr / 2 ^ 22 % 1_024

unfoldable pub get_phys : ℕ → PageDir → Paging → ℕ
get_phys addr dir s = elim (get_or dir.tables (dir_i addr) none) [
  | none ↦ 0
  | some t ↦
      (let page = get_or (s.tabs t) (tab_i addr) empty_page in
        if page.present then page.frame * 4_096 + addr % 4_096 else 0)
]

-- `entry[tab_i]` as `page_map` sets it.
abbrev pub page_of : ℕ → ℕ → Page
page_of frame flags = record {
  present = has flags pf_pres;
  writable = has flags pf_rw;
  user = has flags pf_user;
  wt_caching = has flags pf_wtc;
  nocache = has flags pf_noc;
  accessed = has flags pf_acc;
  dirty = has flags pf_dirty;
  global = has flags pf_glo;
  frame = frame / 4_096;
}

-- `tables_phys[dir_i]` as `page_map` sets it for a new table.
abbrev pub entry_of : ℕ → ℕ → DirEntry
entry_of phys flags = record {
  present = true;
  writable = has flags pf_rw;
  user = has flags pf_user;
  wt_caching = has flags pf_wtc;
  nocache = has flags pf_noc;
  accessed = has flags pf_acc;
  global = has flags pf_glo;
  table = phys / 4_096;
}

-- The page table at `t` becomes `page_tab`.
unfoldable pub put_tab : ℕ → List Page → (ℕ → List Page) → ℕ → List Page
put_tab t page_tab tabs u = if u == t then page_tab else tabs u

pub record Mapped : Type 0 where
  pub ret : ℕ
  pub dir : PageDir
  pub state : Paging

-- `page_map` where there is a page table, `t`.
unfoldable pub map_in : ℕ → ℕ → ℕ → ℕ → PageDir → Paging → Mapped
map_in t addr frame flags dir s =
    let entry = get_or dir.tables_phys (dir_i addr) empty_entry in
    record {
      ret = addr;
      dir = record dir {
        tables_phys =
            set dir.tables_phys (dir_i addr)
              (record entry { writable = entry.writable || has flags pf_rw });
      };
      state = record s {
        tabs = put_tab t (set (s.tabs t) (tab_i addr) (page_of frame flags)) s.tabs;
      };
    }

-- `page_map` with a page table fresh from `kmalloc_pa` at `t`: it is cleared and entered.
unfoldable pub new_table : ℕ → ℕ → ℕ → PageDir → Paging → PageDir × Paging
new_table t addr flags dir s =
    let tables = set dir.tables (dir_i addr) (some t) in
    let s' = record s { tabs = put_tab t (replicate 1_024 empty_page) s.tabs } in
    let phys = get_phys t (record dir { tables = tables }) s' in
    (
      record {
        tables = tables;
        tables_phys = set dir.tables_phys (dir_i addr) (entry_of phys flags);
      },
      s',
    )

-- `page_map` from the test for a page table on, with `addr` rounded down.
unfoldable pub map_aligned : ℕ → ℕ → ℕ → PageDir → Paging → Mapped
map_aligned addr frame flags dir s = elim (get_or dir.tables (dir_i addr) none) [
  | some t ↦ map_in t addr frame flags dir s
  | none ↦ elim s.heap [
    | some t ∷ heap ↦
        (let (dir', s') = new_table t addr flags dir (record s { heap = heap }) in
          map_in t addr frame flags dir' s')
    | none ∷ heap ↦ record { ret = 0; dir = dir; state = record s { heap = heap; errno = enomem } }
    | [] ↦ record { ret = 0; dir = dir; state = record s { errno = enomem } }
  ]
]

unfoldable pub page_map : ℕ → ℕ → ℕ → PageDir → Paging → Mapped
page_map addr frame flags dir s = map_aligned (addr - addr % 4_096) frame flags dir s

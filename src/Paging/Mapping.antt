-- ===== src/Paging/Mapping.antt =====
-- What `page_map` does to `get_phys`, in kernel/src/mm/paging.c.
use razos.Base.{
  ℕ, ◌+◌, ◌-◌, ◌*◌, ◌/◌, ◌%◌, ◌^◌, ◌<◌, ◌≡◌, ◌≢◌, ◌⊎◌, refl, ap, ◌∙◌, sym, arith, ◌==◌,
  if◌then◌else◌, List, Option, none, some, get_or, set, inl, inr, Bool-cases, length-set,
}
use razos.Fs.Kernel.{has}
use razos.Paging.{
  PageDir, Paging, pf_pres, page_of, tab_i, dir_i, get_phys, map_in, new_table, map_aligned,
  page_map,
}
use razos.Paging.Pages.{
  old_table, fresh_table, IsDir, HasTable, page_at, phys_of, get_phys-page_at, put_tab_self,
  put_tab_ne, map_in_self, map_in_ne,
}
use razos.Paging.Tables.{new_table_entry, new_table_phys, new_table-IsDir}

same_heap :
    (d i offset : ℕ) (heap : List (Option ℕ)) (dir : PageDir) (s : Paging)
    → phys_of offset (page_at d i dir (record s { heap = heap }))
      ≡ phys_of offset (page_at d i dir s)
unfolding page_at
same_heap d i offset heap dir s = refl

-- `map_aligned` succeeds in a directory that is a `new_table` away from the old one, or in the old one.
record InTable (addr frame flags : ℕ) (dir : PageDir) (s : Paging) (t : ℕ) (dir' : PageDir)
    (s' : Paging) : Type 0 where
  run : map_aligned addr frame flags dir s ≡ map_in t addr frame flags dir' s'
  is_dir : IsDir dir' s'
  entry : get_or dir'.tables (dir_i addr) none ≡ some t
  kept :
      (d i offset : ℕ) → phys_of offset (page_at d i dir' s') ≡ phys_of offset (page_at d i dir s)

in_table :
    (addr frame flags : ℕ) (dir : PageDir) (s : Paging)
    → IsDir dir s
    → HasTable addr dir s
    → (t : ℕ) × (dir' : PageDir) × (s' : Paging) × InTable addr frame flags dir s t dir' s'
unfolding map_aligned
in_table addr frame flags dir s w (old_table t e) = (
  t,
  dir,
  s,
  record { run = rw (e, map_aligned) refl; is_dir = w; entry = e; kept = λ d i offset. refl },
)
in_table addr frame flags dir s w (fresh_table t heap e h fresh) =
    let s0 = record s { heap = heap } in
    let w0 : IsDir dir s0 = record { size = w.size; sizes = w.sizes; distinct = w.distinct } in
    (
      t,
      (new_table t addr flags dir s0).0,
      (new_table t addr flags dir s0).1,
      record {
        run = rw (e, h, map_aligned) refl;
        is_dir = new_table-IsDir t addr flags dir s0 w0 fresh;
        entry = new_table_entry t addr flags dir s0 w0;
        kept = λ d i offset.
            new_table_phys t addr flags d i offset dir s0 w0 e fresh
            ∙ same_heap d i offset heap dir s;
      },
    )

aligned :
    (addr : ℕ)
    → (dir_i (addr - addr % 4_096) ≡ dir_i addr) × (tab_i (addr - addr % 4_096) ≡ tab_i addr)
aligned addr = omega arith

aligned_table :
    (addr : ℕ) (dir : PageDir) (s : Paging)
    → HasTable addr dir s
    → HasTable (addr - addr % 4_096) dir s
aligned_table addr dir s (old_table t e) = old_table t (rw ((aligned addr).0) e)
aligned_table addr dir s (fresh_table t heap e h fresh) =
    fresh_table t heap (rw ((aligned addr).0) e) h fresh

-- Two addresses in different pages differ in the index of the table or in the one of the page.
other_page :
    (a addr : ℕ)
    → a < 2 ^ 32
    → addr < 2 ^ 32
    → a / 4_096 ≢ addr / 4_096
    → (dir_i a ≢ dir_i addr) ⊎ (tab_i a ≢ tab_i addr)
other_page a addr h h' ne = elim (Bool-cases (dir_i a == dir_i addr)) [
  | inr e ↦ inl (ground arith)
  | inl e ↦ inr (λ q. ne (ground arith))
]

same_dir :
    (a addr : ℕ)
    → addr < 2 ^ 32
    → a < 2 ^ 32
    → a / 4_096 ≡ addr / 4_096
    → dir_i a ≡ dir_i (addr - addr % 4_096)
same_dir a addr h h' e = omega arith

same_tab : (a addr : ℕ) → a / 4_096 ≡ addr / 4_096 → tab_i a ≡ tab_i (addr - addr % 4_096)
same_tab a addr e = omega arith

map_in_ret :
    (t addr frame flags : ℕ) (dir : PageDir) (s : Paging)
    → (map_in t addr frame flags dir s).ret ≡ addr
unfolding map_in
map_in_ret t addr frame flags dir s = refl

map_in-IsDir :
    (t addr frame flags : ℕ) (dir : PageDir) (s : Paging)
    → IsDir dir s
    → let m = map_in t addr frame flags dir s in IsDir m.dir m.state
unfolding map_in
map_in-IsDir t addr frame flags dir s w = record {
  size = w.size;
  sizes = λ i u e. elim (Bool-cases (u == t)) [
    | inl q ↦
        (let same : u ≡ t = ground arith in
          rw (same, put_tab_self t (set (s.tabs t) (tab_i addr) (page_of frame flags)) s.tabs)
            (length-set (s.tabs t) (tab_i addr) (page_of frame flags)
              ∙ w.sizes i t (rw (← same) e)))
    | inr q ↦
        (let other : u ≢ t = ground arith in
          rw (put_tab_ne t u (set (s.tabs t) (tab_i addr) (page_of frame flags)) s.tabs other)
            (w.sizes i u e))
  ];
  distinct = w.distinct;
}

-- The mapping for a table that is there and for one that `kmalloc_pa` gives without a change to the tables.
page_map-any_table :
    (addr frame flags a : ℕ) (dir : PageDir) (s : Paging)
    → IsDir dir s
    → HasTable addr dir s
    → addr < 2 ^ 32
    → a < 2 ^ 32
    → let m = page_map addr frame flags dir s in
      (m.ret ≡ addr - addr % 4_096)
      × IsDir m.dir m.state
      × (a / 4_096 ≡ addr / 4_096
          → get_phys a m.dir m.state
            ≡ (if has flags pf_pres then frame / 4_096 * 4_096 + a % 4_096 else 0))
      × (a / 4_096 ≢ addr / 4_096 → get_phys a m.dir m.state ≡ get_phys a dir s)
unfolding page_map
page_map-any_table addr frame flags a dir s w has' h h' =
    let start = addr - addr % 4_096 in
    let (t, dir', s', it) = in_table start frame flags dir s w (aligned_table addr dir s has') in
    let m = map_in t start frame flags dir' s' in
    let size = it.is_dir.sizes (dir_i start) t it.entry in
    let (same_d, same_i) = aligned addr in
    rw it.run (
      map_in_ret t start frame flags dir' s',
      map_in-IsDir t start frame flags dir' s' it.is_dir,
      λ e.
          get_phys-page_at a m.dir m.state
          ∙ ap (phys_of (a % 4_096)) (
              ap (λ d. page_at d (tab_i a) m.dir m.state) (same_dir a addr h h' e)
              ∙ ap (λ i. page_at (dir_i start) i m.dir m.state) (same_tab a addr e)
              ∙ map_in_self t start frame flags dir' s' it.entry size),
      λ ne.
          get_phys-page_at a m.dir m.state
          ∙ ap (phys_of (a % 4_096)) (
              map_in_ne t start frame flags (dir_i a) (tab_i a) dir' s' it.is_dir it.entry
                (rw (same_d, same_i) (other_page a addr h' h ne)))
          ∙ it.kept (dir_i a) (tab_i a) (a % 4_096)
          ∙ sym (get_phys-page_at a dir s),
    )

-- In a directory whose 1024 entries are tables of 1024 pages, all different, at an address that has a table:
-- `page_map` returns the start of the page; `get_phys` of each address of that page is then in the given frame,
-- at the same offset, or 0 if the flags do not say that the page is present; and `get_phys` of each address of
-- another page is as before.
pub page_map-get_phys :
    (addr frame flags a t : ℕ) (dir : PageDir) (s : Paging)
    → IsDir dir s
    → get_or dir.tables (dir_i addr) none ≡ some t
    → addr < 2 ^ 32
    → a < 2 ^ 32
    → let m = page_map addr frame flags dir s in
      (m.ret ≡ addr - addr % 4_096)
      × IsDir m.dir m.state
      × (a / 4_096 ≡ addr / 4_096
          → get_phys a m.dir m.state
            ≡ (if has flags pf_pres then frame / 4_096 * 4_096 + a % 4_096 else 0))
      × (a / 4_096 ≢ addr / 4_096 → get_phys a m.dir m.state ≡ get_phys a dir s)
page_map-get_phys addr frame flags a t dir s w there =
    page_map-any_table addr frame flags a dir s w (old_table t there)

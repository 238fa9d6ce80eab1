-- ===== src/Paging/Pages.antt =====
-- What `map_in` does to the pages of a directory, in kernel/src/mm/paging.c.
use razos.Base.{
  ℕ, ◌+◌, ◌*◌, ◌%◌, ◌≡◌, ◌≢◌, ◌⊎◌, refl, ap, ◌∙◌, sym, arith, true, false, ◌==◌, if◌then◌else◌,
  List, ◌∷◌, Option, none, some, get_or, set, length, inl, inr, Bool-cases, Option-cases,
  get_or-set_self, get_or-set_ne,
}
use razos.Paging.{
  Page, PageDir, Paging, empty_page, page_of, tab_i, dir_i, get_phys, put_tab, map_in,
}

-- A directory with 1024 entries whose tables have 1024 entries and are all different.
pub record IsDir (dir : PageDir) (s : Paging) : Type 0 where
  pub size : length dir.tables ≡ 1_024
  pub sizes : (i t : ℕ) → get_or dir.tables i none ≡ some t → length (s.tabs t) ≡ 1_024
  pub distinct :
      (i j t : ℕ) → get_or dir.tables i none ≡ some t → get_or dir.tables j none ≡ some t → i ≡ j

-- `kmalloc_pa` gives memory that no table of the directory stands in.
abbrev pub IsFresh : PageDir → ℕ → Type 0
IsFresh dir t = (i : ℕ) → get_or dir.tables i none ≢ some t

-- There is a page table for the address, or memory for a new one.
pub data HasTable (addr : ℕ) (dir : PageDir) (s : Paging) : Type 0 where
  old_table : (t : ℕ) → get_or dir.tables (dir_i addr) none ≡ some t → HasTable addr dir s
  fresh_table :
      (t : ℕ) (heap : List (Option ℕ))
      → get_or dir.tables (dir_i addr) none ≡ none
      → s.heap ≡ some t ∷ heap
      → IsFresh dir t
      → HasTable addr dir s

-- The page of an address in a directory, if it has a table there.
unfoldable pub page_at : ℕ → ℕ → PageDir → Paging → Option Page
page_at d i dir s = elim (get_or dir.tables d none) [
  | none ↦ none
  | some t ↦ some (get_or (s.tabs t) i empty_page)
]

abbrev pub phys_of : ℕ → Option Page → ℕ
phys_of offset none = 0
phys_of offset (some page) = if page.present then page.frame * 4_096 + offset else 0

pub get_phys-page_at :
    (addr : ℕ) (dir : PageDir) (s : Paging)
    → get_phys addr dir s ≡ phys_of (addr % 4_096) (page_at (dir_i addr) (tab_i addr) dir s)
unfolding get_phys page_at
get_phys-page_at addr dir s = elim (Option-cases (get_or dir.tables (dir_i addr) none)) [
  | inl e ↦ rw (e, get_phys, page_at) refl
  | inr (t, e) ↦ rw (e, get_phys, page_at) refl
]

pub page_at-some :
    (d i t : ℕ) (dir : PageDir) (s : Paging)
    → get_or dir.tables d none ≡ some t
    → page_at d i dir s ≡ some (get_or (s.tabs t) i empty_page)
unfolding page_at
page_at-some d i t dir s e = rw (e, page_at) refl

pub page_at-none :
    (d i : ℕ) (dir : PageDir) (s : Paging)
    → get_or dir.tables d none ≡ none
    → page_at d i dir s ≡ none
unfolding page_at
page_at-none d i dir s e = rw (e, page_at) refl

pub put_tab_self : (t : ℕ) (tab : List Page) (tabs : ℕ → List Page) → put_tab t tab tabs t ≡ tab
unfolding put_tab
put_tab_self t tab tabs = let e : (t == t) ≡ true = ground arith in rw e refl

pub put_tab_ne :
    (t u : ℕ) (tab : List Page) (tabs : ℕ → List Page) → u ≢ t → put_tab t tab tabs u ≡ tabs u
unfolding put_tab
put_tab_ne t u tab tabs ne = let e : (u == t) ≡ false = ground arith in rw e refl

-- `map_in` sets the entry of its page, and no other.
pub map_in_self :
    (t addr frame flags : ℕ) (dir : PageDir) (s : Paging)
    → get_or dir.tables (dir_i addr) none ≡ some t
    → length (s.tabs t) ≡ 1_024
    → let m = map_in t addr frame flags dir s in
      page_at (dir_i addr) (tab_i addr) m.dir m.state ≡ some (page_of frame flags)
unfolding map_in
map_in_self t addr frame flags dir s e l =
    let m = map_in t addr frame flags dir s in
    page_at-some (dir_i addr) (tab_i addr) t m.dir m.state e
    ∙ ap some (
        rw (put_tab_self t (set (s.tabs t) (tab_i addr) (page_of frame flags)) s.tabs) (
          get_or-set_self (s.tabs t) (tab_i addr) (page_of frame flags) empty_page
            (omega (arith, l))))

entry_ne : (d i addr : ℕ) → d ≡ dir_i addr → (d ≢ dir_i addr) ⊎ (i ≢ tab_i addr) → tab_i addr ≢ i
entry_ne d i addr q (inl h) r = h q
entry_ne d i addr q (inr h) r = h (sym r)

pub map_in_ne :
    (t addr frame flags d i : ℕ) (dir : PageDir) (s : Paging)
    → IsDir dir s
    → get_or dir.tables (dir_i addr) none ≡ some t
    → (d ≢ dir_i addr) ⊎ (i ≢ tab_i addr)
    → let m = map_in t addr frame flags dir s in page_at d i m.dir m.state ≡ page_at d i dir s
unfolding map_in
map_in_ne t addr frame flags d i dir s w e ne =
    let m = map_in t addr frame flags dir s in
    let tab = set (s.tabs t) (tab_i addr) (page_of frame flags) in
    elim (Option-cases (get_or dir.tables d none)) [
      | inl n ↦ page_at-none d i m.dir m.state n ∙ sym (page_at-none d i dir s n)
      | inr (u, n) ↦
          page_at-some d i u m.dir m.state n
          ∙ ap some (entry u n (Bool-cases (u == t)))
          ∙ sym (page_at-some d i u dir s n)
    ]
  where
    entry :
        (u : ℕ)
        → get_or dir.tables d none ≡ some u
        → ((u == t) ≡ true) ⊎ ((u == t) ≡ false)
        → get_or
            (put_tab t (set (s.tabs t) (tab_i addr) (page_of frame flags)) s.tabs u)
            i
            empty_page
          ≡ get_or (s.tabs u) i empty_page
    entry u n (inr q) =
        let other : u ≢ t = ground arith in
        rw (put_tab_ne t u (set (s.tabs t) (tab_i addr) (page_of frame flags)) s.tabs other) refl
    entry u n (inl q) =
        let same : u ≡ t = ground arith in
        rw (same, put_tab_self t (set (s.tabs t) (tab_i addr) (page_of frame flags)) s.tabs)
          (get_or-set_ne (s.tabs t) (tab_i addr) i (page_of frame flags) empty_page
            (entry_ne d i addr (w.distinct d (dir_i addr) t (rw (← same) n) e) ne))

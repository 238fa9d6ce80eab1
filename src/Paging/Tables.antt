-- ===== src/Paging/Tables.antt =====
-- What a new page table does to a directory, in kernel/src/mm/paging.c.
use razos.Base.{
  ℕ, zero, suc, ◌<◌, ◌≡◌, ◌≢◌, ◌⊎◌, refl, ap, ◌∙◌, sym, arith, ◌==◌, List, Option, none, some,
  get_or, set, length, replicate, inl, inr, Bool-cases, Option-cases, get_or-set_self,
  get_or-set_ne, length-set, length-replicate,
}
use razos.Paging.{PageDir, Paging, empty_page, dir_i, new_table}
use razos.Paging.Pages.{
  IsDir, IsFresh, page_at, phys_of, page_at-some, page_at-none, put_tab_self, put_tab_ne,
}

-- A new table is entered, and changes no translation.
pub new_table_entry :
    (t addr flags : ℕ) (dir : PageDir) (s : Paging)
    → IsDir dir s
    → let (dir', s') = new_table t addr flags dir s in get_or dir'.tables (dir_i addr) none ≡ some t
unfolding new_table
new_table_entry t addr flags dir s w =
    get_or-set_self dir.tables (dir_i addr) (some t) none (omega (arith, w.size))

empty_entries : (n i : ℕ) → get_or (replicate n empty_page) i empty_page ≡ empty_page
empty_entries zero i = refl
empty_entries (suc n) zero = refl
empty_entries (suc n) (suc i) = empty_entries n i

pub new_table_phys :
    (t addr flags d i offset : ℕ) (dir : PageDir) (s : Paging)
    → IsDir dir s
    → get_or dir.tables (dir_i addr) none ≡ none
    → IsFresh dir t
    → let (dir', s') = new_table t addr flags dir s in
      phys_of offset (page_at d i dir' s') ≡ phys_of offset (page_at d i dir s)
unfolding new_table
new_table_phys t addr flags d i offset dir s w free fresh =
    let (dir', s') = new_table t addr flags dir s in
    let tab = replicate 1_024 empty_page in
    elim (Bool-cases (d == dir_i addr)) [
      | inl q ↦
          (let same : d ≡ dir_i addr = ground arith in
            rw same (
              ap (phys_of offset) (
                page_at-some (dir_i addr) i t dir' s' (new_table_entry t addr flags dir s w)
                ∙ ap some (
                    ap (λ p. get_or p i empty_page) (put_tab_self t tab s.tabs)
                    ∙ empty_entries 1_024 i))
              ∙ ap (phys_of offset) (sym (page_at-none (dir_i addr) i dir s free))))
      | inr q ↦
          (let ne : dir_i addr ≢ d = ground arith in
            let kept = get_or-set_ne dir.tables (dir_i addr) d (some t) none ne in
            ap (phys_of offset) (elim (Option-cases (get_or dir.tables d none)) [
              | inl n ↦ page_at-none d i dir' s' (kept ∙ n) ∙ sym (page_at-none d i dir s n)
              | inr (u, n) ↦
                  (let other : u ≢ t = λ q. fresh d (rw (← q) n) in
                    page_at-some d i u dir' s' (kept ∙ n)
                    ∙ ap some (rw (put_tab_ne t u tab s.tabs other) refl)
                    ∙ sym (page_at-some d i u dir s n))
            ]))
    ]

-- A table in the directory is the new one, in its place, or an old one.
entered :
    (tables : List (Option ℕ)) (k i t u : ℕ)
    → k < length tables
    → ((j : ℕ) → get_or tables j none ≢ some t)
    → get_or (set tables k (some t)) i none ≡ some u
    → ((i ≡ k) × (u ≡ t)) ⊎ ((get_or tables i none ≡ some u) × (u ≢ t))
entered tables k i t u h fresh e = elim (Bool-cases (i == k)) [
  | inl q ↦
      (let same : i ≡ k = ground arith in
        let there : get_or (set tables k (some t)) k none ≡ some u =
          ap (λ n. get_or (set tables k (some t)) n none) (sym same) ∙ e in
        let both : some t ≡ some u = sym (get_or-set_self tables k (some t) none h) ∙ there in
        inl (same, ground arith))
  | inr q ↦
      (let ne : k ≢ i = ground arith in
        let old = sym (get_or-set_ne tables k i (some t) none ne) ∙ e in
        inr (old, λ r. fresh i (rw (← r) old)))
]

pub new_table-IsDir :
    (t addr flags : ℕ) (dir : PageDir) (s : Paging)
    → IsDir dir s
    → IsFresh dir t
    → IsDir (new_table t addr flags dir s).0 (new_table t addr flags dir s).1
unfolding new_table
new_table-IsDir t addr flags dir s w fresh =
    let bound : dir_i addr < length dir.tables = omega (arith, w.size) in
    record {
      size = length-set dir.tables (dir_i addr) (some t) ∙ w.size;
      sizes = λ i u e. elim (entered dir.tables (dir_i addr) i t u bound fresh e) [
        | inl (a, same) ↦
            rw (same, put_tab_self t (replicate 1_024 empty_page) s.tabs)
              (length-replicate 1_024 empty_page)
        | inr (old, other) ↦
            rw (put_tab_ne t u (replicate 1_024 empty_page) s.tabs other) (w.sizes i u old)
      ];
      distinct = λ i j u e e'. elim (entered dir.tables (dir_i addr) i t u bound fresh e) [
        | inl (a, same) ↦ elim (entered dir.tables (dir_i addr) j t u bound fresh e') [
          | inl (b, same') ↦ a ∙ sym b
          | inr (old, other) ↦ absurd (other same)
        ]
        | inr (old, other) ↦ elim (entered dir.tables (dir_i addr) j t u bound fresh e') [
          | inl (b, same') ↦ absurd (other same')
          | inr (old', other') ↦ w.distinct i j u old old'
        ]
      ];
    }

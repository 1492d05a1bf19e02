-- ===== src/Pmap.antt =====
-- na/arch/riscv/mm/pmap.cc: the three levels of page tables. A table is known by its physical address
-- and maps an index to an entry, and `pa_to_ptr` is left out. `none` is a panic of an allocator.
pub mod Bits
pub mod Shape
pub mod Leaf
pub mod Edit
pub mod Grow
pub mod Fresh
pub mod Map
pub mod Install
pub mod Perm
pub mod Pages
pub mod Protects
pub mod Wrap
pub mod Shared
mod Tests
use lume.Common.{
  einval, enomem, efault, ℕ, zero, suc, ◌+◌, ◌-◌, ◌*◌, ◌/◌, ◌%◌, ◌^◌, Bool, true, false, ◌&&◌, ◌||◌,
  not, List, [], ◌∷◌, Option, none, some, bit_and, bit_or, ◌==◌, leb, ltb, if◌then◌else◌, update, ℤ,
  pos, negsuc,
}
use lume.Word.{not64, add64, sub64}
use lume.Addr.{page_size, page_align_up, page_align_down}
use lume.Memblock.{Memblock, ok, panic, out_of_fuel, memblock_alloc}
use lume.Pmm.{Pmm, pmm_alloc_page, pmm_free_page, page_to_pa, pa_to_page}

abbrev pub pte_v : ℕ
pte_v = 1

abbrev pub pte_r : ℕ
pte_r = 2

abbrev pub pte_w : ℕ
pte_w = 4

abbrev pub pte_x : ℕ
pte_x = 8

abbrev pub pte_u : ℕ
pte_u = 16

abbrev pub pte_a : ℕ
pte_a = 64

abbrev pub pte_d : ℕ
pte_d = 128

abbrev pub pte_cow : ℕ
pte_cow = 256

-- PTE_R | PTE_W | PTE_X
abbrev pub pte_rwx : ℕ
pte_rwx = 14

-- `pte & mask`, as a test.
abbrev pub has : ℕ → ℕ → Bool
has pte mask = not (bit_and pte mask == 0)

abbrev pub vpn : ℕ → ℕ → ℕ
vpn va level = bit_and (va / 2 ^ (12 + 9 * level)) 0x1ff

abbrev pub pte_to_pa : ℕ → ℕ
pte_to_pa pte = bit_and (pte / 2 ^ 10) 0xfffffffffff * 2 ^ 12 % 2 ^ 64

abbrev pub pa_to_pte : ℕ → ℕ → ℕ
pa_to_pte pa flags = bit_or (pa / 2 ^ 12 * 2 ^ 10 % 2 ^ 64) flags

abbrev pub Tables : Type 0
Tables = ℕ → ℕ → ℕ

-- `table[idx] = pte`
abbrev pub store : Tables → ℕ → ℕ → ℕ → Tables
store m table idx pte = update m table (update (m table) idx pte)

-- The boot allocator, the page allocator and the tables.
pub record Memory : Type 0 where
  pub boot : Memblock
  pub pmm : Pmm
  pub tables : Tables

-- All entries of the page are cleared; 0 is no page.
abbrev pub zeroed : Memory → ℕ → ℕ × Memory
zeroed mem pa =
    if pa == 0 then (0, mem) else (pa, record mem { tables = update mem.tables pa (λ i. 0) })

abbrev pub pmm_table : Memory → Option ℕ × Pmm → Option (ℕ × Memory)
pmm_table mem (none, pmm) = some (0, record mem { pmm = pmm })
pmm_table mem (some page, pmm) = elim (page_to_pa pmm page) [
  | none ↦ none
  | some pa ↦ some (zeroed (record mem { pmm = pmm }) pa)
]

unfoldable pub alloc_pt_page : Memory → Option (ℕ × Memory)
alloc_pt_page mem =
    if mem.boot.active
    then elim (memblock_alloc mem.boot page_size page_size) [
      | ok (pa, boot) ↦ some (zeroed (record mem { boot = boot }) pa)
      | panic _ ↦ none
      | out_of_fuel ↦ none
    ]
    else elim (pmm_alloc_page mem.pmm) [ none ↦ none | some r ↦ pmm_table mem r ]

unfoldable pub create : Memory → Option (ℕ × Memory)
create mem = alloc_pt_page mem

-- One round of the walk of `map` and `map_2mb`: the next table, a new one where there is none, or no
-- table for want of memory.
unfoldable pub next_table : Memory → ℕ → ℕ → Option (Option ℕ × Memory)
next_table mem table idx =
    if has (mem.tables table idx) pte_v
    then some (some (pte_to_pa (mem.tables table idx)), mem)
    else elim (alloc_pt_page mem) [
      | none ↦ none
      | some (child_pa, got) ↦
          if child_pa == 0
          then some (none, got)
          else let linked = store got.tables table idx (pa_to_pte child_pa pte_v) in
            some (some (pte_to_pa (linked table idx)), record got { tables = linked })
    ]

abbrev pub leaf_pte : ℕ → ℕ → ℕ
leaf_pte pa perm = pa_to_pte pa (bit_or (bit_or (bit_or perm pte_v) pte_a) pte_d)

-- Goes on with the table of a round, or returns -ENOMEM.
abbrev pub with_table :
    (ℕ → Memory → Option (ℤ × Memory)) → Option (Option ℕ × Memory) → Option (ℤ × Memory)
with_table next none = none
with_table next (some (none, mem)) = some (enomem, mem)
with_table next (some (some table, mem)) = next table mem

-- The leaf is written.
abbrev pub install : ℕ → ℕ → ℕ → Memory → Option (ℤ × Memory)
install idx pte table mem = some (pos 0, record mem { tables = store mem.tables table idx pte })

unfoldable pub map : Memory → ℕ → ℕ → ℕ → ℕ → Option (ℤ × Memory)
map mem root_pa va pa perm =
    with_table
      (λ mid got.
        with_table (install (vpn va 0) (leaf_pte pa perm)) (next_table got mid (vpn va 1)))
      (next_table mem root_pa (vpn va 2))

unfoldable pub map_2mb : Memory → ℕ → ℕ → ℕ → ℕ → Option (ℤ × Memory)
map_2mb mem root_pa va pa perm =
    if not (bit_and va (2 ^ 21 - 1) == 0) || not (bit_and pa (2 ^ 21 - 1) == 0)
    then some (einval, mem)
    else with_table (install (vpn va 1) (leaf_pte pa perm)) (next_table mem root_pa (vpn va 2))

-- The walk of `unmap` down to level 0.
unfoldable pub lower_table : ℕ → Tables → ℕ → ℕ → Option ℕ
lower_table zero m table va = some table
lower_table (suc rounds) m table va =
    let pte = m table (vpn va (suc rounds)) in
    let below = lower_table rounds m (pte_to_pa pte) va in if has pte pte_v then below else none

unfoldable pub unmap : Tables → ℕ → ℕ → Tables
unmap m root_pa va = elim (lower_table 2 m root_pa va) [
  | none ↦ m
  | some table ↦ store m table (vpn va 0) 0
]

-- The walk that `protect`, `lookup`, `is_cow` and `make_cow` share: the table and the index of a leaf.
unfoldable pub find_leaf : ℕ → Tables → ℕ → ℕ → Option (ℕ × ℕ)
find_leaf zero m table va = none
find_leaf (suc level) m table va =
    let idx = vpn va level in
    let pte = m table idx in
    let below = find_leaf level m (pte_to_pa pte) va in
    if has pte pte_v then (if has pte pte_rwx then some (table, idx) else below) else none

unfoldable pub protect : Tables → ℕ → ℕ → ℕ → ℤ × Tables
protect m root_pa va perm = elim (find_leaf 3 m root_pa va) [
  | none ↦ (efault, m)
  | some (table, idx) ↦
      (pos 0, store m table idx (pa_to_pte (pte_to_pa (m table idx)) (bit_or perm pte_v)))
]

-- The loop of `protect_range`: `protect` returns 0 or -EFAULT, and neither ends it.
unfoldable pub protect_pages : ℕ → Tables → ℕ → ℕ → ℕ → ℕ → Tables
protect_pages zero m root_pa va va_end perm = m
protect_pages (suc left) m root_pa va va_end perm =
    let rest =
      protect_pages left (protect m root_pa va perm).1 root_pa (add64 va page_size) va_end perm in
    if ltb va va_end then rest else m

unfoldable pub protect_range : Tables → ℕ → ℕ → ℕ → ℕ → ℤ × Tables
protect_range m root_pa start end perm =
    let va = page_align_down start in
    let va_end = page_align_up end in
    if leb end start
    then (pos 0, m)
    else (pos 0, protect_pages ((va_end - va) / page_size) m root_pa va va_end perm)

unfoldable pub lookup : Tables → ℕ → ℕ → Option ℕ
lookup m root_pa va = elim (find_leaf 3 m root_pa va) [
  | none ↦ none
  | some (table, idx) ↦ some (pte_to_pa (m table idx))
]

unfoldable pub is_cow : Tables → ℕ → ℕ → Bool
is_cow m root_pa va = elim (find_leaf 3 m root_pa va) [
  | none ↦ false
  | some (table, idx) ↦ has (m table idx) pte_cow
]

unfoldable pub make_cow : Tables → ℕ → ℕ → ℤ × Tables
make_cow m root_pa va = elim (find_leaf 3 m root_pa va) [
  | none ↦ (efault, m)
  | some (table, idx) ↦
      (pos 0, store m table idx (bit_or (bit_and (m table idx) (not64 pte_w)) pte_cow))
]

abbrev pub when : Bool → ℕ → ℕ → ℕ
when b pte flag = if b then bit_or pte flag else pte

unfoldable pub vm_perm_to_pte : ℕ → ℕ
vm_perm_to_pte vm_perm =
    let pte = bit_or (bit_or pte_v pte_a) pte_d in
    let pte = when (has vm_perm 1) pte pte_r in
    let pte = when (has vm_perm 2) pte pte_w in
    let pte = when (has vm_perm 4) pte pte_x in when (has vm_perm 8) pte pte_u

-- `pmm_free_page(pa_to_page(pa))`
abbrev pub free_table : Pmm → ℕ → Option Pmm
free_table pmm pa = elim (pa_to_page pmm pa) [
  | none ↦ none
  | some page ↦ some (pmm_free_page pmm page)
]

-- A pointer to a table below: valid, and no leaf.
abbrev pub points : ℕ → Bool
points pte = has pte pte_v && not (has pte pte_rwx)

-- The loop of `destroy` over a level-1 table, with the entries that are left.
unfoldable pub free_lowest : ℕ → Tables → ℕ → Pmm → Option Pmm
free_lowest zero m l1_pa pmm = some pmm
free_lowest (suc left) m l1_pa pmm =
    let pte = m l1_pa (512 - suc left) in
    let freed = if points pte then free_table pmm (pte_to_pa pte) else some pmm in
    elim freed [ none ↦ none | some pmm' ↦ free_lowest left m l1_pa pmm' ]

unfoldable pub free_middle : ℕ → Tables → ℕ → Pmm → Option Pmm
free_middle zero m root_pa pmm = some pmm
free_middle (suc left) m root_pa pmm =
    let pte = m root_pa (512 - suc left) in
    let freed =
      if points pte
      then elim (free_lowest 512 m (pte_to_pa pte) pmm) [
        | none ↦ none
        | some pmm' ↦ free_table pmm' (pte_to_pa pte)
      ]
      else some pmm in
    elim freed [ none ↦ none | some pmm' ↦ free_middle left m root_pa pmm' ]

unfoldable pub destroy : Tables → ℕ → Pmm → Option Pmm
destroy m root_pa pmm = elim (free_middle 512 m root_pa pmm) [
  | none ↦ none
  | some pmm' ↦ free_table pmm' root_pa
]

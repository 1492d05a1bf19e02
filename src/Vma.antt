-- ===== src/Vma.antt =====
-- na/mm/vma.cc and na/include/lume/vmm.h: the areas of an address space. The red-black tree is the
-- list of its areas in order, which `rb_first` and `rb_next` walk; an area is told by its start.
-- The page tables stand behind the record `Pages`. A `new` that may fail is a Boolean argument, and
-- the lock makes each operation one step.
pub mod Areas
pub mod Map
pub mod Release
pub mod Walk
pub mod Unmap
pub mod Covered
pub mod Find
pub mod Protect
mod Tests
use lume.Common.{
  einval, enomem, efault, ℕ, zero, suc, ◌+◌, ◌-◌, ◌*◌, ◌/◌, ◌%◌, ◌^◌, Bool, true, false, ◌&&◌, ◌||◌,
  not, List, [], ◌∷◌, Option, none, some, bit_or, ◌==◌, leb, ltb, if◌then◌else◌, ℤ, pos, negsuc,
}
use lume.Word.{add64, sub64}
use lume.Addr.{page_size, page_align_up, page_align_down}

-- `VmAreaStruct`, for the addresses from `start` to before `end`.
pub record Area : Type 0 where
  pub start : ℕ
  pub end : ℕ
  pub perm : ℕ

abbrev pub vm_user : ℕ
vm_user = 8

abbrev pub user_va_base : ℕ
user_va_base = page_size

abbrev pub user_va_limit : ℕ
user_va_limit = 0xFFFFFFC000000000

-- What the areas use of the page tables and of the pages' counts, on a state of type M.
pub record Pages (M : Type 0) : Type 0 where
  pub lookup : M → ℕ → Option ℕ
  pub unmap : M → ℕ → M
  pub page_decref : M → ℕ → M

pub record VmSpace (M : Type 0) : Type 0 where
  pub areas : List Area
  pub pages : M
  pub brk_start : ℕ
  pub brk_end : ℕ

unfoldable pub align_up_any : ℕ → ℕ → ℕ
align_up_any value zero = value
align_up_any value (suc k) = (sub64 (add64 value (suc k)) 1 / suc k * suc k) % 2 ^ 64

unfoldable pub range_overlaps : ℕ → ℕ → ℕ → ℕ → Bool
range_overlaps a_start a_end b_start b_end = ltb a_start b_end && ltb b_start a_end

unfoldable pub vma_overlaps_locked : List Area → ℕ → ℕ → Bool
vma_overlaps_locked [] start end = false
vma_overlaps_locked (vma ∷ rest) start end =
    range_overlaps start end vma.start vma.end || vma_overlaps_locked rest start end

-- The loop of `vma_range_covered_locked`, with its cursor.
unfoldable pub covered_from : List Area → ℕ → ℕ → Bool
covered_from [] cursor end = leb end cursor
covered_from (vma ∷ rest) cursor end =
    let skipped = covered_from rest cursor end in
    let advanced = covered_from rest vma.end end in
    if ltb cursor end
    then (if leb vma.end cursor
        then skipped
        else (if ltb cursor vma.start then false else advanced))
    else leb end cursor

unfoldable pub vma_range_covered_locked : List Area → ℕ → ℕ → Bool
vma_range_covered_locked areas start end = covered_from areas start end

-- `rb_add` with `vma_less`: before the first area that starts later.
unfoldable pub rb_add : Area → List Area → List Area
rb_add vma [] = vma ∷ []
rb_add vma (x ∷ rest) =
    let later = rb_add vma rest in if ltb vma.start x.start then vma ∷ x ∷ rest else x ∷ later

abbrev pub joins : Area → Area → Bool
joins a b = (a.end == b.start) && (a.perm == b.perm)

unfoldable pub merge_next : Area → List Area → List Area
merge_next vma [] = vma ∷ []
merge_next vma (next ∷ rest) =
    if joins vma next then record vma { end = next.end } ∷ rest else vma ∷ next ∷ rest

-- The area that starts at `key` with the one before it, which `prev` is if there is one, and then
-- with the one behind it.
unfoldable pub merge_from : ℕ → Area → List Area → List Area
merge_from key prev [] = prev ∷ []
merge_from key prev (vma ∷ rest) =
    let further = merge_from key vma rest in
    if vma.start == key
    then (if joins prev vma
        then merge_next (record prev { end = vma.end }) rest
        else prev ∷ merge_next vma rest)
    else prev ∷ further

unfoldable pub vma_try_merge_neighbors_locked : ℕ → List Area → List Area
vma_try_merge_neighbors_locked key [] = []
vma_try_merge_neighbors_locked key (vma ∷ rest) =
    if vma.start == key then merge_next vma rest else merge_from key vma rest

-- The checks that map, unmap and protect have in common, on the rounded range.
unfoldable pub bad_range : ℕ → ℕ → Bool
bad_range va len =
    ltb va user_va_base
    || leb user_va_limit va
    || ltb (add64 va len) va
    || ltb user_va_limit (add64 va len)

abbrev pub page_count : ℕ → ℕ → ℕ
page_count from to = (to - from + (page_size - 1)) / page_size

-- The loop of `mm_find_free_va`; 0 is failure.
unfoldable pub find_from : List Area → ℕ → ℕ → ℕ → ℕ
find_from [] length align cursor = if ltb (sub64 user_va_limit length) cursor then 0 else cursor
find_from (vma ∷ rest) length align cursor =
    let raised = if ltb cursor vma.end then vma.end else cursor in
    let further = find_from rest length align (align_up_any raised align) in
    if leb cursor vma.start
    then (if ltb (sub64 user_va_limit length) cursor
        then 0
        else (if leb (add64 cursor length) vma.start then cursor else further))
    else further

module _ {M : Type 0} where
  unfoldable pub vmm_map_user : Bool → VmSpace M → ℕ → ℕ → ℕ → ℤ × VmSpace M
  vmm_map_user granted space va len perm =
      let va = page_align_down va in
      let len = page_align_up len in
      let end = add64 va len in
      let vma : Area = record { start = va; end = end; perm = bit_or perm vm_user } in
      if len == 0
      then (pos 0, space)
      else (if bad_range va len
          then (einval, space)
          else (if not granted
              then (enomem, space)
              else (if vma_overlaps_locked space.areas va end then (einval, space) else (
                pos 0,
                record space { areas = vma_try_merge_neighbors_locked va (rb_add vma space.areas) },
              ))))

  unfoldable pub release_page : Pages M → M → ℕ → M
  release_page p m addr = elim (p.lookup m addr) [
    | none ↦ m
    | some pa ↦ p.unmap (p.page_decref m pa) addr
  ]

  -- Gives back the pages from `addr` on; there are as many rounds as the range has pages.
  unfoldable pub release_pages : Pages M → ℕ → M → ℕ → M
  release_pages p zero m addr = m
  release_pages p (suc n) m addr = release_pages p n (release_page p m addr) (add64 addr page_size)

  -- The loop of `vmm_unmap_user` over the areas.
  unfoldable pub unmap_walk : Pages M → Bool → ℕ → ℕ → M → List Area → ℤ × M × List Area
  unmap_walk p granted va end m [] = (pos 0, m, [])
  unmap_walk p granted va end m (vma ∷ rest) =
      let from = if ltb va vma.start then vma.start else va in
      let to = if ltb vma.end end then vma.end else end in
      let released = release_pages p (page_count from to) m from in
      let before : Area = record vma { end = from } in
      let behind : Area = record vma { start = to } in
      let (s, n, kept) = unmap_walk p granted va end m rest in
      let (r, m', others) = unmap_walk p granted va end released rest in
      if leb vma.end va
      then (s, n, vma ∷ kept)
      else (if leb end vma.start
          then (pos 0, m, vma ∷ rest)
          else (if from == vma.start
              then (if to == vma.end then (r, m', others) else (r, m', rb_add behind others))
              else (if to == vma.end
                  then (r, m', before ∷ others)
                  else (if granted
                      then (pos 0, released, before ∷ rb_add behind rest)
                      else (enomem, released, vma ∷ rest)))))

  unfoldable pub vmm_unmap_user : Pages M → Bool → VmSpace M → ℕ → ℕ → ℤ × VmSpace M
  vmm_unmap_user p granted space va len =
      let va = page_align_down va in
      let len = page_align_up len in
      if len == 0
      then (pos 0, space)
      else (if bad_range va len
          then (einval, space)
          else (let (r, m, areas) =
                unmap_walk p granted va (add64 va len) space.pages space.areas in
              (r, record space { areas = areas; pages = m })))

  unfoldable pub mm_find_free_va : VmSpace M → ℕ → ℕ → ℕ
  mm_find_free_va space length align =
      let length = page_align_up length in
      let align = if ltb align page_size then page_size else align in
      if length == 0
      then 0
      else find_from space.areas length align (align_up_any user_va_base align)

  unfoldable pub vma_range_covered : VmSpace M → ℕ → ℕ → Bool
  vma_range_covered space start end =
      let start = page_align_down start in
      let end = page_align_up end in
      if leb end start then true else vma_range_covered_locked space.areas start end

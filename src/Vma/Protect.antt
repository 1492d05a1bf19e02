-- ===== src/Vma/Protect.antt =====
-- `vmm_protect_user` of na/mm/vma.cc, with the splits of areas that it needs.
pub mod Laws
pub mod Walk
pub mod Flags
pub mod Areas
pub mod Splits
pub mod Permitted
pub mod Outcome
use lume.Common.{
  ℕ, zero, suc, ◌+◌, ◌-◌, ◌*◌, ◌/◌, ◌%◌, ◌^◌, Bool, true, false, ◌&&◌, ◌||◌, not, List, [], ◌∷◌,
  Option, none, some, bit_and, bit_or, ◌==◌, leb, ltb, if◌then◌else◌, ℤ, pos, negsuc, einval,
  enomem,
}
use lume.Word.{add64, sub64, not64}
use lume.Addr.{page_size, page_align_up, page_align_down}
use lume.Pmap.{has, pte_w, pte_cow, vm_perm_to_pte}
use lume.Vma.{
  Area, Pages, VmSpace, vm_user, bad_range, page_count, rb_add, vma_range_covered_locked,
  user_va_base,
}
use lume.Vma.Areas.{covers}

-- What protecting uses of the page tables besides.
pub record Protection (M : Type 0) : Type 0 where
  pub is_cow : M → ℕ → Bool
  pub protect : M → ℕ → ℕ → ℤ × M

abbrev pub is_negative : ℤ → Bool
is_negative (pos _) = false
is_negative (negsuc _) = true

-- The area and those behind it.
unfoldable pub vma_split_locked : Bool → Area → List Area → ℕ → ℤ × List Area
vma_split_locked granted vma rest split =
    if leb split vma.start || leb vma.end split
    then (pos 0, vma ∷ rest)
    else (if not granted
        then (enomem, vma ∷ rest)
        else (pos 0, record vma { end = split } ∷ rb_add (record vma { start = split }) rest))

-- `rb_find` for the key and the split of the area that is found.
unfoldable pub split_found : Bool → ℕ → ℕ → List Area → ℤ × List Area
split_found granted key split [] = (enomem, [])
split_found granted key split (vma ∷ rest) =
    let (r, others) = split_found granted key split rest in
    if covers vma key then vma_split_locked granted vma rest split else (r, vma ∷ others)

-- Whether memory for the areas behind the start and behind the end is granted.
unfoldable pub vma_split_range_locked : Bool → Bool → List Area → ℕ → ℕ → ℤ × List Area
vma_split_range_locked granted granted_end areas start end =
    let (r, split) = split_found granted start start areas in
    let last = split_found granted_end (sub64 end 1) end split in
    if leb end start then (pos 0, areas) else (if is_negative r then (r, split) else last)

module _ {M : Type 0} where
  -- The flags for the page of an area.
  abbrev pub page_flags : Protection M → M → ℕ → ℕ → ℕ
  page_flags q m perm addr =
      let pte_perm = vm_perm_to_pte perm in
      if has perm 2 && q.is_cow m addr
      then bit_or (bit_and pte_perm (not64 pte_w)) pte_cow
      else pte_perm

  -- One page: `perm` is the request, `area_perm` what the area has now.
  unfoldable pub protect_page : Pages M → Protection M → ℕ → ℕ → M → ℕ → ℤ × M
  protect_page p q perm area_perm m addr = elim (p.lookup m addr) [
    | none ↦ (pos 0, m)
    | some pa ↦
        if perm == 0
        then (pos 0, p.unmap (p.page_decref m pa) addr)
        else q.protect m addr (page_flags q m area_perm addr)
  ]

  unfoldable pub protect_area : Pages M → Protection M → ℕ → ℕ → ℕ → M → ℕ → ℤ × M
  protect_area p q perm area_perm zero m addr = (pos 0, m)
  protect_area p q perm area_perm (suc n) m addr =
      let (r, m') = protect_page p q perm area_perm m addr in
      let rest = protect_area p q perm area_perm n m' (add64 addr page_size) in
      if is_negative r then (r, m') else rest

  -- The loop over the areas; those before the first address are passed, which `rb_find` does at once.
  unfoldable pub protect_walk :
      Pages M → Protection M → ℕ → ℕ → ℕ → M → List Area → ℤ × M × List Area
  protect_walk p q va end perm m [] = (pos 0, m, [])
  protect_walk p q va end perm m (vma ∷ rest) =
      let now : Area = record vma { perm = bit_or perm vm_user } in
      let (r, m') = protect_area p q perm now.perm (page_count vma.start vma.end) m vma.start in
      let (s, n, kept) = protect_walk p q va end perm m rest in
      let (t, l, others) = protect_walk p q va end perm m' rest in
      if leb end vma.start
      then (pos 0, m, vma ∷ rest)
      else (if leb vma.end va
          then (s, n, vma ∷ kept)
          else (if is_negative r then (r, m', now ∷ rest) else (t, l, now ∷ others)))

  unfoldable pub vmm_protect_user :
      Pages M → Protection M → Bool → Bool → VmSpace M → ℕ → ℕ → ℕ → ℤ × VmSpace M
  vmm_protect_user p q granted granted_end space va len perm =
      let va = page_align_down va in
      let len = page_align_up len in
      let end = add64 va len in
      let (r, split) = vma_split_range_locked granted granted_end space.areas va end in
      let (t, m, areas) = protect_walk p q va end perm space.pages split in
      if len == 0
      then (einval, space)
      else (if bad_range va len
          then (einval, space)
          else (if not (vma_range_covered_locked space.areas va end)
              then (enomem, space)
              else (if is_negative r
                  then (r, record space { areas = split })
                  else (t, record space { areas = areas; pages = m }))))

-- ===== src/Vma/Tests.antt =====
-- Runs of na/mm/vma.cc and its theorems on a space with two areas.
use lume.Common.{
  ℕ, ◌+◌, ◌*◌, ◌/◌, ◌<◌, ◌≡◌, refl, true, false, List, [], ◌∷◌, Option, none, some, ◌==◌,
  if◌then◌else◌, arith, ℤ, pos, update,
}
use lume.Word.{mask_down}
use lume.Addr.{page_align_up, page_align_down}
use lume.Vma.{
  Area, Pages, VmSpace, user_va_base, user_va_limit, align_up_any, range_overlaps,
  vma_overlaps_locked, rb_add, merge_next, merge_from, vma_try_merge_neighbors_locked, bad_range,
  vmm_map_user, release_page, release_pages, unmap_walk, vmm_unmap_user, find_from, mm_find_free_va,
  vma_range_covered, vma_range_covered_locked, covered_from,
}
use lume.Vma.Areas.{IsValid}
use lume.Vma.Protect.{
  Protection, vma_split_locked, split_found, vma_split_range_locked, protect_page, protect_area,
  protect_walk, vmm_protect_user,
}
use lume.Pmap.{vm_perm_to_pte}
use lume.Vma.Map.{MapOutcome, vmm_map_user-MapOutcome}
use lume.Vma.Covered.{Decides, vma_range_covered-Decides}
use lume.Vma.Find.{Found, mm_find_free_va-Found, find_oversized}

-- Page tables as functions, without counts.
abbrev Table : Type 0
Table = ℕ → Option ℕ

abbrev tables : Pages Table
tables = record { lookup = λ m a. m a; unmap = λ m a. update m a none; page_decref = λ m pa. m }

abbrev space : VmSpace Table
space = record {
  areas =
      record { start = 0x1000; end = 0x4000; perm = 9 }
      ∷ record { start = 0x6000; end = 0x7000; perm = 11 }
      ∷ [];
  pages = λ a. if a == 0x2000 then some 0x80001000 else none;
  brk_start = 0;
  brk_end = 0;
}

abbrev areas_of : ℤ × VmSpace Table → ℤ × List Area
areas_of r = (r.0, r.1.areas)

space-IsValid : IsValid space.areas
space-IsValid = (
  omega arith,
  (
    record { below = omega arith; from_page = refl; to_page = refl },
    (record { below = omega arith; from_page = refl; to_page = refl }, tt),
  ),
)

-- The hole between the areas is filled with the permissions of the first one, which grows.
map_merges : areas_of (vmm_map_user true space 0x4100 0x1800 1) ≡ (
  pos 0,
  record { start = 0x1000; end = 0x6000; perm = 9 }
      ∷ record { start = 0x6000; end = 0x7000; perm = 11 }
      ∷ [],
)
unfolding vmm_map_user vma_overlaps_locked range_overlaps rb_add vma_try_merge_neighbors_locked
    merge_next merge_from bad_range page_align_up page_align_down mask_down
map_merges = refl

-- A page in the middle of an area splits it.
unmap_splits : areas_of (vmm_unmap_user tables true space 0x2000 1) ≡ (
  pos 0,
  record { start = 0x1000; end = 0x2000; perm = 9 }
      ∷ record { start = 0x3000; end = 0x4000; perm = 9 }
      ∷ record { start = 0x6000; end = 0x7000; perm = 11 }
      ∷ [],
)
unfolding vmm_unmap_user unmap_walk release_pages release_page rb_add bad_range page_align_up
    page_align_down mask_down
unmap_splits = refl

find_runs : mm_find_free_va space 0x2000 1 ≡ 0x4000
unfolding mm_find_free_va find_from align_up_any page_align_up mask_down
find_runs = refl

vmm_map_user-MapOutcome_example :
    MapOutcome true space
      (page_align_down 0x4100)
      (page_align_up 0x1800)
      1
      (vmm_map_user true space 0x4100 0x1800 1)
vmm_map_user-MapOutcome_example =
    vmm_map_user-MapOutcome true space 0x4100 0x1800 1 space-IsValid (omega arith) (omega arith)

vma_range_covered-Decides_example :
    Decides
      (vma_range_covered space 0x1800 0x3800)
      space.areas
      (0x1800 / 4096 * 4096)
      ((0x3800 + 4095) / 4096 * 4096)
vma_range_covered-Decides_example =
    vma_range_covered-Decides space 0x1800 0x3800 space-IsValid (omega arith) (omega arith)

mm_find_free_va-Found_example :
    Found user_va_base space.areas
      ((0x2000 + 4095) / 4096 * 4096)
      0x2000
      (mm_find_free_va space 0x2000 0x2000)
mm_find_free_va-Found_example =
    mm_find_free_va-Found space 0x2000 0x2000 space-IsValid (omega arith) (omega arith)
      (omega arith) (omega arith)

abbrev empty_space : VmSpace Table
empty_space = record space { areas = [] }

find_oversized_example :
    (mm_find_free_va empty_space 0xFFFFFFD000000000 4096 ≡ user_va_base)
    × (user_va_limit < user_va_base + 0xFFFFFFD000000000)
find_oversized_example =
    find_oversized empty_space 0xFFFFFFD000000000 refl (omega arith) (omega arith)

abbrev protection : Protection Table
protection = record { is_cow = λ m a. false; protect = λ m a flags. (pos 0, m) }

-- The middle page of an area becomes read-only, and the area is three.
protect_splits : areas_of (vmm_protect_user tables protection true true space 0x2000 1 1) ≡ (
  pos 0,
  record { start = 0x1000; end = 0x2000; perm = 9 }
      ∷ record { start = 0x2000; end = 0x3000; perm = 9 }
      ∷ record { start = 0x3000; end = 0x4000; perm = 9 }
      ∷ record { start = 0x6000; end = 0x7000; perm = 11 }
      ∷ [],
)
unfolding vmm_protect_user vma_split_range_locked split_found vma_split_locked protect_walk
    protect_area protect_page vma_range_covered_locked covered_from rb_add bad_range page_align_up
    page_align_down mask_down vm_perm_to_pte
protect_splits = refl

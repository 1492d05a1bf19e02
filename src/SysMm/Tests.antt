-- ===== src/SysMm/Tests.antt =====
-- Runs of na/kernel/sys_mm.cc and its theorems on a space with a heap of two pages.
use lume.Common.{
  einval, ℕ, ◌+◌, ◌*◌, ◌/◌, ◌<◌, ◌≡◌, refl, true, [], ◌∷◌, Option, none, some, arith, ℤ, update,
}
use lume.Vma.{Pages, VmSpace}
use lume.Vma.Release.{PagesLaws}
use lume.SysMm.{to_int64, sys_brk, sys_mmap}
use lume.SysMm.Brk.{Heap, BrkOutcome, sys_brk-BrkOutcome, first_brk_unaligned}
use lume.SysMm.Mmap.{Private, Requested, MmapOutcome, sys_mmap-MmapOutcome, sys_mmap_wraps}

abbrev Table : Type 0
Table = ℕ → Option ℕ

abbrev tables : Pages Table
tables = record { lookup = λ m a. m a; unmap = λ m a. update m a none; page_decref = λ m pa. m }

tables_laws : PagesLaws tables
tables_laws = record {
  lookup-unmap = λ m a b h k low below. refl;
  lookup-page_decref = λ m pa b. refl;
}

abbrev space : VmSpace Table
space = record {
  areas = record { start = 0x1000; end = 0x3000; perm = 11 } ∷ [];
  pages = λ a. none;
  brk_start = 0x1000;
  brk_end = 0x3000;
}

abbrev fresh : VmSpace Table
fresh = record { areas = []; pages = λ a. none; brk_start = 0; brk_end = 0 }

space-Heap : Heap space
space-Heap = record {
  areas = (omega arith, (record { below = omega arith; from_page = refl; to_page = refl }, tt));
  start = (omega arith, refl);
  order = omega arith;
  end = (refl, omega arith);
}

anonymous_flags-Private : Private 0x22
anonymous_flags-Private = record { private = refl; shared = refl; anonymous = refl; fixed = refl }

sys_brk-BrkOutcome_example :
    (r : ℤ × VmSpace Table) × (sys_brk tables true (some space) 0x4800 ≡ (r.0, some r.1))
    × BrkOutcome true space 0x4800 r
sys_brk-BrkOutcome_example =
    sys_brk-BrkOutcome tables tables_laws true space 0x4800 space-Heap (omega arith) (omega arith)
      (omega arith)

first_brk_unaligned_example :
    (mm' : VmSpace Table) × (sys_brk tables true (some fresh) 0x1234 ≡ (einval, some mm'))
    × (0x1234 < mm'.brk_start)
first_brk_unaligned_example =
    first_brk_unaligned tables true fresh 0x1234 refl (omega arith) (omega arith)

sys_mmap-MmapOutcome_example :
    (r : ℤ × VmSpace Table) × (sys_mmap tables true true true (some space) 0 0x1800 3 0x22 0
      ≡ (r.0, some r.1))
    × (perm : ℕ) × Requested 3 perm
    × MmapOutcome true space ((0x1800 + 4095) / 4096 * 4096) perm r
sys_mmap-MmapOutcome_example =
    sys_mmap-MmapOutcome tables true true true space 0x1800 3 0x22 0 space-Heap.areas
      anonymous_flags-Private refl (omega arith) (omega arith)

sys_mmap_wraps_example :
    sys_mmap tables true true true (some space) 0x8000 0xFFFFFFFFFFFFF001 3 0x22 0
    ≡ (to_int64 (0x8000 / 4096 * 4096), some space)
sys_mmap_wraps_example =
    sys_mmap_wraps tables true true true space 0x8000 0xFFFFFFFFFFFFF001 3 0x22 0
      anonymous_flags-Private refl (omega arith) (omega arith) (omega arith) (omega arith)

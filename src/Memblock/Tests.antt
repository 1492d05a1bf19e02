-- ===== src/Memblock/Tests.antt =====
-- Runs of na/mm/memblock.cc and the theorems at concrete boards.
use lume.Common.{ℕ, ◌+◌, ◌-◌, ◌^◌, ◌≡◌, refl, true, [], ◌∷◌, length, arith, ◌⊎◌}
use lume.Addr.{page_align_up, page_align_down, boot_va_to_pa}
use lume.Word.{mask_down}
use lume.Memblock.{
  Memblock, ok, panic, out_of_memory, too_many_regions, shift_up, insert_reserved, overlaps,
  overlaps_reserved, reserved_end_covering, memblock_reserve, take_slot, search_down,
  memblock_alloc_top, search_up, memblock_alloc, walk_free, memblock_for_each_free, memblock_init,
  max_regions,
}
use lume.Memblock.Regions.{IsValid, covered}
use lume.Memblock.Reserve.{Reserved, memblock_reserve_lem, page_ceil}
use lume.Memblock.Free.{recorded, recorded_exact, for_each_free-recorded, for_each}
use lume.Memblock.Alloc.{Lowest, memblock_alloc-Lowest}
use lume.Memblock.AllocTop.{Highest, memblock_alloc_top-Highest, alloc_top_wraps}
use lume.Memblock.Init.{Reserves, memblock_init-Reserves}

-- 16 MB of RAM with the firmware and a kernel of 1 MB at its start.
abbrev board : Memblock
board = record {
  mem_base = 0x80000000;
  mem_size = 0x1000000;
  reserved =
      record { base = 0x80000000; size = 0x200000 }
      ∷ record { base = 0x80200000; size = 0x100000 }
      ∷ [];
  active = true;
}

board-IsValid : IsValid board
board-IsValid = omega arith

-- A region beyond the end of RAM is reserved too.
abbrev stray_board : Memblock
stray_board = record board { reserved = record { base = 0x90000000; size = 0x1000 } ∷ [] }

abbrev with_region : ℕ → ℕ → Memblock
with_region base size = record board {
  reserved =
      record { base = 0x80000000; size = 0x200000 }
      ∷ record { base = 0x80200000; size = 0x100000 }
      ∷ record { base = base; size = size }
      ∷ [];
}

alloc_runs : memblock_alloc board 0x1800 0x10000 ≡ ok (0x80300000, with_region 0x80300000 0x2000)
unfolding memblock_alloc search_up page_align_up page_align_down mask_down overlaps_reserved
    overlaps reserved_end_covering take_slot memblock_reserve insert_reserved shift_up
alloc_runs = refl

alloc_top_runs :
    memblock_alloc_top board 0x1000 0x1000 ≡ ok (0x80fff000, with_region 0x80fff000 0x1000)
unfolding memblock_alloc_top search_down page_align_up page_align_down mask_down overlaps_reserved
    overlaps take_slot memblock_reserve insert_reserved shift_up
alloc_top_runs = refl

too_large : memblock_alloc board 0x2000000 0x1000 ≡ panic out_of_memory
unfolding memblock_alloc search_up page_align_up mask_down overlaps_reserved overlaps
    reserved_end_covering
too_large = refl

free_runs : recorded board ≡ record { base = 0x80300000; size = 0xd00000 } ∷ []
unfolding memblock_for_each_free walk_free
free_runs = refl

stray_runs : recorded stray_board ≡ record { base = 0x80000000; size = 0x10000000 } ∷ []
unfolding memblock_for_each_free walk_free
stray_runs = refl

memblock_reserve_lem_example :
    ((length board.reserved ≡ max_regions)
      × (memblock_reserve board 0x80400010 0x20 ≡ panic too_many_regions))
    ⊎ ((mb' : Memblock) × (memblock_reserve board 0x80400010 0x20 ≡ ok mb')
        × Reserved board 0x80400010 0x20 mb')
memblock_reserve_lem_example =
    memblock_reserve_lem board 0x80400010 0x20 board-IsValid (omega arith)

memblock_alloc-Lowest_example :
    Lowest board 0x1800 0x10000 (page_ceil 0x80000000) (memblock_alloc board 0x1800 0x10000)
memblock_alloc-Lowest_example =
    memblock_alloc-Lowest board 0x1800 48 16 board-IsValid (omega arith) (omega arith) refl
      (omega arith)

memblock_alloc_top-Highest_example :
    Highest board 0x1000 0x1000 0x80fff000 (memblock_alloc_top board 0x1000 0x1000)
memblock_alloc_top-Highest_example =
    memblock_alloc_top-Highest board 0x1000 52 12 board-IsValid (omega arith) refl (omega arith)
      (omega arith)

alloc_top_wraps_example :
    (mb' : Memblock) × (memblock_alloc_top board 0xc0000000 4096
      ≡ ok (2 ^ 64 + 0x81000000 - 0xc0000000, mb'))
alloc_top_wraps_example =
    alloc_top_wraps board 0xc0000000 board-IsValid (omega arith) (omega arith) (omega arith) refl

recorded_exact_example : covered 0x80300123 (recorded board) ≡ true
recorded_exact_example = recorded_exact board 0x80300123 board-IsValid (omega arith)

for_each_free-recorded_example :
    memblock_for_each_free board (λ base size total. total + size) 0
    ≡ for_each (λ base size total. total + size) (recorded board) 0
for_each_free-recorded_example = for_each_free-recorded board (λ base size total. total + size) 0

memblock_init-Reserves_example :
    (mb : Memblock) × (memblock_init 0xffffffd600000000 0x80000000 0x1000000 0xffffffd680200000
        0xffffffd680280000
      ≡ ok mb)
    × Reserves 0x80000000 0x80280000 mb
unfolding boot_va_to_pa
memblock_init-Reserves_example =
    memblock_init-Reserves 0xffffffd600000000 0x80000000 0x1000000 0xffffffd680200000
      0xffffffd680280000 (omega arith) (omega arith) (omega arith) (omega arith)

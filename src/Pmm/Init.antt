-- ===== src/Pmm/Init.antt =====
-- `pmm_init` of na/mm/pmm.cc: the allocator at boot, from the boot allocator's free regions.
use lume.Common.{ℕ, ◌*◌, ◌/◌, ◌%◌, ◌^◌, [], Option, none, some, ◌==◌, ltb, if◌then◌else◌}
use lume.Memblock.{Memblock, memblock_for_each_free, memblock_retire}
use lume.Pmm.{PageState, Pmm}
use lume.Pmm.Feed.{feed_region}

-- No page is free yet. The number of processors is a parameter of the build.
unfoldable pub pmm_empty : ℕ → ℕ → ℕ → Pmm
pmm_empty max_cpus mem_base num_pages =
    let calc_batch = num_pages / (max_cpus * 1024) % 2 ^ 32 in
    let batch_size = if ltb 16 calc_batch then calc_batch else 16 in
    record {
      page_map = λ i. record { refcount = 0; state = PageState.allocated; order = 0 };
      free_areas = λ o. [];
      pcp = record { free_list = []; count = 0 };
      mem_base = mem_base;
      num_pages = num_pages;
      pcp_high_watermark = batch_size * 2 % 2 ^ 32;
      pcp_batch_size = batch_size;
    }

-- The allocator, the count of the free pages and the boot allocator, which is retired. The number of
-- pages is what `vmm_init` has computed.
unfoldable pub pmm_init : ℕ → ℕ → Memblock → Option (Pmm × ℕ × Memblock)
pmm_init max_cpus num_pages mb =
    if mb.mem_size == 0
    then none
    else let (s, total_pages) =
        memblock_for_each_free mb (feed_region mb.mem_base)
          (pmm_empty max_cpus mb.mem_base num_pages, 0) in
      some (s, total_pages, memblock_retire mb)

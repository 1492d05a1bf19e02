-- ===== src/Pmm/Tests.antt =====
-- Tests of the model of na/mm/pmm.cc, and the properties at concrete states: eight pages of RAM at
-- 0x80000000 of which the boot allocator has reserved the first.
use lume.Common.{
  ℕ, ◌+◌, ◌*◌, ◌^◌, ◌≤◌, ◌<◌, ◌≡◌, refl, ap, sym, subst, true, [], ◌∷◌, none, some, arith,
}
use lume.Memblock.{Memblock, memblock_retire, memblock_for_each_free, walk_free}
use lume.Memblock.Regions.{IsValid}
use lume.Pmm.{
  Pmm, pa_to_page, page_to_pa, buddy_alloc, buddy_free, buddy_list_add, buddy_list_del, alloc_from,
  split_down, hand_out, merge, buddy_of, pmm_alloc_page, pmm_free_page, pmm_alloc_pages,
  pmm_free_pages, page_decref,
}
use lume.Pmm.Blocks.{add, Aligned}
use lume.Pmm.Buddy.{nothing}
use lume.Pmm.Alloc.{Buddies-ext}
use lume.Pmm.Cache.{out}
use lume.Pmm.Serve.{Sound, PageOutcome}
use lume.Pmm.Calls.{PageFreed, pmm_alloc_page-PageOutcome, pmm_free_page-PageFreed}
use lume.Pmm.Runs.{RunOutcome, RunFreed, pmm_alloc_pages-RunOutcome, pmm_free_pages-RunFreed}
use lume.Pmm.Counts.{recount, recount-Sound, DecrefOutcome, page_decref-DecrefOutcome}
use lume.Pmm.Feed.{
  no_blocks, claim-Buddies, feed_region, feed_pages, pick_order, block_fits, feed_block,
}
use lume.Pmm.Init.{pmm_empty, pmm_init}
use lume.Pmm.Boot.{Booted, pmm_init-Booted, pmm_empty-Buddies, pmm_empty-Below}
use lume.Pmm.Numbers.{pa_to_page-page_to_pa}

abbrev boot : Memblock
boot = record {
  mem_base = 0x80000000;
  mem_size = 0x8000;
  reserved = record { base = 0x80000000; size = 0x1000 } ∷ [];
  active = true;
}

boot-IsValid : IsValid boot
boot-IsValid = omega arith

abbrev idle : Pmm
idle = (memblock_for_each_free boot (feed_region 0x80000000) (pmm_empty 8 0x80000000 8, 0)).0

-- The seven free pages are a page, a pair and a run of four.
idle_lists :
    (idle.free_areas 0 ≡ 1 ∷ []) × (idle.free_areas 1 ≡ 2 ∷ []) × (idle.free_areas 2 ≡ 4 ∷ [])
unfolding memblock_for_each_free feed_region walk_free feed_pages pick_order block_fits feed_block
    buddy_list_add pmm_empty
idle_lists = (refl, refl, refl)

abbrev idle_run : Pmm
idle_run = buddy_list_add (pmm_empty 8 0x80000000 8) 4 2

-- A page that is taken from the run of four splits it; when it returns, the run is whole again.
split_and_merged :
    (s : Pmm) × (buddy_alloc 0 idle_run ≡ (some 4, s))
    × (s.free_areas 0 ≡ 5 ∷ [])
    × (s.free_areas 1 ≡ 6 ∷ [])
    × ((buddy_free s 4 0).free_areas 2 ≡ 4 ∷ [])
unfolding buddy_alloc alloc_from split_down hand_out buddy_list_add buddy_list_del buddy_free merge
    buddy_of pmm_empty
split_and_merged = (_, refl, refl, refl, refl)

boots :
    (s : Pmm) × (total_pages : ℕ) × (pmm_init 8 8 boot
      ≡ some (s, total_pages, memblock_retire boot))
    × Booted s boot 8
boots =
    pmm_init-Booted 8 8 boot boot-IsValid (omega arith) refl refl ((refl, refl), tt) (omega arith)
      refl (omega arith)

pmm_init-Booted_example :
    (s : Pmm) × (total_pages : ℕ) × (pmm_init 8 8 boot
      ≡ some (s, total_pages, memblock_retire boot))
    × Booted s boot 8
pmm_init-Booted_example =
    pmm_init-Booted 8 8 boot boot-IsValid (omega arith) refl refl ((refl, refl), tt) (omega arith)
      refl (omega arith)

idle-Sound : Sound idle no_blocks
unfolding pmm_init
idle-Sound =
    let (s, total_pages, runs, done) = boots in
    let same : idle ≡ s = ap (λ o. elim o as (λ x. Pmm) [ none ↦ idle | some r ↦ r.0 ]) runs in
    subst (λ t. Sound t no_blocks) (sym same) done.sound

-- The eight pages, of which callers hold a block.
abbrev lent : Pmm
lent = pmm_empty 8 0x80000000 8

lent-Sound : (o p : ℕ) → o < 11 → Aligned o p → p + 2 ^ o ≤ 8 → Sound lent (add no_blocks o p)
unfolding pmm_empty
lent-Sound o p small start room = record {
  cached = record {
    buddies =
        Buddies-ext lent (add no_blocks o p) (out [] (add no_blocks o p)) nothing nothing
          (λ k q. ground arith) (λ a. refl)
          (claim-Buddies lent o p (pmm_empty-Buddies 8 0x80000000 8)
            (pmm_empty-Below 8 0x80000000 8 p) small start room);
    unique = tt;
    apart = λ q m. cc m;
    count = refl;
  };
  small = omega arith;
  limits = omega arith;
}

pmm_alloc_page-PageOutcome_example : PageOutcome idle no_blocks (pmm_alloc_page idle)
pmm_alloc_page-PageOutcome_example = pmm_alloc_page-PageOutcome idle no_blocks idle-Sound

pmm_free_page-PageFreed_example : PageFreed lent (pmm_free_page lent 3) (add no_blocks 0 3) 3
pmm_free_page-PageFreed_example =
    pmm_free_page-PageFreed lent (add no_blocks 0 3) 3
      (lent-Sound 0 3 (omega arith) (3, refl) (omega arith)) refl

pmm_alloc_pages-RunOutcome_example : RunOutcome idle no_blocks 2 (pmm_alloc_pages idle 2)
pmm_alloc_pages-RunOutcome_example = pmm_alloc_pages-RunOutcome idle no_blocks 2 idle-Sound

pmm_free_pages-RunFreed_example :
    (s' : Pmm) × (pmm_free_pages lent 4 2 ≡ some s') × RunFreed lent s' (add no_blocks 2 4) 2 4
pmm_free_pages-RunFreed_example =
    pmm_free_pages-RunFreed lent (add no_blocks 2 4) 2 4
      (lent-Sound 2 4 (omega arith) (1, refl) (omega arith)) refl

page_decref-DecrefOutcome_example :
    DecrefOutcome (recount lent 3 1) (add no_blocks 0 3) 3 (page_decref (recount lent 3 1) 3)
unfolding pmm_empty
page_decref-DecrefOutcome_example =
    page_decref-DecrefOutcome (recount lent 3 1) (add no_blocks 0 3) 3
      (recount-Sound lent 3 1 (add no_blocks 0 3)
        (lent-Sound 0 3 (omega arith) (3, refl) (omega arith)))
      refl (omega arith) (omega arith)

pa_to_page-page_to_pa_example :
    (pa : ℕ) × (page_to_pa lent 5 ≡ some pa)
    × (pa ≡ 0x80000000 + 5 * 4096)
    × (pa_to_page lent (pa + 17) ≡ some 5)
unfolding pmm_empty
pa_to_page-page_to_pa_example =
    pa_to_page-page_to_pa lent 5 17 (omega arith) (omega arith) (omega arith)

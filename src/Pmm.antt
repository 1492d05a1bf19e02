-- ===== src/Pmm.antt =====
-- na/mm/pmm.cc, na/include/lume/pmm.h and page.h: the buddy allocator with the page cache of the CPU
-- that runs. A page is its frame number, an index of the page map, which is a function; a free list
-- is the list of its members. The lock, and interrupts that are off, make each operation one step;
-- `none` is `kernel_panic`. The pages in the caches of other CPUs count as handed out.
pub mod Blocks
pub mod Buddy
pub mod Split
pub mod Alloc
pub mod Take
pub mod Join
pub mod Merge
pub mod Release
pub mod Cache
pub mod Refill
pub mod Drain
pub mod Serve
pub mod Calls
pub mod Runs
pub mod Counts
pub mod Feed
pub mod Init
pub mod Boot
pub mod Numbers
mod Tests
use lume.Common.{
  ℕ, zero, suc, ◌+◌, ◌-◌, ◌*◌, ◌/◌, ◌%◌, ◌^◌, Bool, true, false, ◌&&◌, ◌||◌, not, List, [], ◌∷◌,
  Option, none, some, bit_xor, ◌==◌, leb, ltb, if◌then◌else◌, update, unlink,
}
use lume.Word.{add64, sub64}

pub data PageState : Type 0 where
  free pcp_cached allocated slab : PageState

-- The part of a page's descriptor that does not depend on its state; the links are in the lists.
pub record Page : Type 0 where
  pub refcount : ℕ
  pub state : PageState
  pub order : ℕ

abbrev pub max_order : ℕ
max_order = 11

pub record PerCpuCache : Type 0 where
  pub free_list : List ℕ
  pub count : ℕ

pub record Pmm : Type 0 where
  pub page_map : ℕ → Page
  pub free_areas : ℕ → List ℕ
  pub pcp : PerCpuCache
  pub mem_base : ℕ
  pub num_pages : ℕ
  pub pcp_high_watermark : ℕ
  pub pcp_batch_size : ℕ

unfoldable pub pa_to_page : Pmm → ℕ → Option ℕ
pa_to_page s pa =
    if ltb pa s.mem_base || leb (add64 s.mem_base (s.num_pages * 4096)) pa
    then none
    else some (sub64 pa s.mem_base / 4096)

unfoldable pub page_to_pa : Pmm → ℕ → Option ℕ
page_to_pa s page = if leb s.num_pages page then none else some (add64 s.mem_base (page * 4096))

unfoldable pub buddy_of : Pmm → ℕ → ℕ → Option ℕ
buddy_of s page order =
    let buddy_pfn = bit_xor page (2 ^ order) in
    if leb s.num_pages buddy_pfn then none else some buddy_pfn

unfoldable pub buddy_list_add : Pmm → ℕ → ℕ → Pmm
buddy_list_add s page order = record s {
  page_map =
      update s.page_map page (record (s.page_map page) { state = PageState.free; order = order });
  free_areas = update s.free_areas order (page ∷ s.free_areas order);
}

unfoldable pub buddy_list_del : Pmm → ℕ → Pmm
buddy_list_del s page = record s { free_areas = λ o. unlink page (s.free_areas o) }

-- The inner loop of `buddy_alloc`, from order + k down to the order: each upper half becomes free.
unfoldable pub split_down : ℕ → ℕ → Pmm → ℕ → Pmm
split_down zero order s page = s
split_down (suc k) order s page =
    split_down k order (buddy_list_add s (page + 2 ^ (order + k)) (order + k)) page

unfoldable pub hand_out : Pmm → ℕ → ℕ → Pmm
hand_out s page order = record s {
  page_map =
      update s.page_map page (record { refcount = 1; state = PageState.allocated; order = order });
}

-- The outer loop of `buddy_alloc`, at `cur` = order + k, with the orders that are left.
unfoldable pub alloc_from : ℕ → ℕ → ℕ → Pmm → Option ℕ × Pmm
alloc_from zero k order s = (none, s)
alloc_from (suc left) k order s = elim (s.free_areas (order + k)) [
  | [] ↦ alloc_from left (suc k) order s
  | page ∷ _ ↦ (some page, hand_out (split_down k order (buddy_list_del s page) page) page order)
]

unfoldable pub buddy_alloc : ℕ → Pmm → Option ℕ × Pmm
buddy_alloc order s = alloc_from (max_order - order) 0 order s

abbrev pub is_free : PageState → Bool
is_free PageState.free = true
is_free _ = false

abbrev pub mergeable : Page → ℕ → Bool
mergeable buddy order = is_free buddy.state && (buddy.order == order)

-- The loop of `buddy_free`, with the rounds that are left until the greatest order.
unfoldable pub merge : ℕ → Pmm → ℕ → ℕ → Pmm
merge zero s page order = buddy_list_add s page order
merge (suc left) s page order = elim (buddy_of s page order) [
  | none ↦ buddy_list_add s page order
  | some buddy ↦
      let merged =
        merge left (buddy_list_del s buddy) (if ltb buddy page then buddy else page) (suc order) in
      if mergeable (s.page_map buddy) order then merged else buddy_list_add s page order
]

unfoldable pub buddy_free : Pmm → ℕ → ℕ → Pmm
buddy_free s page order = merge (max_order - 1 - order) s page order

-- Puts a page at the front of the cache.
unfoldable pub pcp_push : Pmm → ℕ → Pmm
pcp_push s page = record s {
  page_map = update s.page_map page (record (s.page_map page) { state = PageState.pcp_cached });
  pcp = record { free_list = page ∷ s.pcp.free_list; count = (s.pcp.count + 1) % 2 ^ 32 };
}

-- The rounds of `refill_pcp`.
unfoldable pub refill_pcp : ℕ → Pmm → Pmm
refill_pcp zero s = s
refill_pcp (suc left) s =
    let (page, s') = buddy_alloc 0 s in
    elim page [ none ↦ s' | some p ↦ refill_pcp left (pcp_push s' p) ]

-- The rounds of `drain_pcp`.
unfoldable pub drain_rounds : ℕ → Pmm → Pmm
drain_rounds zero s = s
drain_rounds (suc left) s = elim s.pcp.free_list [
  | [] ↦ s
  | page ∷ rest ↦ drain_rounds left (
      buddy_free
        (record s {
          pcp = record { free_list = rest; count = (s.pcp.count + 2 ^ 32 - 1) % 2 ^ 32 };
        })
        page 0)
]

unfoldable pub drain_pcp : Pmm → Pmm
drain_pcp s = drain_rounds (s.pcp.count / 2) s

-- The page is taken from the cache's front, with the check of its bounds; `none` is a panic. With a
-- count above 0 and no page the source takes the head of the list for one, which is `none` too.
unfoldable pub pcp_pop : Pmm → Option (Option ℕ × Pmm)
pcp_pop s = elim s.pcp.free_list [
  | [] ↦ none
  | page ∷ rest ↦
      if leb s.num_pages page
      then none
      else some (
        some page,
        hand_out
            (record s {
              pcp = record { free_list = rest; count = (s.pcp.count + 2 ^ 32 - 1) % 2 ^ 32 };
            })
            page 0,
      )
]

unfoldable pub pmm_alloc_page : Pmm → Option (Option ℕ × Pmm)
pmm_alloc_page s =
    let filled = if s.pcp.count == 0 then refill_pcp s.pcp_batch_size s else s in
    if ltb 0 filled.pcp.count then pcp_pop filled else some (none, filled)

unfoldable pub pmm_free_page : Pmm → ℕ → Pmm
pmm_free_page s page =
    let named : Pmm = record s {
      page_map = update s.page_map page (record (s.page_map page) { order = 0 });
    } in
    let pushed = pcp_push named page in
    if leb pushed.pcp_high_watermark pushed.pcp.count then drain_pcp pushed else pushed

unfoldable pub pmm_alloc_pages : Pmm → ℕ → Option ℕ × Pmm
pmm_alloc_pages s order = if leb max_order order then (none, s) else buddy_alloc order s

unfoldable pub pmm_free_pages : Pmm → ℕ → ℕ → Option Pmm
pmm_free_pages s page order = if leb max_order order then none else some (buddy_free s page order)

unfoldable pub page_incref : Pmm → ℕ → Pmm
page_incref s page = record s {
  page_map =
      update s.page_map page
        (record (s.page_map page) { refcount = ((s.page_map page).refcount + 1) % 2 ^ 32 });
}

unfoldable pub page_decref : Pmm → ℕ → Option Pmm
page_decref s page =
    let old = s.page_map page in
    let s' : Pmm = record s {
      page_map =
          update s.page_map page (record old { refcount = (old.refcount + 2 ^ 32 - 1) % 2 ^ 32 });
    } in
    if old.refcount == 1
    then (if old.order == 0 then some (pmm_free_page s' page) else pmm_free_pages s' page old.order)
    else some s'

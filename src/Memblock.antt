-- ===== src/Memblock.antt =====
-- na/mm/memblock.cc: the boot-time allocator. The array `reserved` with its count is a list.
pub mod Regions
pub mod Reserve
pub mod Free
pub mod Alloc
pub mod AllocTop
pub mod Init
mod Tests
use lume.Common.{
  ℕ, zero, suc, ◌==◌, Bool, true, false, ◌&&◌, not, List, [], ◌∷◌, reverse, ltb, leb, if◌then◌else◌,
  length,
}
use lume.Word.{add64, sub64, mask_down}
use lume.Addr.{page_align_up, page_align_down, boot_va_to_pa}

pub record Region : Type 0 where
  pub base : ℕ
  pub size : ℕ

pub record Memblock : Type 0 where
  pub mem_base : ℕ
  pub mem_size : ℕ
  pub reserved : List Region
  pub active : Bool

abbrev pub max_regions : ℕ
max_regions = 128

-- The messages of `kernel_panic`, which does not return.
pub data Panic : Type 0 where
  too_many_regions out_of_memory zero_memory : Panic

-- `out_of_fuel` stands for a loop that has not ended; the theorems show that it does not occur.
pub data Outcome (A : Type 0) : Type 0 where
  ok : A → Outcome A
  panic : Panic → Outcome A
  out_of_fuel : Outcome A

infixl 5 ◌>>=◌
abbrev pub ◌>>=◌ : {A B : Type 0} → Outcome A → (A → Outcome B) → Outcome B
ok a >>= f = f a
panic p >>= f = panic p
out_of_fuel >>= f = out_of_fuel

-- The `while` loop of `insert_reserved`, on the slots below `i` with the nearest first: larger
-- bases move one slot up.
unfoldable pub shift_up : List Region → Region → List Region
shift_up [] new = new ∷ []
shift_up (r ∷ below) new =
    let moved = shift_up below new in if ltb new.base r.base then r ∷ moved else new ∷ r ∷ below

unfoldable pub insert_reserved : Memblock → ℕ → ℕ → Outcome Memblock
insert_reserved mb base size =
    if leb max_regions (length mb.reserved)
    then panic too_many_regions
    else ok (record mb {
      reserved = reverse (shift_up (reverse mb.reserved) (record { base = base; size = size }));
    })

-- The loop of `overlaps_reserved`.
unfoldable pub overlaps : List Region → ℕ → ℕ → Bool
overlaps [] base end = false
overlaps (r ∷ rs) base end =
    if ltb base (add64 r.base r.size) && ltb r.base end then true else overlaps rs base end

unfoldable pub overlaps_reserved : Memblock → ℕ → ℕ → Bool
overlaps_reserved mb base size = overlaps mb.reserved base (add64 base size)

unfoldable pub reserved_end_covering : List Region → ℕ → ℕ
reserved_end_covering [] addr = addr
reserved_end_covering (r ∷ rs) addr =
    if leb r.base addr && ltb addr (add64 r.base r.size)
    then add64 r.base r.size
    else reserved_end_covering rs addr

unfoldable pub memblock_reserve : Memblock → ℕ → ℕ → Outcome Memblock
memblock_reserve mb base size =
    let aligned_base = page_align_down base in
    let aligned_end = page_align_up (add64 base size) in
    insert_reserved mb aligned_base (sub64 aligned_end aligned_base)

-- `memblock_reserve(start, size); return start;`
unfoldable pub take_slot : Memblock → ℕ → ℕ → Outcome (ℕ × Memblock)
take_slot mb start size = do mb' ← memblock_reserve mb start size; ok (start, mb')

-- The loop of `memblock_alloc_top`.
unfoldable pub search_down : ℕ → Memblock → ℕ → ℕ → ℕ → ℕ → Outcome (ℕ × Memblock)
search_down zero mb mem_end size align start = out_of_fuel
search_down (suc fuel) mb mem_end size align start =
    let lower = search_down fuel mb mem_end size align (sub64 start align) in
    if leb mb.mem_base start && leb (add64 start size) mem_end
    then (if not (overlaps_reserved mb start size)
        then take_slot mb start size
        else (if ltb start align then panic out_of_memory else lower))
    else panic out_of_memory

-- The fuel: `start` falls by `align` in each round.
unfoldable pub memblock_alloc_top : Memblock → ℕ → ℕ → Outcome (ℕ × Memblock)
memblock_alloc_top mb size align =
    let mem_end = add64 mb.mem_base mb.mem_size in
    let end = page_align_down mem_end in
    let start = mask_down (sub64 end size) align in
    search_down (suc start) mb mem_end size align start

-- The loop of `memblock_alloc`.
unfoldable pub search_up : ℕ → Memblock → ℕ → ℕ → ℕ → ℕ → Outcome (ℕ × Memblock)
search_up zero mb mem_end size align start = out_of_fuel
search_up (suc fuel) mb mem_end size align start =
    let slot = mask_down (sub64 (add64 start align) 1) align in
    let skip = reserved_end_covering mb.reserved slot in
    let higher =
      search_up fuel mb mem_end size align (if leb skip slot then add64 slot align else skip) in
    if leb (add64 start size) mem_end
    then (if ltb mem_end (add64 slot size)
        then panic out_of_memory
        else (if not (overlaps_reserved mb slot size) then take_slot mb slot size else higher))
    else panic out_of_memory

-- The fuel: `start` grows in each round and stays below `mem_end`.
unfoldable pub memblock_alloc : Memblock → ℕ → ℕ → Outcome (ℕ × Memblock)
memblock_alloc mb size align =
    let mem_end = add64 mb.mem_base mb.mem_size in
    search_up (suc mem_end) mb mem_end size align (page_align_up mb.mem_base)

-- The loop of `memblock_for_each_free`, which tests `pos < mem_end` before each region, with the
-- call for a trailing region behind it. The callback maps the context that it is given.
unfoldable pub walk_free : {S : Type 0} → (ℕ → ℕ → S → S) → ℕ → ℕ → List Region → S → S
walk_free callback mem_end pos [] ctx =
    if ltb pos mem_end then callback pos (sub64 mem_end pos) ctx else ctx
walk_free callback mem_end pos (r ∷ rs) ctx =
    let end = add64 r.base r.size in
    let skipped = walk_free callback mem_end (if ltb pos end then end else pos) rs ctx in
    let after_gap = walk_free callback mem_end end rs (callback pos (sub64 r.base pos) ctx) in
    let after = walk_free callback mem_end end rs ctx in
    if ltb pos mem_end
    then (if ltb r.base pos then skipped else (if ltb pos r.base then after_gap else after))
    else ctx

unfoldable pub memblock_for_each_free : {S : Type 0} → Memblock → (ℕ → ℕ → S → S) → S → S
memblock_for_each_free mb callback ctx =
    walk_free callback (add64 mb.mem_base mb.mem_size) mb.mem_base mb.reserved ctx

unfoldable pub memblock_retire : Memblock → Memblock
memblock_retire mb = record mb { active = false }

-- The firmware lies between the start of RAM and the kernel image.
unfoldable pub reserve_firmware : Memblock → ℕ → ℕ → Outcome Memblock
reserve_firmware mb mem_base ks_pa =
    if ltb mem_base ks_pa then memblock_reserve mb mem_base (sub64 ks_pa mem_base) else ok mb

-- What the flattened device tree says of RAM and what the linker says of the image are arguments.
unfoldable pub memblock_init : ℕ → ℕ → ℕ → ℕ → ℕ → Outcome Memblock
memblock_init default_base fdt_base fdt_size stext kernel_end =
    let ks_pa = boot_va_to_pa default_base stext in
    let ke_pa = boot_va_to_pa default_base kernel_end in
    let fresh : Memblock = record {
      mem_base = fdt_base;
      mem_size = fdt_size;
      reserved = [];
      active = true;
    } in
    if fdt_size == 0
    then panic zero_memory
    else (reserve_firmware fresh fdt_base ks_pa >>= λ mb.
        memblock_reserve mb ks_pa (sub64 ke_pa ks_pa))

-- ===== src/Memblock/AllocTop.antt =====
-- `memblock_alloc_top` of na/mm/memblock.cc: the highest free slot, and what happens to a request
-- that is larger than the addresses below the end of RAM.
use native.Mathlib.Nat.{div-mul-le_self, mod-eq-sub-mod, mul-mod_left}
use lume.Common.{
  ℕ, zero, suc, ◌+◌, ◌-◌, ◌*◌, ◌/◌, ◌%◌, ◌≤◌, ◌<◌, ◌^◌, ◌≡◌, refl, inl, inr, true, false, ltb, leb,
  length, arith, tests, ltb→le, ltb→lt, Bool-cases, ◌∙◌, sym,
}
use lume.Word.{add64, sub64}
use lume.Word.Bits.{mask_down-pow, pow-pos}
use lume.Addr.Align.{page_align_down_lem}
use lume.Memblock.{
  Memblock, Outcome, ok, panic, out_of_fuel, too_many_regions, out_of_memory, zero_memory,
  max_regions, memblock_reserve, take_slot, search_down, memblock_alloc_top, overlaps_reserved,
  overlaps,
}
use lume.Memblock.Reserve.{page_floor, memblock_reserve_some, memblock_reserve_lem}
use lume.Memblock.Regions.{
  IsValid, phys_limit, overlaps_beyond, overlaps_reserved-IsFree, overlaps_reserved-taken,
}
use lume.Memblock.Alloc.{IsSlot, multiples_apart}

-- What a search from `hi` downwards answers: the highest slot of RAM up to `hi`, reserved as
-- `memblock_reserve` does it, or a panic.
abbrev pub Highest : Memblock → ℕ → ℕ → ℕ → Outcome (ℕ × Memblock) → Type 0
Highest mb size align hi (ok (a, mb')) =
    IsSlot mb size align a
    × (mb.mem_base ≤ a)
    × (a ≤ hi)
    × ((b : ℕ) → IsSlot mb size align b → mb.mem_base ≤ b → b ≤ hi → b ≤ a)
    × (memblock_reserve mb a size ≡ ok mb')
Highest mb size align hi (panic out_of_memory) =
    (b : ℕ) → IsSlot mb size align b → mb.mem_base ≤ b → b ≤ hi → ⊥
Highest mb size align hi (panic too_many_regions) = length mb.reserved ≡ max_regions
Highest mb size align hi (panic zero_memory) = ⊥
Highest mb size align hi out_of_fuel = ⊥

Highest-weaken :
    (mb : Memblock) (size align lo hi : ℕ) (r : Outcome (ℕ × Memblock))
    → lo ≤ hi
    → ((b : ℕ) → IsSlot mb size align b → b ≤ hi → b ≤ lo)
    → Highest mb size align lo r
    → Highest mb size align hi r
Highest-weaken mb size align lo hi (ok (a, mb')) h skip k =
    (k.0, k.1, omega (arith, k.2), λ b s m l. k.3 b s m (skip b s l), k.4)
Highest-weaken mb size align lo hi (panic out_of_memory) h skip k = λ b s m l. k b s m (skip b s l)
Highest-weaken mb size align lo hi (panic too_many_regions) h skip k = k
Highest-weaken mb size align lo hi (panic zero_memory) h skip k = k
Highest-weaken mb size align lo hi out_of_fuel h skip k = k

take_slot-Highest :
    (mb : Memblock) (size align a : ℕ)
    → IsValid mb
    → IsSlot mb size align a
    → mb.mem_base ≤ a
    → Highest mb size align a (take_slot mb a size)
unfolding take_slot
take_slot-Highest mb size align a v s m =
    elim (memblock_reserve_lem mb a size v (omega (arith, s.in_ram, v.ram))) [
      | inl (full, e) ↦ rw e full
      | inr (mb', e, _) ↦ rw e (s, m, omega arith, λ b t n l. l, e)
    ]

module _ (mb : Memblock) (size w k : ℕ) (v : IsValid mb) (size_limit : size ≤ phys_limit)
    (word : w + k ≡ 64) (align_limit : 2 ^ k ≤ phys_limit) where
  abbrev mem_end : ℕ
  mem_end = mb.mem_base + mb.mem_size

  -- The slots below one that is taken are lower by `align` at least.
  lower_slot :
      (a b : ℕ)
      → a + size ≤ mem_end
      → a % 2 ^ k ≡ 0
      → overlaps_reserved mb a size ≡ true
      → IsSlot mb size (2 ^ k) b
      → b ≤ a
      → b + 2 ^ k ≤ a
  lower_slot a b h e taken s l = elim (Bool-cases (ltb b a)) [
    | inl less ↦ multiples_apart (2 ^ k) b a (pow-pos k) s.aligned e (ltb→lt b a less)
    | inr same ↦
        let eq : b ≡ a = omega (arith, ltb→le b a same) in
        absurd (overlaps_reserved-taken mb a size v (omega (arith, v.ram)) taken (rw eq at s.free))
  ]

  search_down-Highest :
      (fuel a : ℕ)
      → a + size ≤ mem_end
      → a % 2 ^ k ≡ 0
      → a < fuel
      → Highest mb size (2 ^ k) a (search_down fuel mb mem_end size (2 ^ k) a)
  unfolding search_down
  search_down-Highest zero a h e m = absurd (omega arith)
  search_down-Highest (suc fuel) a h e m = elim (Bool-cases (leb mb.mem_base a)) [
    | inr under ↦ rw (under, search_down) (λ b s n l. omega tests)
    | inl above ↦
        let room : leb (add64 a size) mem_end ≡ true = ground (arith, v.ram) in
        elim (Bool-cases (overlaps_reserved mb a size)) [
          | inr free ↦
              rw (above, room, free, search_down)
                (take_slot-Highest mb size (2 ^ k) a v
                  (record {
                    aligned = e;
                    in_ram = h;
                    free = overlaps_reserved-IsFree mb a size v (omega (arith, v.ram)) free;
                  })
                  (omega tests))
          | inl taken ↦ elim (Bool-cases (ltb a (2 ^ k))) [
            | inl last ↦
                rw (above, room, taken, last, search_down)
                  (λ b s n l. omega (tests, lower_slot a b h e taken s l))
            | inr more ↦
                rw (above, room, taken, more, search_down)
                  (let next : sub64 a (2 ^ k) ≡ a - 2 ^ k = omega (tests, v.ram) in
                    let from : 2 ^ k ≤ a = ltb→le a (2 ^ k) more in
                    rw next (
                      Highest-weaken mb size (2 ^ k) (a - 2 ^ k) a _ (omega arith)
                        (λ b s l. omega (arith, lower_slot a b h e taken s l))
                        (search_down-Highest fuel (a - 2 ^ k) (omega arith)
                          (sym (mod-eq-sub-mod from) ∙ e) (omega (arith, pow-pos k)))))
          ]
        ]
  ]

  -- The highest multiple of the alignment at which the request ends within the whole pages of RAM.
  abbrev pub top_slot : ℕ
  top_slot = (page_floor mem_end - size) / 2 ^ k * 2 ^ k

  -- For a power of two to align to, and a request that is not larger than the end of RAM,
  -- `memblock_alloc_top` ends: it hands out the highest aligned range of RAM up to the last whole
  -- page that meets no reserved region, having reserved it, panics for want of memory only if there
  -- is none, and otherwise only if the array of regions is full.
  pub memblock_alloc_top-Highest :
      size ≤ page_floor mem_end
      → Highest mb size (2 ^ k) top_slot (memblock_alloc_top mb size (2 ^ k))
  unfolding memblock_alloc_top
  memblock_alloc_top-Highest fits =
      let sum : add64 mb.mem_base mb.mem_size ≡ mem_end = omega (arith, v.ram) in
      let gap : sub64 (page_floor mem_end) size ≡ page_floor mem_end - size =
        omega (arith, v.ram) in
      rw
        (
          sum,
          page_align_down_lem mem_end (omega (arith, v.ram)),
          gap,
          mask_down-pow w k (page_floor mem_end - size) word (omega (arith, v.ram)),
        )
        (search_down-Highest (suc top_slot) top_slot
          (omega (arith, div-mul-le_self (page_floor mem_end - size) (2 ^ k)))
          (mul-mod_left ((page_floor mem_end - size) / 2 ^ k) (2 ^ k)) (omega arith))

-- A request of whole pages that is larger than the end of RAM wraps below address 0: if the array
-- has room, the caller is handed an address beyond all memory.
pub alloc_top_wraps :
    (mb : Memblock) (size : ℕ)
    → IsValid mb
    → length mb.reserved < max_regions
    → page_floor (mb.mem_base + mb.mem_size) < size
    → size ≤ phys_limit
    → size % 4096 ≡ 0
    → (mb' : Memblock) × (memblock_alloc_top mb size 4096
        ≡ ok (2 ^ 64 + page_floor (mb.mem_base + mb.mem_size) - size, mb'))
unfolding memblock_alloc_top search_down overlaps_reserved take_slot
alloc_top_wraps mb size v free big limit whole =
    let end = page_floor (mb.mem_base + mb.mem_size) in
    let start = 2 ^ 64 + end - size in
    let sum : add64 mb.mem_base mb.mem_size ≡ mb.mem_base + mb.mem_size = omega (arith, v.ram) in
    let gap : sub64 end size ≡ start = omega (arith, v.ram) in
    let exact : start / 4096 * 4096 ≡ start = omega (arith, v.ram) in
    let above : leb mb.mem_base start ≡ true = ground (arith, v.ram) in
    let room : leb (add64 start size) (mb.mem_base + mb.mem_size) ≡ true = ground (arith, v.ram) in
    let clear : overlaps mb.reserved start (add64 start size) ≡ false =
      overlaps_beyond mb.reserved start (add64 start size) v.limits (omega (arith, v.ram)) in
    let (mb', reserved) = memblock_reserve_some mb start size free in
    (
      mb',
      rw (
        sum,
        page_align_down_lem (mb.mem_base + mb.mem_size) (omega (arith, v.ram)),
        gap,
        mask_down-pow 52 12 start refl (omega (arith, v.ram)),
        exact,
        above,
        room,
        clear,
        reserved,
      ),
    )

-- ===== src/Memblock/Alloc.antt =====
-- `memblock_alloc` of na/mm/memblock.cc: the lowest free slot, or a panic where there is none.
use native.Mathlib.Nat.{div-lt_iff_lt-mul, mod-lt, mul-mod_left, div-add-mod'}
use lume.Common.{
  ℕ, zero, suc, ◌+◌, ◌-◌, ◌*◌, ◌/◌, ◌%◌, ◌≤◌, ◌<◌, ◌^◌, ◌≡◌, inl, inr, true, ltb, leb, length,
  arith, tests, ltb→le, ltb→lt, Bool-cases, not, if◌then◌else◌,
}
use lume.Word.{add64, sub64, mask_down}
use lume.Word.Bits.{mask_down-pow, pow-pos}
use lume.Addr.Align.{page_align_up-fits}
use lume.Memblock.{
  Memblock, Outcome, ok, panic, out_of_fuel, too_many_regions, out_of_memory, zero_memory,
  max_regions, memblock_reserve, take_slot, search_up, memblock_alloc, overlaps_reserved,
  reserved_end_covering,
}
use lume.Memblock.Reserve.{page_ceil, memblock_reserve_lem}
use lume.Memblock.Regions.{
  IsValid, phys_limit, IsFree, overlaps_reserved-IsFree, overlaps_reserved-taken,
  reserved_end_covering_skips, reserved_end_covering_bound,
}

-- `(x + p - 1) & ~(p - 1)` for a power of two p is the least multiple of p from x on.
round_up-least : (p x b : ℕ) → 0 < p → b % p ≡ 0 → x ≤ b → (x + p - 1) / p * p ≤ b
round_up-least p x b h e l =
    let whole : b / p * p ≡ b = omega (arith, div-add-mod' b p) in
    let below : x + p - 1 < suc (b / p) * p = omega arith in
    let fits : (x + p - 1) / p ≤ b / p = omega (arith, (div-lt_iff_lt-mul h).1 below) in grind arith

round_up_bounds : (p x : ℕ) → 0 < p → (x ≤ (x + p - 1) / p * p) × ((x + p - 1) / p * p < x + p)
round_up_bounds p x h = omega (arith, div-add-mod' (x + p - 1) p, mod-lt (x + p - 1) h)

pub multiples_apart : (p a b : ℕ) → 0 < p → a % p ≡ 0 → b % p ≡ 0 → a < b → a + p ≤ b
multiples_apart p a b h e f l =
    let whole_a : a / p * p ≡ a = omega (arith, div-add-mod' a p) in
    let whole_b : b / p * p ≡ b = omega (arith, div-add-mod' b p) in
    let fewer : a / p < b / p = (div-lt_iff_lt-mul h).1 (omega arith) in grind arith

le_of_not_skipped : (skip b : ℕ) → (b < skip → ⊥) → skip ≤ b
le_of_not_skipped skip b h = elim (Bool-cases (ltb b skip)) [
  | inl under ↦ absurd (h (ltb→lt b skip under))
  | inr over ↦ ltb→le b skip over
]

-- A place where the request could go.
pub record IsSlot (mb : Memblock) (size align b : ℕ) : Type 0 where
  pub aligned : b % align ≡ 0
  pub in_ram : b + size ≤ mb.mem_base + mb.mem_size
  pub free : IsFree b size mb.reserved

-- What a search from `lo` upwards answers: the lowest slot from `lo` on, reserved as
-- `memblock_reserve` does it, or a panic.
abbrev pub Lowest : Memblock → ℕ → ℕ → ℕ → Outcome (ℕ × Memblock) → Type 0
Lowest mb size align lo (ok (a, mb')) =
    IsSlot mb size align a
    × (lo ≤ a)
    × ((b : ℕ) → IsSlot mb size align b → lo ≤ b → a ≤ b)
    × (memblock_reserve mb a size ≡ ok mb')
Lowest mb size align lo (panic out_of_memory) = (b : ℕ) → IsSlot mb size align b → lo ≤ b → ⊥
Lowest mb size align lo (panic too_many_regions) = length mb.reserved ≡ max_regions
Lowest mb size align lo (panic zero_memory) = ⊥
Lowest mb size align lo out_of_fuel = ⊥

Lowest-weaken :
    (mb : Memblock) (size align lo hi : ℕ) (r : Outcome (ℕ × Memblock))
    → lo ≤ hi
    → ((b : ℕ) → IsSlot mb size align b → lo ≤ b → hi ≤ b)
    → Lowest mb size align hi r
    → Lowest mb size align lo r
Lowest-weaken mb size align lo hi (ok (a, mb')) h skip k =
    (k.0, omega (arith, k.1), λ b s l. k.2 b s (skip b s l), k.3)
Lowest-weaken mb size align lo hi (panic out_of_memory) h skip k = λ b s l. k b s (skip b s l)
Lowest-weaken mb size align lo hi (panic too_many_regions) h skip k = k
Lowest-weaken mb size align lo hi (panic zero_memory) h skip k = k
Lowest-weaken mb size align lo hi out_of_fuel h skip k = k

take_slot-Lowest :
    (mb : Memblock) (size align lo a : ℕ)
    → IsValid mb
    → IsSlot mb size align a
    → lo ≤ a
    → ((b : ℕ) → IsSlot mb size align b → lo ≤ b → a ≤ b)
    → Lowest mb size align lo (take_slot mb a size)
unfolding take_slot
take_slot-Lowest mb size align lo a v s l least =
    elim (memblock_reserve_lem mb a size v (omega (arith, s.in_ram, v.ram))) [
      | inl (full, e) ↦ rw e full
      | inr (mb', e, _) ↦ rw e (s, l, least, e)
    ]

module _ (mb : Memblock) (size w k : ℕ) (v : IsValid mb) (some_bytes : 0 < size)
    (size_limit : size ≤ phys_limit) (word : w + k ≡ 64) (align_limit : 2 ^ k ≤ phys_limit) where
  mem_end_eq : add64 mb.mem_base mb.mem_size ≡ mb.mem_base + mb.mem_size
  mem_end_eq = omega (arith, v.ram)

  slot_eq :
      (start : ℕ)
      → start ≤ 2 ^ 57
      → mask_down (sub64 (add64 start (2 ^ k)) 1) (2 ^ k) ≡ (start + 2 ^ k - 1) / 2 ^ k * 2 ^ k
  slot_eq start h =
      let e : sub64 (add64 start (2 ^ k)) 1 ≡ start + 2 ^ k - 1 = omega (arith, pow-pos k) in
      rw e (mask_down-pow w k (start + 2 ^ k - 1) word (omega arith))

  -- Where the search goes on if the slot at `a` is taken.
  abbrev next_start : ℕ → ℕ
  next_start a =
      let skip = reserved_end_covering mb.reserved a in if leb skip a then add64 a (2 ^ k) else skip

  next_start_bounds : (a : ℕ) → a ≤ phys_limit → (a < next_start a) × (next_start a ≤ 2 ^ 57)
  next_start_bounds a h =
      ground (arith, reserved_end_covering_bound mb.reserved a v.limits, pow-pos k)

  next_start-le :
      (a b : ℕ)
      → a ≤ phys_limit
      → a % 2 ^ k ≡ 0
      → overlaps_reserved mb a size ≡ true
      → IsSlot mb size (2 ^ k) b
      → a ≤ b
      → next_start a ≤ b
  next_start-le a b h e taken s l = elim (Bool-cases (ltb a b)) [
    | inr same ↦
        let eq : b ≡ a = omega (arith, ltb→le a b same) in
        absurd (overlaps_reserved-taken mb a size v (omega arith) taken (rw eq at s.free))
    | inl later ↦ elim (Bool-cases (leb (reserved_end_covering mb.reserved a) a)) [
      | inl stay ↦
          rw stay
            (omega (arith, multiples_apart (2 ^ k) a b (pow-pos k) e s.aligned (ltb→lt a b later)))
      | inr skip ↦ rw skip (
          le_of_not_skipped (reserved_end_covering mb.reserved a) b (λ under.
            reserved_end_covering_skips mb.reserved a size b v.limits some_bytes l under s.free))
    ]
  ]

  -- One round, from the slot `a` that belongs to `start`.
  round-Lowest :
      (fuel start a : ℕ)
      → start ≤ a
      → a ≤ 2 ^ 58
      → a % 2 ^ k ≡ 0
      → ((b : ℕ) → IsSlot mb size (2 ^ k) b → start ≤ b → a ≤ b)
      → ((next : ℕ)
          → next ≤ 2 ^ 57
          → a < next
          → a < mb.mem_base + mb.mem_size
          → Lowest mb size
              (2 ^ k)
              next
              (search_up fuel mb (mb.mem_base + mb.mem_size) size (2 ^ k) next))
      → Lowest mb size (2 ^ k) start (
          if ltb (mb.mem_base + mb.mem_size) (add64 a size)
          then panic out_of_memory
          else (if not (overlaps_reserved mb a size)
              then take_slot mb a size
              else search_up fuel mb (mb.mem_base + mb.mem_size) size (2 ^ k) (next_start a)))
  round-Lowest fuel start a l h e least rec =
      elim (Bool-cases (ltb (mb.mem_base + mb.mem_size) (add64 a size))) [
        | inl over ↦ rw over (λ b s from. omega (tests, least b s from, s.in_ram))
        | inr fits ↦ elim (Bool-cases (overlaps_reserved mb a size)) [
          | inr free ↦
              rw (fits, free)
                (take_slot-Lowest mb size (2 ^ k) start a v
                  (record {
                    aligned = e;
                    in_ram = omega (tests, size_limit);
                    free = overlaps_reserved-IsFree mb a size v (omega arith) free;
                  })
                  l least)
          | inl taken ↦
              rw (fits, taken)
                (let inside : a < mb.mem_base + mb.mem_size = omega tests in
                  let bounds = next_start_bounds a (omega (arith, v.ram)) in
                  Lowest-weaken mb size (2 ^ k) start (next_start a) _ (omega (arith, bounds.0))
                    (λ b s from.
                      next_start-le a b (omega (arith, v.ram)) e taken s (least b s from))
                    (rec (next_start a) bounds.1 bounds.0 inside))
        ]
      ]

  search_up-Lowest :
      (fuel start : ℕ)
      → start ≤ 2 ^ 57
      → mb.mem_base + mb.mem_size - start < fuel
      → Lowest mb size
          (2 ^ k)
          start
          (search_up fuel mb (mb.mem_base + mb.mem_size) size (2 ^ k) start)
  unfolding search_up
  search_up-Lowest zero start h m = absurd (omega arith)
  search_up-Lowest (suc fuel) start h m =
      elim (Bool-cases (leb (add64 start size) (mb.mem_base + mb.mem_size))) [
        | inr no_room ↦ rw (no_room, search_up) (λ b s l. omega (tests, s.in_ram))
        | inl room ↦
            rw (room, slot_eq start h, search_up)
              (let bounds = round_up_bounds (2 ^ k) start (pow-pos k) in
                round-Lowest fuel start ((start + 2 ^ k - 1) / 2 ^ k * 2 ^ k) bounds.0
                  (omega (arith, bounds.1)) (mul-mod_left ((start + 2 ^ k - 1) / 2 ^ k) (2 ^ k))
                  (λ b s l. round_up-least (2 ^ k) start b (pow-pos k) s.aligned l)
                  (λ next hn after inside. search_up-Lowest fuel next hn (omega (arith, bounds.0))))
      ]

  -- Given a positive size and a power of two to align to, both within the physical address space,
  -- `memblock_alloc` ends: it hands out the lowest aligned range of RAM above the first page
  -- boundary that meets no reserved region, having reserved it, panics for want of memory only if
  -- there is none, and otherwise only if the array of regions is full.
  pub memblock_alloc-Lowest :
      Lowest mb size (2 ^ k) (page_ceil mb.mem_base) (memblock_alloc mb size (2 ^ k))
  unfolding memblock_alloc
  memblock_alloc-Lowest =
      rw (mem_end_eq, page_align_up-fits mb.mem_base (omega (arith, v.ram)))
        (search_up-Lowest (suc (mb.mem_base + mb.mem_size)) (page_ceil mb.mem_base)
          (omega (arith, v.ram)) (omega arith))

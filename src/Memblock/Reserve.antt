-- ===== src/Memblock/Reserve.antt =====
-- `memblock_reserve` and `insert_reserved` of na/mm/memblock.cc: the sorted array, and what is
-- reserved afterwards.
use lume.Common.{
  ℕ, suc, ◌+◌, ◌-◌, ◌*◌, ◌/◌, ◌≤◌, ◌<◌, ◌≡◌, refl, ◌⊎◌, ◌&&◌, ◌||◌, List, [], ◌∷◌, reverse, ltb,
  leb, All, All-reverse, Pairwise, Pairwise-reverse, length, length-reverse, arith, tests, inl, inr,
  Bool-cases, ◌∙◌, false,
}
use lume.Addr.Align.{page_align_up-fits, page_align_down_lem}
use lume.Memblock.{
  Region, Memblock, ok, panic, too_many_regions, max_regions, shift_up, insert_reserved,
  memblock_reserve,
}
use lume.Memblock.Regions.{IsValid, InLimit, phys_limit, IsSorted, covered, covered-reverse}

abbrev Descends : List Region → Type 0
Descends = Pairwise (λ r s. s.base ≤ r.base)

All-shift_up :
    (P : Region → Type 0) (rs : List Region) (new : Region)
    → All P rs
    → P new
    → All P (shift_up rs new)
unfolding shift_up
All-shift_up P [] new h k = (k, tt)
All-shift_up P (r ∷ rs) new h k = ground (arith, All-shift_up P rs new h.1 k)

All-le_trans :
    (rs : List Region) (a b : ℕ) → a ≤ b → All (λ s. s.base ≤ a) rs → All (λ s. s.base ≤ b) rs
All-le_trans [] a b h k = tt
All-le_trans (r ∷ rs) a b h k = (omega arith, All-le_trans rs a b h k.1)

shift_up-Descends : (rs : List Region) (new : Region) → Descends rs → Descends (shift_up rs new)
unfolding shift_up
shift_up-Descends [] new h = (tt, tt)
shift_up-Descends (r ∷ rs) new h = ground (
  arith,
  shift_up-Descends rs new h.1,
  All-shift_up (λ s. s.base ≤ r.base) rs new h.0,
  All-le_trans rs r.base new.base,
)

length-shift_up : (rs : List Region) (new : Region) → length (shift_up rs new) ≡ suc (length rs)
unfolding shift_up
length-shift_up [] new = refl
length-shift_up (r ∷ rs) new = ground (arith, length-shift_up rs new)

covered-shift_up :
    (x : ℕ) (rs : List Region) (new : Region) → covered x (shift_up rs new) ≡ covered x (new ∷ rs)
unfolding shift_up
covered-shift_up x [] new = refl
covered-shift_up x (r ∷ rs) new = ground (arith, covered-shift_up x rs new)

-- The array after an insertion.
abbrev inserted : List Region → Region → List Region
inserted rs new = reverse (shift_up (reverse rs) new)

inserted-IsSorted : (rs : List Region) (new : Region) → IsSorted rs → IsSorted (inserted rs new)
inserted-IsSorted rs new h =
    Pairwise-reverse (λ r s. s.base ≤ r.base) (shift_up (reverse rs) new)
      (shift_up-Descends (reverse rs) new (Pairwise-reverse (λ r s. r.base ≤ s.base) rs h))

All-inserted :
    (P : Region → Type 0) (rs : List Region) (new : Region)
    → All P rs
    → P new
    → All P (inserted rs new)
All-inserted P rs new h k =
    All-reverse P (shift_up (reverse rs) new)
      (All-shift_up P (reverse rs) new (All-reverse P rs h) k)

length-inserted : (rs : List Region) (new : Region) → length (inserted rs new) ≡ suc (length rs)
length-inserted rs new = omega (
  arith,
  length-reverse (shift_up (reverse rs) new),
  length-shift_up (reverse rs) new,
  length-reverse rs,
)

covered-inserted :
    (x : ℕ) (rs : List Region) (new : Region) → covered x (inserted rs new) ≡ covered x (new ∷ rs)
covered-inserted x rs new = ground (
  arith,
  covered-reverse x (shift_up (reverse rs) new),
  covered-shift_up x (reverse rs) new,
  covered-reverse x rs,
)

-- The whole pages that a byte range touches.
abbrev pub page_floor : ℕ → ℕ
page_floor x = x / 4096 * 4096

abbrev pub page_ceil : ℕ → ℕ
page_ceil x = (x + 4095) / 4096 * 4096

-- The region that `memblock_reserve` inserts.
abbrev pub pages_of : ℕ → ℕ → Region
pages_of base size = record {
  base = page_floor base;
  size = page_ceil (base + size) - page_floor base;
}

reserve_eq :
    (mb : Memblock) (base size : ℕ)
    → base + size ≤ phys_limit
    → memblock_reserve mb base size
      ≡ insert_reserved mb (pages_of base size).base (pages_of base size).size
unfolding memblock_reserve
reserve_eq mb base size h =
    ground (
      arith,
      page_align_down_lem base (omega arith),
      page_align_up-fits (base + size) (omega arith),
    )

-- What a successful reservation of [base, base + size) changes.
pub record Reserved (mb : Memblock) (base size : ℕ) (mb' : Memblock) : Type 0 where
  pub valid : IsValid mb'
  pub mem_base : mb'.mem_base ≡ mb.mem_base
  pub mem_size : mb'.mem_size ≡ mb.mem_size
  pub active : mb'.active ≡ mb.active
  pub count : length mb'.reserved ≡ suc (length mb.reserved)
  pub exact :
      (x : ℕ)
      → covered x mb'.reserved
        ≡ ((leb (page_floor base) x && ltb x (page_ceil (base + size))) || covered x mb.reserved)

-- `memblock_reserve` reserves the whole pages that the range touches and nothing else, keeps the
-- array sorted and within its bounds, and changes nothing else; it panics exactly when all 128
-- slots are taken.
pub memblock_reserve_lem :
    (mb : Memblock) (base size : ℕ)
    → IsValid mb
    → base + size ≤ phys_limit
    → ((length mb.reserved ≡ max_regions)
        × (memblock_reserve mb base size ≡ panic too_many_regions))
      ⊎ ((mb' : Memblock) × (memblock_reserve mb base size ≡ ok mb') × Reserved mb base size mb')
unfolding insert_reserved
memblock_reserve_lem mb base size v h = elim (Bool-cases (leb max_regions (length mb.reserved))) [
  | inl full ↦ inl (omega (tests, v.count), reserve_eq mb base size h ∙ rw (full, insert_reserved))
  | inr room ↦ inr (
    record mb { reserved = inserted mb.reserved (pages_of base size) },
    reserve_eq mb base size h ∙ rw (room, insert_reserved),
    record {
      valid = record {
        ram = v.ram;
        sorted = inserted-IsSorted mb.reserved (pages_of base size) v.sorted;
        limits = All-inserted InLimit mb.reserved (pages_of base size) v.limits (omega arith);
        count = omega (tests, length-inserted mb.reserved (pages_of base size));
      };
      mem_base = refl;
      mem_size = refl;
      active = refl;
      count = length-inserted mb.reserved (pages_of base size);
      exact = λ x. ground (arith, covered-inserted x mb.reserved (pages_of base size));
    },
  )
]

insert_some :
    (mb : Memblock) (base size : ℕ)
    → length mb.reserved < max_regions
    → (mb' : Memblock) × (insert_reserved mb base size ≡ ok mb')
unfolding insert_reserved
insert_some mb base size h =
    let room : leb max_regions (length mb.reserved) ≡ false = ground arith in
    (
      record mb { reserved = inserted mb.reserved (record { base = base; size = size }) },
      rw (room, insert_reserved),
    )

-- Whatever the numbers, a free slot in the array lets the call succeed.
pub memblock_reserve_some :
    (mb : Memblock) (base size : ℕ)
    → length mb.reserved < max_regions
    → (mb' : Memblock) × (memblock_reserve mb base size ≡ ok mb')
unfolding memblock_reserve
memblock_reserve_some mb base size h = insert_some mb _ _ h

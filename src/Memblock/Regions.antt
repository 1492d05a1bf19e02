-- ===== src/Memblock/Regions.antt =====
-- Lists of regions as sets of addresses, and the well-formedness of the reserved regions.
use mathlib.Core.List.{reverse-cons}
use lume.Common.{
  ℕ, ◌+◌, ◌≤◌, ◌<◌, ◌^◌, ◌≡◌, refl, ◌⊎◌, inl, Bool, true, false, ◌&&◌, ◌||◌, List, [], ◌∷◌, ◌++◌,
  reverse, ltb, leb, All, Pairwise, length, arith,
}
use lume.Word.{add64}
use lume.Memblock.{
  Region, Memblock, max_regions, overlaps, overlaps_reserved, reserved_end_covering,
}

-- Physical addresses have 56 bits.
abbrev pub phys_limit : ℕ
phys_limit = 2 ^ 56

abbrev pub InLimit : Region → Type 0
InLimit r = r.base + r.size ≤ phys_limit

abbrev pub IsSorted : List Region → Type 0
IsSorted = Pairwise (λ r s. r.base ≤ s.base)

pub record IsValid (mb : Memblock) : Type 0 where
  pub ram : mb.mem_base + mb.mem_size ≤ phys_limit
  pub sorted : IsSorted mb.reserved
  pub limits : All InLimit mb.reserved
  pub count : length mb.reserved ≤ max_regions

-- Whether an address lies in one of the regions.
abbrev pub covered : ℕ → List Region → Bool
covered x [] = false
covered x (r ∷ rs) = (leb r.base x && ltb x (r.base + r.size)) || covered x rs

covered-append :
    (x : ℕ) (rs ss : List Region) → covered x (rs ++ ss) ≡ (covered x rs || covered x ss)
covered-append x [] ss = refl
covered-append x (r ∷ rs) ss = ground (arith, covered-append x rs ss)

pub covered-reverse : (x : ℕ) (rs : List Region) → covered x (reverse rs) ≡ covered x rs
covered-reverse x [] = refl
covered-reverse x (r ∷ rs) =
    ground (arith, reverse-cons r rs, covered-append x (reverse rs) (r ∷ []), covered-reverse x rs)

-- The range [base, base + size) meets none of the regions.
abbrev pub IsFree : ℕ → ℕ → List Region → Type 0
IsFree base size = All (λ r. (base + size ≤ r.base) ⊎ (r.base + r.size ≤ base))

-- `overlaps_reserved` decides `IsFree`.
pub overlaps_sound :
    (rs : List Region) (base size : ℕ)
    → All InLimit rs
    → overlaps rs base (base + size) ≡ false
    → IsFree base size rs
unfolding overlaps
overlaps_sound [] base size h e = tt
overlaps_sound (r ∷ rs) base size h e = ground (arith, overlaps_sound rs base size h.1)

pub overlaps_complete :
    (rs : List Region) (base size : ℕ)
    → All InLimit rs
    → IsFree base size rs
    → overlaps rs base (base + size) ≡ false
unfolding overlaps
overlaps_complete [] base size h f = refl
overlaps_complete (r ∷ rs) base size h f = ground (arith, overlaps_complete rs base size h.1)

-- No region reaches beyond the physical addresses.
pub overlaps_beyond :
    (rs : List Region) (base end : ℕ)
    → All InLimit rs
    → phys_limit ≤ base
    → overlaps rs base end ≡ false
unfolding overlaps
overlaps_beyond [] base end h l = refl
overlaps_beyond (r ∷ rs) base end h l = ground (arith, overlaps_beyond rs base end h.1)

-- A free range of positive size holds no reserved address.
pub covered-IsFree :
    (rs : List Region) (base size x : ℕ)
    → IsFree base size rs
    → base ≤ x
    → x < base + size
    → covered x rs ≡ false
covered-IsFree [] base size x f l u = refl
covered-IsFree (r ∷ rs) base size x f l u = ground (arith, covered-IsFree rs base size x f.1)

-- `reserved_end_covering` stays put, or skips addresses at which no range of positive size is free.
pub reserved_end_covering_skips :
    (rs : List Region) (addr size b : ℕ)
    → All InLimit rs
    → 0 < size
    → addr ≤ b
    → b < reserved_end_covering rs addr
    → IsFree b size rs
    → ⊥
unfolding reserved_end_covering
reserved_end_covering_skips [] addr size b h p l u f = omega arith
reserved_end_covering_skips (r ∷ rs) addr size b h p l u f =
    ground (arith, reserved_end_covering_skips rs addr size b h.1 p l)

pub reserved_end_covering_bound :
    (rs : List Region) (addr : ℕ)
    → All InLimit rs
    → (reserved_end_covering rs addr ≡ addr)
      ⊎ ((addr < reserved_end_covering rs addr) × (reserved_end_covering rs addr ≤ phys_limit))
unfolding reserved_end_covering
reserved_end_covering_bound [] addr h = inl refl
reserved_end_covering_bound (r ∷ rs) addr h =
    ground (arith, reserved_end_covering_bound rs addr h.1)

module _ (mb : Memblock) (base size : ℕ) (v : IsValid mb) (no_wrap : base + size < 2 ^ 64) where
  pub overlaps_reserved-IsFree :
      overlaps_reserved mb base size ≡ false → IsFree base size mb.reserved
  unfolding overlaps_reserved
  overlaps_reserved-IsFree e =
      let sum : add64 base size ≡ base + size = omega arith in
      overlaps_sound mb.reserved base size v.limits (rw sum at e)

  pub overlaps_reserved-taken :
      overlaps_reserved mb base size ≡ true → IsFree base size mb.reserved → ⊥
  unfolding overlaps_reserved
  overlaps_reserved-taken e f =
      let sum : add64 base size ≡ base + size = omega arith in
      cc (rw sum at e, overlaps_complete mb.reserved base size v.limits f)

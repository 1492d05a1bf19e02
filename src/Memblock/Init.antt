-- ===== src/Memblock/Init.antt =====
-- `memblock_init` of na/mm/memblock.cc: what is reserved before the first allocation.
use Prim.Native.Nat.{min}
use lume.Common.{
  ℕ, ◌+◌, ◌-◌, ◌≤◌, ◌<◌, ◌≡◌, inl, inr, ◌∙◌, true, false, ◌&&◌, ◌||◌, [], length, arith, tests, ltb,
  leb, Bool-cases, ◌==◌,
}
use lume.Word.{sub64}
use lume.Addr.{boot_va_to_pa}
use lume.Memblock.{Memblock, ok, memblock_reserve, reserve_firmware, memblock_init, max_regions}
use lume.Memblock.Regions.{IsValid, phys_limit, covered}
use lume.Memblock.Reserve.{page_floor, page_ceil, memblock_reserve_lem, Reserved}

-- Two ranges that meet or overlap after rounding cover what lies between their outer ends.
joined :
    (x a b c : ℕ)
    → a ≤ b
    → b ≤ c
    → ((leb (page_floor b) x && ltb x (page_ceil c))
        || ((leb (page_floor a) x && ltb x (page_ceil b)) || false))
      ≡ (leb (page_floor a) x && ltb x (page_ceil c))
joined x a b c h k = ground arith

pub record Reserves (lo hi : ℕ) (mb : Memblock) : Type 0 where
  pub valid : IsValid mb
  pub active : mb.active ≡ true
  pub exact : (x : ℕ) → covered x mb.reserved ≡ (leb (page_floor lo) x && ltb x (page_ceil hi))

-- An array with room takes the region.
reserve_room :
    (mb : Memblock) (base size : ℕ)
    → IsValid mb
    → base + size ≤ phys_limit
    → length mb.reserved < max_regions
    → (mb' : Memblock) × (memblock_reserve mb base size ≡ ok mb') × Reserved mb base size mb'
reserve_room mb base size v h room = elim (memblock_reserve_lem mb base size v h) [
  | inl (full, _) ↦ absurd (omega arith)
  | inr found ↦ found
]

module _ (default_base fdt_base fdt_size stext kernel_end : ℕ) (some_ram : 0 < fdt_size)
    (ram_limit : fdt_base + fdt_size ≤ phys_limit)
    (image : boot_va_to_pa default_base stext ≤ boot_va_to_pa default_base kernel_end)
    (image_limit : boot_va_to_pa default_base kernel_end ≤ phys_limit) where
  abbrev ks_pa : ℕ
  ks_pa = boot_va_to_pa default_base stext

  abbrev ke_pa : ℕ
  ke_pa = boot_va_to_pa default_base kernel_end

  abbrev fresh : Memblock
  fresh = record { mem_base = fdt_base; mem_size = fdt_size; reserved = []; active = true }

  fresh-IsValid : IsValid fresh
  fresh-IsValid = record { ram = ram_limit; sorted = tt; limits = tt; count = omega arith }

  abbrev Initialised : Type 0
  Initialised =
      (mb : Memblock) × (memblock_init default_base fdt_base fdt_size stext kernel_end ≡ ok mb)
      × Reserves (min fdt_base ks_pa) ke_pa mb

  abbrev Found : Memblock → ℕ → ℕ → Type 0
  Found mb base size =
      (mb' : Memblock) × (memblock_reserve mb base size ≡ ok mb') × Reserved mb base size mb'

  image_size : sub64 ke_pa ks_pa ≡ ke_pa - ks_pa
  image_size = omega arith

  ram_found : (fdt_size == 0) ≡ false
  ram_found = ground arith

  image_alone : ltb fdt_base ks_pa ≡ false → Found fresh ks_pa (ke_pa - ks_pa) → Initialised
  unfolding memblock_init reserve_firmware
  image_alone lower (mb, e, r) = (
    mb,
    rw (ram_found, lower, image_size, e),
    record { valid = r.valid; active = r.active; exact = λ x. ground (arith, r.exact x) },
  )

  image_after_firmware :
      (mb' : Memblock)
      → ltb fdt_base ks_pa ≡ true
      → memblock_reserve fresh fdt_base (ks_pa - fdt_base) ≡ ok mb'
      → Reserved fresh fdt_base (ks_pa - fdt_base) mb'
      → Found mb' ks_pa (ke_pa - ks_pa)
      → Initialised
  unfolding memblock_init reserve_firmware
  image_after_firmware mb' lower e' r' (mb, e, r) =
      let gap : sub64 ks_pa fdt_base ≡ ks_pa - fdt_base = omega tests in
      (
        mb,
        rw (ram_found, lower, gap, image_size, e', e),
        record {
          valid = r.valid;
          active = r.active ∙ r'.active;
          exact = λ x. ground (arith, r.exact x, r'.exact x, joined x fdt_base ks_pa ke_pa);
        },
      )

  firmware_first : ltb fdt_base ks_pa ≡ true → Found fresh fdt_base (ks_pa - fdt_base) → Initialised
  firmware_first lower (mb', e', r') =
      image_after_firmware mb' lower e' r'
        (reserve_room mb' ks_pa (ke_pa - ks_pa) r'.valid (omega arith) (omega (arith, r'.count)))

  -- If RAM and the image lie within the physical addresses, `memblock_init` succeeds: the allocator
  -- is valid and active, and what is reserved is exactly the pages from the start of RAM, or of the
  -- image if that is lower, to the end of the image.
  pub memblock_init-Reserves :
      (mb : Memblock) × (memblock_init default_base fdt_base fdt_size stext kernel_end ≡ ok mb)
      × Reserves (min fdt_base ks_pa) ke_pa mb
  memblock_init-Reserves = elim (Bool-cases (ltb fdt_base ks_pa)) [
    | inr lower ↦
        image_alone lower
          (reserve_room fresh ks_pa (ke_pa - ks_pa) fresh-IsValid (omega arith) (omega arith))
    | inl lower ↦
        firmware_first lower
          (reserve_room fresh fdt_base (ks_pa - fdt_base) fresh-IsValid (omega tests) (omega arith))
  ]

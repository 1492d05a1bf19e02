-- ===== src/Addr/Align.antt =====
-- Page rounding and address conversion in plain arithmetic.
use lume.Common.{ℕ, ◌+◌, ◌*◌, ◌/◌, ◌^◌, ◌%◌, ◌≤◌, ◌<◌, ◌≡◌, refl, arith}
use lume.Word.{add64, sub64}
use lume.Word.Bits.{mask_down-pow}
use lume.Addr.{page_align_up, page_align_down, pa_to_va, va_to_pa, pa_to_pfn, pfn_to_pa}

pub page_align_down_lem : (x : ℕ) → x < 2 ^ 64 → page_align_down x ≡ x / 4096 * 4096
unfolding page_align_down
page_align_down_lem x h = mask_down-pow 52 12 x refl h

pub page_align_up_lem : (x : ℕ) → x < 2 ^ 64 → page_align_up x ≡ (x + 4095) % 2 ^ 64 / 4096 * 4096
unfolding page_align_up
page_align_up_lem x h =
    omega (arith, mask_down-pow 52 12 (sub64 (add64 x 4096) 1) refl (omega arith))

-- Where the sum does not wrap.
pub page_align_up-fits : (x : ℕ) → x + 4095 < 2 ^ 64 → page_align_up x ≡ (x + 4095) / 4096 * 4096
page_align_up-fits x h = omega (arith, page_align_up_lem x (omega arith))

-- Both roundings give page boundaries around an address.
page_align_bounds :
    (x : ℕ)
    → x + 4095 < 2 ^ 64
    → (page_align_down x ≤ x)
      × (x ≤ page_align_up x)
      × (page_align_down x % 4096 ≡ 0)
      × (page_align_up x % 4096 ≡ 0)
      × (page_align_up x < x + 4096)
      × (x < page_align_down x + 4096)
page_align_bounds x h = omega (arith, page_align_up-fits x h, page_align_down_lem x (omega arith))

-- Within one page of the top of the address space, rounding up wraps to the null page.
page_align_up_wraps : (x : ℕ) → x < 2 ^ 64 → 2 ^ 64 < x + 4096 → page_align_up x ≡ 0
page_align_up_wraps x h top = omega (arith, page_align_up_lem x h)

-- The direct map loses no address, whatever its base.
va_to_pa-pa_to_va :
    (base pa : ℕ) → base < 2 ^ 64 → pa < 2 ^ 64 → va_to_pa base (pa_to_va base pa) ≡ pa
unfolding va_to_pa pa_to_va
va_to_pa-pa_to_va base pa h k = omega arith

-- Page frame numbers and page-aligned addresses correspond.
pfn_to_pa-pa_to_pfn : (pa : ℕ) → pa < 2 ^ 64 → pfn_to_pa (pa_to_pfn pa) ≡ page_align_down pa
unfolding pfn_to_pa pa_to_pfn
pfn_to_pa-pa_to_pfn pa h = omega (arith, page_align_down_lem pa h)

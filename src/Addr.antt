-- ===== src/Addr.antt =====
-- na/include/lume/addr.h: rounding to pages and the conversions between physical and virtual
-- addresses. The direct-map base of <arch/config.h> is chosen at boot, so it is an argument.
pub mod Align
use lume.Common.{ℕ, ◌+◌, ◌-◌, ◌*◌, ◌/◌, ◌^◌, ◌%◌}
use lume.Word.{add64, sub64, mask_down}

abbrev pub page_size : ℕ
page_size = 4096

unfoldable pub page_align_up : ℕ → ℕ
page_align_up addr = mask_down (sub64 (add64 addr page_size) 1) page_size

unfoldable pub page_align_down : ℕ → ℕ
page_align_down addr = mask_down addr page_size

unfoldable pub pa_to_va : ℕ → ℕ → ℕ
pa_to_va direct_map_base pa = add64 pa direct_map_base

unfoldable pub va_to_pa : ℕ → ℕ → ℕ
va_to_pa direct_map_base va = sub64 va direct_map_base

-- kDirectMapBaseDefault of na/arch/riscv/include/arch/config.h is the argument.
unfoldable pub boot_va_to_pa : ℕ → ℕ → ℕ
boot_va_to_pa default_base va = sub64 va default_base

pa_to_pfn : ℕ → ℕ
pa_to_pfn pa = pa / page_size

pfn_to_pa : ℕ → ℕ
pfn_to_pa pfn = (pfn * page_size) % 2 ^ 64

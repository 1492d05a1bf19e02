-- ===== src/Pmap/Wrap.antt =====
-- Addresses of na/arch/riscv/mm/pmap.cc that lie 2 ^ 39 apart, which na/mm/vma.cc takes for different.
use lume.Common.{ℕ, ◌+◌, ◌^◌, ◌≤◌, ◌<◌, ◌≡◌, refl, ◌∙◌, sym, true, none, arith}
use lume.Vma.{user_va_base, user_va_limit}
use lume.Pmap.{Tables, vpn, unmap, lookup}
use lume.Pmap.Bits.{vpn_lem}
use lume.Pmap.Shape.{Owner, Shape, same_page}
use lume.Pmap.Edit.{lookup-unmap}

-- The walks read 39 bits of an address.
same_page-wrap : (va : ℕ) → same_page (va + 2 ^ 39) va ≡ true
same_page-wrap va =
    let two : vpn (va + 2 ^ 39) 2 ≡ vpn va 2 =
      vpn_lem (va + 2 ^ 39) 2 ∙ omega arith ∙ sym (vpn_lem va 2) in
    let one : vpn (va + 2 ^ 39) 1 ≡ vpn va 1 =
      vpn_lem (va + 2 ^ 39) 1 ∙ omega arith ∙ sym (vpn_lem va 1) in
    let low : vpn (va + 2 ^ 39) 0 ≡ vpn va 0 =
      vpn_lem (va + 2 ^ 39) 0 ∙ omega arith ∙ sym (vpn_lem va 0) in
    ground (arith, two, one, low)

-- An address of the first half of the 39 bits and the one 2 ^ 39 above it both lie among the user
-- addresses of vma.cc, and unmapping the upper one takes the page of the lower one away.
pub unmap_wraps :
    (m : Tables) (root_pa va : ℕ) (own : ℕ → Owner)
    → Shape m root_pa own
    → user_va_base ≤ va
    → va < 2 ^ 38
    → (va + 2 ^ 39 < user_va_limit) × (lookup (unmap m root_pa (va + 2 ^ 39)) root_pa va ≡ none)
unmap_wraps m root_pa va own g from to = (
  omega (arith, to),
  (lookup-unmap m root_pa (va + 2 ^ 39) own g).1 va ∙ rw (same_page-wrap va) refl,
)

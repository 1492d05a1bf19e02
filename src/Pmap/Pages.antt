-- ===== src/Pmap/Pages.antt =====
-- The page tables of na/arch/riscv/mm/pmap.cc as na/mm/vma.cc uses them.
use lume.Common.{ℕ, ◌/◌, ◌%◌, ◌<◌, ◌≡◌, refl, ◌∙◌, Option, none, some, ◌==◌, arith}
use lume.Pmm.{Pmm, pa_to_page, page_decref}
use lume.Vma.{Pages}
use lume.Vma.Release.{PagesLaws, va_span}
use lume.Pmap.{Tables, vpn, unmap, lookup}
use lume.Pmap.Bits.{vpn_lem}
use lume.Pmap.Shape.{Owner, Shape, same_page}
use lume.Pmap.Edit.{lookup-unmap}

-- Below 2 ^ 39 the three indices and the offset make up the address.
pub same_page-Whole :
    (a b : ℕ) → a % 4096 ≡ 0 → b % 4096 ≡ 0 → a < va_span → b < va_span → same_page a b ≡ (b == a)
same_page-Whole a b h k low below =
    let a2 : vpn a 2 ≡ a / 1073741824 = vpn_lem a 2 ∙ omega arith in
    let a1 : vpn a 1 ≡ a / 2097152 % 512 = vpn_lem a 1 ∙ omega arith in
    let a0 : vpn a 0 ≡ a / 4096 % 512 = vpn_lem a 0 ∙ omega arith in
    let b2 : vpn b 2 ≡ b / 1073741824 = vpn_lem b 2 ∙ omega arith in
    let b1 : vpn b 1 ≡ b / 2097152 % 512 = vpn_lem b 1 ∙ omega arith in
    let b0 : vpn b 0 ≡ b / 4096 % 512 = vpn_lem b 0 ∙ omega arith in
    ground (arith, a2, a1, a0, b2, b1, b0)

-- `page_decref(pa_to_page(phys_addr(pa)))`. `none` is a panic or a null page, from where the source does
-- not return: what the tables hold after it is of no run of the source.
abbrev pub count_down : Option Pmm → ℕ → Option Pmm
count_down none pa = none
count_down (some s) pa = elim (pa_to_page s pa) [ none ↦ none | some page ↦ page_decref s page ]

module _ (root_pa : ℕ) (own : ℕ → Owner) where
  -- A tree of tables and the page allocator.
  abbrev pub Backed : Type 0
  Backed = ((m : Tables) × Shape m root_pa own) × Option Pmm

  abbrev pub pmap_pages : Pages Backed
  pmap_pages = record {
    lookup = λ t b. lookup t.0.0 root_pa b;
    unmap = λ t a. ((unmap t.0.0 root_pa a, (lookup-unmap t.0.0 root_pa a own t.0.1).0), t.1);
    page_decref = λ t pa. (t.0, count_down t.1 pa);
  }

  -- The operations of the page tables keep the laws that vma.cc relies on.
  pub pmap_pages-PagesLaws : PagesLaws pmap_pages
  pmap_pages-PagesLaws = record {
    lookup-unmap = λ t a b h k low below.
        (lookup-unmap t.0.0 root_pa a own t.0.1).1 b ∙ rw (same_page-Whole a b h k low below) refl;
    lookup-page_decref = λ t pa b. refl;
  }

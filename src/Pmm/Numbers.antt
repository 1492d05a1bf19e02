-- ===== src/Pmm/Numbers.antt =====
-- `pa_to_page` and `page_to_pa` of na/mm/pmm.cc.
use lume.Common.{ℕ, ◌+◌, ◌*◌, ◌/◌, ◌^◌, ◌<◌, ◌≡◌, refl, some, arith}
use lume.Word.{add64, sub64}
use lume.Pmm.{Pmm, pa_to_page, page_to_pa}

-- Within RAM that ends below 2^64, `page_to_pa` panics for no page of the map, and `pa_to_page` takes
-- each address of the page, and no address of another one, back to it.
pub pa_to_page-page_to_pa :
    (s : Pmm) (page offset : ℕ)
    → s.mem_base + s.num_pages * 4096 < 2 ^ 64
    → page < s.num_pages
    → offset < 4096
    → (pa : ℕ) × (page_to_pa s page ≡ some pa)
      × (pa ≡ s.mem_base + page * 4096)
      × (pa_to_page s (pa + offset) ≡ some page)
unfolding page_to_pa pa_to_page
pa_to_page-page_to_pa s page offset fits inside low =
    let at : add64 s.mem_base (page * 4096) ≡ s.mem_base + page * 4096 =
      omega (arith, fits, inside) in
    let end : add64 s.mem_base (s.num_pages * 4096) ≡ s.mem_base + s.num_pages * 4096 =
      omega (arith, fits) in
    let back : sub64 (s.mem_base + page * 4096 + offset) s.mem_base / 4096 ≡ page =
      omega (arith, fits, inside, low) in
    (
      s.mem_base + page * 4096,
      ground (arith, inside, at),
      refl,
      ground (arith, end, back, inside, low),
    )

-- ===== src/Pmm/Feed.antt =====
-- `pmm_init` of na/mm/pmm.cc: the free regions of the boot allocator become free blocks.
use native.Mathlib.Nat.{div-add-mod}
use lume.Word.Bits.{pow-pos, bit_and-low}
use lume.Word.{add64, sub64}
use lume.Common.{
  ℕ, zero, suc, ◌+◌, ◌-◌, ◌*◌, ◌/◌, ◌%◌, ◌^◌, ◌≤◌, ◌<◌, ◌≡◌, refl, ap, ◌∙◌, sym, Bool, true, false,
  ◌&&◌, ◌==◌, ==_iff, ltb, leb, arith, Bool-cases, inl, inr, ◌⊎◌, mem, ◌↔◌, if◌then◌else◌, bit_and,
}
use lume.Pmm.{Pmm, buddy_list_add}
use lume.Pmm.Blocks.{Blocks, add, remove, Aligned}
use lume.Pmm.Buddy.{Buddies, nothing, Free}
use lume.Pmm.Alloc.{
  Same, Same-trans, Buddies-ext, same_add, Free-add_back, Free-add_new, Free-add_out,
}
use lume.Pmm.Join.{back-Buddies, back_old}
use lume.Pmm.Counts.{recount, recount-Buddies}

unfoldable pub block_fits : ℕ → ℕ → ℕ → Bool
block_fits pfn end o =
    let block_size = 2 ^ o in (bit_and pfn (block_size - 1) == 0) && leb (pfn + block_size) end

-- The search for the order, from the order below the number down.
unfoldable pub pick_order : ℕ → ℕ → ℕ → ℕ
pick_order zero pfn end = 0
pick_order (suc o) pfn end =
    let lower = pick_order o pfn end in if block_fits pfn end o then o else lower

-- The page's descriptor is set and its block enters the list of its order.
unfoldable pub feed_block : Pmm → ℕ → ℕ → Pmm
feed_block s pfn order = buddy_list_add (recount s pfn 0) pfn order

-- The loop over a region's pages, on fuel, with the count of the pages.
unfoldable pub feed_pages : ℕ → ℕ → ℕ → Pmm × ℕ → Pmm × ℕ
feed_pages zero pfn end_pfn c = c
feed_pages (suc left) pfn end_pfn c =
    let order = pick_order 11 pfn end_pfn in
    let rest =
      feed_pages left (pfn + 2 ^ order) end_pfn (feed_block c.0 pfn order, add64 c.1 (2 ^ order)) in
    if ltb pfn end_pfn then rest else c

-- The callback on a region; a round takes a page or more, so the number of the pages is fuel enough.
unfoldable pub feed_region : ℕ → ℕ → ℕ → Pmm × ℕ → Pmm × ℕ
feed_region mem_base base size c =
    let start_pfn = sub64 base mem_base / 4096 in
    let end_pfn = add64 start_pfn (size / 4096) in
    feed_pages (end_pfn - start_pfn) start_pfn end_pfn c

block_fits-Aligned :
    (pfn end o : ℕ) → block_fits pfn end o ≡ true → Aligned o pfn × (pfn + 2 ^ o ≤ end)
unfolding block_fits
block_fits-Aligned pfn end o e =
    let z : pfn % 2 ^ o ≡ 0 = sym (bit_and-low o pfn) ∙ ground (arith, e) in
    ((pfn / 2 ^ o, omega (arith, z, div-add-mod pfn (2 ^ o))), ground (arith, e))

block_fits-zero : (pfn end : ℕ) → pfn < end → block_fits pfn end 0 ≡ true
unfolding block_fits
block_fits-zero pfn end h = ground (arith, bit_and-low 0 pfn, h)

-- The order fits.
pick_order-fits : (n pfn end : ℕ) → pfn < end → block_fits pfn end (pick_order n pfn end) ≡ true
unfolding pick_order
pick_order-fits zero pfn end h = block_fits-zero pfn end h
pick_order-fits (suc o) pfn end h = elim (Bool-cases (block_fits pfn end o)) [
  | inl fits ↦ rw fits fits
  | inr over ↦ rw over (pick_order-fits o pfn end h)
]

pick_order-lt : (n pfn end : ℕ) → 0 < n → pick_order n pfn end < n
unfolding pick_order
pick_order-lt zero pfn end h = absurd (omega (arith, h))
pick_order-lt (suc zero) pfn end h = ground arith
pick_order-lt (suc (suc o)) pfn end h = ground (arith, pick_order-lt (suc o) pfn end (omega arith))

-- It is the greatest that fits.
pick_order-greatest :
    (n pfn end o : ℕ) → o < n → block_fits pfn end o ≡ true → o ≤ pick_order n pfn end
unfolding pick_order
pick_order-greatest zero pfn end o h fits = absurd (omega (arith, h))
pick_order-greatest (suc n) pfn end o h fits = elim (Bool-cases (block_fits pfn end n)) [
  | inl here ↦ rw here (omega arith)
  | inr over ↦ rw over (elim (Bool-cases (o == n)) [
    | inl same ↦ absurd (ground (arith, fits, over, ap (block_fits pfn end) ((==_iff o n).0 same)))
    | inr less ↦ pick_order-greatest n pfn end o (ground (arith, less)) fits
  ])
]

-- No block of the callers, at boot.
abbrev pub no_blocks : Blocks
no_blocks o p = false

-- Every free block ends at or before the page.
abbrev pub Below : Pmm → ℕ → Type 0
Below s n = (o q : ℕ) → mem q (s.free_areas o) ≡ true → q + 2 ^ o ≤ n

-- An aligned block beyond all the others can be claimed.
pub claim-Buddies :
    (s : Pmm) (o p : ℕ)
    → Buddies s no_blocks nothing
    → Below s p
    → o < 11
    → Aligned o p
    → p + 2 ^ o ≤ s.num_pages
    → Buddies s (add no_blocks o p) nothing
claim-Buddies s o p b below small start room = record {
  tiling = record {
    aligned = λ k q e. elim (Bool-cases (mem q (s.free_areas k))) [
      | inl m ↦ b.tiling.aligned k q (ground (arith, m))
      | inr new ↦ new_aligned k q (ground (arith, e, new)) (ground (arith, e, new))
    ];
    disjoint = λ k q m r e f. elim (Bool-cases (mem q (s.free_areas k))) [
      | inl here ↦ elim (Bool-cases (mem r (s.free_areas m))) [
        | inl there ↦ b.tiling.disjoint k q m r (ground (arith, here)) (ground (arith, there))
        | inr new ↦
            let at : r ≡ p = ground (arith, f, new) in inr (inl (omega (arith, below k q here, at)))
      ]
      | inr new ↦ elim (Bool-cases (mem r (s.free_areas m))) [
        | inl there ↦
            let at : q ≡ p = ground (arith, e, new) in
            inr (inr (omega (arith, below m r there, at)))
        | inr other ↦ inl (ground (arith, e, f, new, other), ground (arith, e, f, new, other))
      ]
    ];
  };
  once = b.once;
  apart = λ k q m. ground (arith, below k q m, pow-pos k);
  listed = b.listed;
  marks = λ a within mark x.
      let (aligned, old) = b.marks a within mark x in
      (
        aligned,
        elim old [
          | inl m ↦ inl m
          | inr (k, q, lt, block, i) ↦ inr (k, q, lt, ground (arith, block), i)
        ],
      );
}
  where
    new_aligned : (k q : ℕ) → k ≡ o → q ≡ p → (k < 11) × Aligned k q × (q + 2 ^ k ≤ s.num_pages)
    new_aligned k q e f = rw (e, f) (small, start, room)

-- What holds when the pages from pfn to the end have become free.
pub record Fed (s s' : Pmm) (pfn end : ℕ) : Type 0 where
  pub buddies : Buddies s' no_blocks nothing
  pub below : Below s' end
  pub pages : (a : ℕ) → Free s' a ↔ (Free s a ⊎ ((pfn ≤ a) × (a < end)))
  pub same : Same s s'

feed_block-Fed :
    (s : Pmm) (pfn o : ℕ)
    → Buddies s no_blocks nothing
    → Below s pfn
    → o < 11
    → Aligned o pfn
    → pfn + 2 ^ o ≤ s.num_pages
    → Fed s (feed_block s pfn o) pfn (pfn + 2 ^ o)
unfolding feed_block
feed_block-Fed s pfn o b below small start room =
    let s1 = recount s pfn 0 in
    let held : add no_blocks o pfn o pfn ≡ true = ground arith in
    let b1 = claim-Buddies s1 o pfn (recount-Buddies s pfn 0 no_blocks b) below small start room in
    record {
      buddies =
          Buddies-ext (buddy_list_add s1 pfn o) (remove (add no_blocks o pfn) o pfn) no_blocks
            nothing nothing (λ k q. ground arith) (λ a. refl)
            (back-Buddies s1 (add no_blocks o pfn) o pfn b1 held);
      below = λ k q m. elim (back_old s1 (add no_blocks o pfn) o pfn b1 held k q m) [
        | inl (e, f) ↦ omega (arith, f, ap (λ t. 2 ^ t) e)
        | inr (old, _) ↦ omega (arith, below k q old)
      ];
      pages = λ a. (
        λ f. Free-add_out s1 o pfn a f,
        λ x. elim x [ inl f ↦ Free-add_back s1 o pfn a f | inr i ↦ Free-add_new s1 o pfn a i ],
      );
      same =
          let e = same_add s1 pfn o in
          record { pages = e.pages; pcp = e.pcp; batch = e.batch; high = e.high; base = e.base };
    }

feed_pages-Fed :
    (left pfn end total : ℕ) (s : Pmm)
    → end - pfn ≤ left
    → pfn ≤ end
    → end ≤ s.num_pages
    → Buddies s no_blocks nothing
    → Below s pfn
    → Fed s (feed_pages left pfn end (s, total)).0 pfn end
      × ((feed_pages left pfn end (s, total)).1 % 2 ^ 64 ≡ (total + (end - pfn)) % 2 ^ 64)
unfolding feed_pages
feed_pages-Fed zero pfn end total s enough from room b below = (
  record {
    buddies = b;
    below = λ o q m. omega (arith, below o q m, enough, from);
    pages =
        λ a. (λ f. inl f, λ x. elim x [ inl f ↦ f | inr i ↦ absurd (omega (arith, i, enough)) ]);
    same = record { pages = refl; pcp = refl; batch = refl; high = refl; base = refl };
  },
  omega (arith, enough, from),
)
feed_pages-Fed (suc left) pfn end total s enough from room b below =
    elim (Bool-cases (ltb pfn end)) [
      | inr done ↦
          let e : pfn ≡ end = ground (arith, done, from) in
          rw done (
            record {
              buddies = b;
              below = λ o q m. omega (arith, below o q m, e);
              pages = λ a.
                  (λ f. inl f, λ x. elim x [ inl f ↦ f | inr i ↦ absurd (omega (arith, i, e)) ]);
              same = record { pages = refl; pcp = refl; batch = refl; high = refl; base = refl };
            },
            omega (arith, e),
          )
      | inl more ↦
          let less : pfn < end = ground (arith, more) in
          let o = pick_order 11 pfn end in
          let (start, fits) = block_fits-Aligned pfn end o (pick_order-fits 11 pfn end less) in
          let s1 = feed_block s pfn o in
          let one =
            feed_block-Fed s pfn o b below (pick_order-lt 11 pfn end (omega arith)) start
              (omega (arith, fits, room)) in
          let (rest, count) =
            feed_pages-Fed left (pfn + 2 ^ o) end (add64 total (2 ^ o)) s1
              (omega (arith, enough, pow-pos o)) fits (omega (arith, room, one.same.pages))
              one.buddies one.below in
          rw more (
            record {
              buddies = rest.buddies;
              below = rest.below;
              pages = λ a. (
                λ f. elim ((rest.pages a).0 f) [
                  | inl g ↦ elim ((one.pages a).0 g) [
                    | inl old ↦ inl old
                    | inr i ↦ inr (i.0, omega (arith, i, fits))
                  ]
                  | inr i ↦ inr (omega (arith, i), i.1)
                ],
                λ x. elim x [
                  | inl f ↦ (rest.pages a).1 (inl ((one.pages a).1 (inl f)))
                  | inr i ↦ elim (Bool-cases (ltb a (pfn + 2 ^ o))) [
                    | inl here ↦
                        (rest.pages a).1 (inl ((one.pages a).1 (inr (i.0, ground (arith, here)))))
                    | inr later ↦ (rest.pages a).1 (inr (ground (arith, later), i.1))
                  ]
                ],
              );
              same =
                  Same-trans s s1 (feed_pages left (pfn + 2 ^ o) end (s1, add64 total (2 ^ o))).0
                    one.same rest.same;
            },
            omega (arith, count, fits),
          )
    ]

-- The pages of a region of whole pages become free, in blocks each as long as its place allows.
pub feed_region-Fed :
    (mem_base base size start pages total : ℕ) (s : Pmm)
    → base ≡ mem_base + start * 4096
    → size ≡ pages * 4096
    → base + size < 2 ^ 64
    → start + pages ≤ s.num_pages
    → Buddies s no_blocks nothing
    → Below s start
    → Fed s (feed_region mem_base base size (s, total)).0 start (start + pages)
      × ((feed_region mem_base base size (s, total)).1 % 2 ^ 64 ≡ (total + pages) % 2 ^ 64)
unfolding feed_region
feed_region-Fed mem_base base size start pages total s at long fits room b below =
    let e : sub64 base mem_base / 4096 ≡ start = omega (arith, at, fits) in
    let f : add64 start (size / 4096) ≡ start + pages = omega (arith, at, long, fits) in
    let g : start + pages - start ≡ pages = omega arith in
    rw (e, f)
      (let (fed, count) =
          feed_pages-Fed (start + pages - start) start (start + pages) total s (omega arith)
            (omega arith) room b below in
        (fed, omega (arith, count)))

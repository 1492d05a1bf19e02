-- ===== src/Pmm/Boot.antt =====
-- `pmm_init` of na/mm/pmm.cc: what it makes of the free regions.
use lume.Word.{add64, sub64}
use lume.Common.{
  ℕ, ◌+◌, ◌-◌, ◌*◌, ◌/◌, ◌%◌, ◌^◌, ◌≤◌, ◌<◌, ◌≡◌, refl, ap, ◌∙◌, sym, subst, true, false, ◌&&◌,
  List, [], ◌∷◌, some, ◌==◌, ltb, leb, arith, Bool-cases, inl, inr, ◌⊎◌, mem, Distinct, ◌↔◌, length,
  All,
}
use lume.Memblock.{Region, Memblock, memblock_for_each_free, memblock_retire}
use lume.Memblock.Regions.{IsValid, InLimit, phys_limit, covered}
use lume.Memblock.Free.{
  gaps, recorded, recorded_lem, recorded_exact, recorded-Ascends, Ascends, for_each,
  for_each_free-recorded,
}
use lume.Pmm.{Pmm}
use lume.Pmm.Blocks.{Tiling}
use lume.Pmm.Buddy.{Buddies, nothing, Free}
use lume.Pmm.Alloc.{Same, Same-trans, Buddies-ext}
use lume.Pmm.Cache.{Available, out}
use lume.Pmm.Serve.{Sound}
use lume.Pmm.Feed.{no_blocks, Below, feed_region, feed_region-Fed}
use lume.Pmm.Init.{pmm_empty, pmm_init}

-- Whole pages that end at or before the address.
abbrev pub Whole : ℕ → Region → Type 0
Whole mem_end r = (r.base % 4096 ≡ 0) × (r.size % 4096 ≡ 0) × (r.base + r.size ≤ mem_end)

abbrev pub WholePages : Region → Type 0
WholePages r = (r.base % 4096 ≡ 0) × (r.size % 4096 ≡ 0)

gap-Whole :
    (mem_end pos to : ℕ)
    → pos < to
    → to ≤ mem_end
    → mem_end ≤ phys_limit
    → pos % 4096 ≡ 0
    → to % 4096 ≡ 0
    → Whole mem_end (record { base = pos; size = sub64 to pos })
gap-Whole mem_end pos to less inside m e f =
    let size : sub64 to pos ≡ to - pos = omega (arith, less, inside, m) in
    (e, omega (arith, size, e, f, less), omega (arith, size, less, inside))

gaps-Whole :
    (mem_end pos : ℕ) (rs : List Region)
    → mem_end ≤ phys_limit
    → mem_end % 4096 ≡ 0
    → pos % 4096 ≡ 0
    → All InLimit rs
    → All WholePages rs
    → All (λ r. r.base ≤ mem_end) rs
    → All (Whole mem_end) (gaps mem_end pos rs)
unfolding gaps
gaps-Whole mem_end pos [] m e f l w b = elim (Bool-cases (ltb pos mem_end)) [
  | inl more ↦
      rw more (gap-Whole mem_end pos mem_end (ground (arith, more)) (omega arith) m f e, tt)
  | inr done ↦ rw done tt
]
gaps-Whole mem_end pos (r ∷ rs) m e f l w b =
    let end : add64 r.base r.size ≡ r.base + r.size = omega (arith, l.0) in
    let whole : add64 r.base r.size % 4096 ≡ 0 = omega (arith, end, w.0) in
    let after = gaps-Whole mem_end (add64 r.base r.size) rs m e whole l.1 w.1 b.1 in
    let kept = gaps-Whole mem_end pos rs m e f l.1 w.1 b.1 in
    elim (Bool-cases (ltb pos mem_end)) [
      | inr done ↦ rw done tt
      | inl more ↦ rw more (elim (Bool-cases (ltb r.base pos)) [
        | inl under ↦ rw under (elim (Bool-cases (ltb pos (add64 r.base r.size))) [
          | inl skips ↦ rw skips after
          | inr stays ↦ rw stays kept
        ])
        | inr over ↦ rw over (elim (Bool-cases (ltb pos r.base)) [
          | inl gap ↦
              rw gap (gap-Whole mem_end pos r.base (ground (arith, gap)) b.0 m f w.0.0, after)
          | inr none_here ↦ rw none_here after
        ])
      ])
    ]

-- The page with the number, as an address.
abbrev pub page_start : ℕ → ℕ → ℕ
page_start mem_base a = mem_base + a * 4096

-- What holds when the pages of all the regions have become free.
record FedAll (mem_base : ℕ) (s s' : Pmm) (rs : List Region) : Type 0 where
  buddies : Buddies s' no_blocks nothing
  pages : (a : ℕ) → Free s' a ↔ (Free s a ⊎ (covered (page_start mem_base a) rs ≡ true))
  same : Same s s'

for_each-FedAll :
    (mem_base mem_end pos : ℕ) (rs : List Region) (c : Pmm × ℕ)
    → mem_base ≤ pos
    → mem_end ≤ phys_limit
    → mem_base % 4096 ≡ 0
    → (mem_end - mem_base) / 4096 ≤ c.0.num_pages
    → Ascends pos rs
    → All (Whole mem_end) rs
    → Buddies c.0 no_blocks nothing
    → Below c.0 ((pos - mem_base) / 4096)
    → FedAll mem_base c.0 (for_each (feed_region mem_base) rs c).0 rs
for_each-FedAll mem_base mem_end pos [] c from m e room up whole b below = record {
  buddies = b;
  pages = λ a. (λ f. inl f, λ x. elim x [ inl f ↦ f | inr no_region ↦ cc no_region ]);
  same = record { pages = refl; pcp = refl; batch = refl; high = refl; base = refl };
}
for_each-FedAll mem_base mem_end pos (r ∷ rs) (s, total) from m e room up whole b below =
    let (ascend, positive, later) = up in
    let ((low, size, inside), others) = whole in
    let start = (r.base - mem_base) / 4096 in
    let count = r.size / 4096 in
    let at : r.base ≡ mem_base + start * 4096 = omega (arith, low, e, from, ascend) in
    let long : r.size ≡ count * 4096 = omega (arith, size) in
    let (fed, _) =
      feed_region-Fed mem_base r.base r.size start count total s at long (omega (arith, inside, m))
        (omega (arith, at, long, inside, room, from, ascend)) b
        (λ o q l. omega (arith, below o q l, ascend, from)) in
    let c1 = feed_region mem_base r.base r.size (s, total) in
    let rest =
      for_each-FedAll mem_base mem_end (r.base + r.size) rs c1 (omega (arith, from, ascend)) m e
        (omega (arith, room, fed.same.pages)) later others fed.buddies
        (λ o q l. omega (arith, fed.below o q l, at, long)) in
    record {
      buddies = rest.buddies;
      pages = λ a. (
        λ f. elim ((rest.pages a).0 f) [
          | inl g ↦ elim ((fed.pages a).0 g) [
            | inl old ↦ inl old
            | inr i ↦
                let here : (leb r.base (page_start mem_base a)
                      && ltb (page_start mem_base a) (r.base + r.size))
                    ≡ true =
                  ground (arith, i, at, long) in
                inr (ground (arith, here))
          ]
          | inr far ↦ inr (ground (arith, far))
        ],
        λ x. elim x [
          | inl old ↦ (rest.pages a).1 (inl ((fed.pages a).1 (inl old)))
          | inr there ↦
              elim (Bool-cases (
                leb r.base (page_start mem_base a)
                && ltb (page_start mem_base a) (r.base + r.size))) [
                  | inl here ↦ (rest.pages a).1 (
                      inl (
                        (fed.pages a).1
                          (inr (ground (arith, here, at), ground (arith, here, at, long)))))
                  | inr far ↦ (rest.pages a).1 (inr (ground (arith, there, far)))
                ]
        ],
      );
      same = Same-trans s c1.0 (for_each (feed_region mem_base) rs c1).0 fed.same rest.same;
    }

pub record Booted (s : Pmm) (mb : Memblock) (num_pages : ℕ) : Type 0 where
  pub sound : Sound s no_blocks
  pub pages :
      (a : ℕ)
      → Available s a ↔ ((a < num_pages) × (covered (page_start mb.mem_base a) mb.reserved ≡ false))

no_blocks-Tiling : (n : ℕ) → Tiling n (λ o p. false)
no_blocks-Tiling n = record { aligned = λ o p e. cc e; disjoint = λ o p k q e f. cc e }

pub pmm_empty-Buddies :
    (max_cpus mem_base num_pages : ℕ)
    → Buddies (pmm_empty max_cpus mem_base num_pages) no_blocks nothing
unfolding pmm_empty
pmm_empty-Buddies max_cpus mem_base num_pages = record {
  tiling = no_blocks-Tiling num_pages;
  once = λ o. tt;
  apart = λ o p m. refl;
  listed = λ o p m. cc m;
  marks = λ a small mark x. cc mark;
}

pmm_empty_pages :
    (max_cpus mem_base num_pages : ℕ)
    → (pmm_empty max_cpus mem_base num_pages).num_pages ≡ num_pages
unfolding pmm_empty
pmm_empty_pages max_cpus mem_base num_pages = refl

pub pmm_empty-Below :
    (max_cpus mem_base num_pages n : ℕ) → Below (pmm_empty max_cpus mem_base num_pages) n
unfolding pmm_empty
pmm_empty-Below max_cpus mem_base num_pages n o q m = cc m

booted :
    (max_cpus num_pages : ℕ) (mb : Memblock) (s : Pmm)
    → IsValid mb
    → num_pages ≡ mb.mem_size / 4096
    → num_pages / (max_cpus * 1024) < 2 ^ 30
    → mb.mem_size % 4096 ≡ 0
    → All (λ r. r.base ≤ mb.mem_base + mb.mem_size) mb.reserved
    → FedAll mb.mem_base (pmm_empty max_cpus mb.mem_base num_pages) s (recorded mb)
    → Booted s mb num_pages
unfolding pmm_empty
booted max_cpus num_pages mb s v n batch e inside fed =
    let list : s.pcp.free_list ≡ [] = ap (λ c. c.free_list) fed.same.pcp in
    record {
      sound = record {
        cached = record {
          buddies =
              Buddies-ext s no_blocks (out s.pcp.free_list no_blocks) nothing nothing
                (λ o p. ground (arith, ap (mem p) list)) (λ a. refl) fed.buddies;
          unique = subst Distinct (sym list) tt;
          apart = λ p m. refl;
          count = ap (λ c. c.count) fed.same.pcp ∙ sym (ap (λ l. length l) list);
        };
        small = omega (arith, ap (λ l. length l) list);
        limits = ground (arith, fed.same.batch, fed.same.high, batch);
      };
      pages = λ a.
          let exact = recorded_exact mb (page_start mb.mem_base a) v inside in
          (
            λ x. elim x [
              | inr m ↦ cc (m, ap (mem a) list)
              | inl f ↦ elim ((fed.pages a).0 f) [
                | inl (o, p, m, i) ↦ cc m
                | inr there ↦ (ground (arith, exact, there, n, e), ground (arith, exact, there))
              ]
            ],
            λ (small, clear).
                inl ((fed.pages a).1 (inr (ground (arith, exact, small, clear, n, e)))),
          );
    }

-- `pmm_init` after a boot allocator whose RAM and reserved regions are whole pages, with no reserved
-- region from beyond the end of RAM: it does not panic, the allocator is sound with nothing handed
-- out, the available pages are exactly those of RAM that are not reserved, and the boot allocator is
-- retired.
pub pmm_init-Booted :
    (max_cpus num_pages : ℕ) (mb : Memblock)
    → IsValid mb
    → 0 < mb.mem_size
    → mb.mem_base % 4096 ≡ 0
    → mb.mem_size % 4096 ≡ 0
    → All WholePages mb.reserved
    → All (λ r. r.base ≤ mb.mem_base + mb.mem_size) mb.reserved
    → num_pages ≡ mb.mem_size / 4096
    → num_pages / (max_cpus * 1024) < 2 ^ 30
    → (s : Pmm) × (total_pages : ℕ) × (pmm_init max_cpus num_pages mb
        ≡ some (s, total_pages, memblock_retire mb))
      × Booted s mb num_pages
unfolding pmm_init
pmm_init-Booted max_cpus num_pages mb v positive low e whole inside n batch =
    let c0 : Pmm × ℕ = (pmm_empty max_cpus mb.mem_base num_pages, 0) in
    let c = memblock_for_each_free mb (feed_region mb.mem_base) c0 in
    let some_ram : (mb.mem_size == 0) ≡ false = ground (arith, positive) in
    let end : add64 mb.mem_base mb.mem_size ≡ mb.mem_base + mb.mem_size = omega (arith, v.ram) in
    let regions = subst (All (Whole (mb.mem_base + mb.mem_size))) (sym (recorded_lem mb)) (
      rw end (
        gaps-Whole (mb.mem_base + mb.mem_size) mb.mem_base mb.reserved v.ram (omega (arith, low, e))
          low v.limits whole inside)) in
    let fed =
      for_each-FedAll mb.mem_base (mb.mem_base + mb.mem_size) mb.mem_base (recorded mb) c0
        (omega arith) v.ram low (omega (arith, n, pmm_empty_pages max_cpus mb.mem_base num_pages))
        (recorded-Ascends mb v) regions (pmm_empty-Buddies max_cpus mb.mem_base num_pages)
        (pmm_empty-Below max_cpus mb.mem_base num_pages ((mb.mem_base - mb.mem_base) / 4096)) in
    let fed' =
      subst (λ r. FedAll mb.mem_base c0.0 r.0 (recorded mb))
        (sym (for_each_free-recorded mb (feed_region mb.mem_base) c0)) fed in
    (c.0, c.1, rw some_ram refl, booted max_cpus num_pages mb c.0 v n batch e inside fed')

-- ===== src/Pmm/Calls.antt =====
-- The calls of na/mm/pmm.cc: what each does to the allocator's state.
use lume.Common.{
  ℕ, ◌^◌, ◌<◌, ◌≡◌, refl, ap, ◌∙◌, sym, subst, true, false, ◌&&◌, List, [], ◌∷◌, Option, none, some,
  ◌==◌, ==_iff, ltb, leb, arith, Bool-cases, List-cases, inl, inr, ◌⊎◌, mem, ◌↔◌, update,
  if◌then◌else◌, length,
}
use lume.Pmm.{
  Page, Pmm, is_free, hand_out, drain_pcp, refill_pcp, pcp_pop, pcp_push, pmm_alloc_page,
  pmm_free_page,
}
use lume.Pmm.Blocks.{Blocks, add, remove}
use lume.Pmm.Buddy.{state_of, order_of, Buddies, nothing}
use lume.Pmm.Alloc.{Buddies-ext}
use lume.Pmm.Take.{held_absent}
use lume.Pmm.Cache.{Cached, out, Available, retag, retag-Buddies, pcp_push-Cached}
use lume.Pmm.Drain.{drain_pcp-Drained, popped}
use lume.Pmm.Serve.{
  Sound, none_free, PageOutcome, no_page, page, Filled, fill-Filled, limits-Steady, given_within,
  given_fresh, given-Cached, given_same,
}

checked : (n p : ℕ) (r : Option (Option ℕ × Pmm)) → p < n → (if leb n p then none else r) ≡ r
checked n p r small = let within : leb n p ≡ false = ground arith in rw within refl

pop_first :
    (f : Pmm) (p : ℕ) (rest : List ℕ)
    → f.pcp.free_list ≡ p ∷ rest
    → p < f.num_pages
    → pcp_pop f ≡ some (some p, hand_out (popped f rest) p 0)
unfolding pcp_pop
pop_first f p rest first small =
    ap
      (λ l. elim l as (λ x. Option (Option ℕ × Pmm)) [
        | [] ↦ none
        | q ∷ r ↦ if leb f.num_pages q then none else some (some q, hand_out (popped f r) q 0)
      ])
      first
    ∙ checked f.num_pages p (some (some p, hand_out (popped f rest) p 0)) small

serve :
    (s f : Pmm) (K : Blocks)
    → Sound s K
    → Filled s f K
    → PageOutcome s K (if ltb 0 f.pcp.count then pcp_pop f else some (none, f))
unfolding hand_out
serve s f K b fill = elim (List-cases f.pcp.free_list) [
  | inl empty ↦
      let none_left : ltb 0 f.pcp.count ≡ false =
        ground (arith, fill.cached.count, ap (λ l. length l) empty) in
      rw none_left (
        no_page f
          (record {
            cached = fill.cached;
            small = fill.small;
            limits = limits-Steady s f fill.steady b.limits;
          })
          fill.steady
          (λ a x. elim ((fill.same a).1 x) [
            | inl free_page ↦ elim fill.supply [
              | inl more ↦ omega (arith, more, ap (λ l. length l) empty)
              | inr dry ↦ none_free f (out f.pcp.free_list K) fill.cached.buddies dry a free_page
            ]
            | inr m ↦ cc (m, ap (mem a) empty)
          ]))
  | inr (p, rest, first) ↦
      let some_left : ltb 0 f.pcp.count ≡ true =
        ground (arith, fill.cached.count, ap (λ l. length l) first) in
      let limits = limits-Steady s f fill.steady b.limits in
      let room : length f.pcp.free_list < 2 ^ 32 = omega (arith, fill.small, limits.2) in
      let c = fill.cached in
      let t = hand_out (popped f rest) p 0 in
      rw some_left (
        subst (PageOutcome s K)
          (sym (pop_first f p rest first (given_within f K p rest c first room)))
          (page p t
            (record {
              cached = given-Cached f K p rest c first room;
              small = omega (arith, fill.small, ap (λ l. length l) first);
              limits = limits;
            })
            (record {
              pages = fill.steady.pages;
              batch = fill.steady.batch;
              high = fill.steady.high;
              base = fill.steady.base;
            })
            (given_fresh f K p rest c first room)
            (λ a. (
              λ x. (given_same f K p rest c first room a).0 ((fill.same a).1 x),
              λ x. (fill.same a).0 ((given_same f K p rest c first room a).1 x),
            ))
            (ground arith)))
]

-- `pmm_alloc_page` of a sound allocator never panics and leaves it sound. Either no page is available,
-- in a free block or in the cache, or it returns a page that was available and of no caller, with one
-- reference, and exactly the other pages stay available.
pub pmm_alloc_page-PageOutcome :
    (s : Pmm) (K : Blocks) → Sound s K → PageOutcome s K (pmm_alloc_page s)
unfolding pmm_alloc_page
pmm_alloc_page-PageOutcome s K b =
    serve s (if s.pcp.count == 0 then refill_pcp s.pcp_batch_size s else s) K b (fill-Filled s K b)

-- A page that was handed out is not marked free.
held_unfree :
    (s : Pmm) (H : Blocks) (p : ℕ)
    → Buddies s H nothing
    → H 0 p ≡ true
    → is_free (state_of s p) ≡ false
held_unfree s H p b held = elim (Bool-cases (is_free (state_of s p))) [
  | inr unfree ↦ unfree
  | inl mark ↦
      let within = (b.tiling.aligned 0 p (ground (arith, held))).2 in
      elim (b.marks p (omega (arith, within)) mark refl).1 [
        | inl m ↦ cc (m, held_absent s H nothing 0 p b held (order_of s p))
        | inr (k, q, lt, block, i) ↦ elim (b.tiling.disjoint 0 p k q (ground (arith, held)) block) [
          | inl (same, _) ↦ absurd (omega (arith, lt, same))
          | inr (inl before) ↦ absurd (omega (arith, before, i))
          | inr (inr behind) ↦ absurd (omega (arith, behind, i))
        ]
      ]
]

pub record PageFreed (s s' : Pmm) (K : Blocks) (p : ℕ) : Type 0 where
  pub sound : Sound s' (remove K 0 p)
  pub pages : (a : ℕ) → Available s' a ↔ (Available s a ⊎ (a ≡ p))

module _ (s : Pmm) (K : Blocks) (p : ℕ) (b : Sound s K) (held : K 0 p ≡ true) where
  abbrev pushed : Pmm
  pushed =
      pcp_push (record s { page_map = update s.page_map p (record (s.page_map p) { order = 0 }) }) p

  absent : mem p s.pcp.free_list ≡ false
  absent = elim (Bool-cases (mem p s.pcp.free_list)) [
    | inr away ↦ away
    | inl m ↦ cc (held, b.cached.apart p m)
  ]

  pushed_blocks :
      (o q : ℕ) → out s.pcp.free_list K o q ≡ add (out s.pcp.free_list (remove K 0 p)) 0 p o q
  pushed_blocks o q = elim (Bool-cases (o == 0 && q == p)) [
    | inr other ↦ ground (arith, other)
    | inl same ↦
        let e : o ≡ 0 = ground (arith, same) in
        let f : q ≡ p = ground (arith, same) in
        let h : K o q ≡ true = ap (λ t. K t q) e ∙ ap (K 0) f ∙ held in ground (arith, same, h)
  ]

  pushed-Cached : Cached pushed (remove K 0 p)
  pushed-Cached =
      let g : Page = record (s.page_map p) { order = 0 } in
      let H = add (out s.pcp.free_list (remove K 0 p)) 0 p in
      let c = b.cached in
      let unfree = held_unfree s (out s.pcp.free_list K) p c.buddies (ground (arith, held)) in
      pcp_push-Cached (retag s p g s.pcp) (remove K 0 p) p
        (Buddies-ext (retag s p g s.pcp) (out s.pcp.free_list K) H nothing nothing pushed_blocks
          (λ a. refl)
          (retag-Buddies s (out s.pcp.free_list K) 0 p g s.pcp unfree (ground (arith, held))
            c.buddies))
        c.unique (λ q m. ground (arith, c.apart q m)) c.count (omega (arith, b.small, b.limits.2))
        (ground (arith, absent))

  pushed_same : (a : ℕ) → Available pushed a ↔ (Available s a ⊎ (a ≡ p))
  unfolding pcp_push
  pushed_same a = (
    λ x. elim x [
      | inl free_page ↦ inl (inl free_page)
      | inr m ↦ elim (Bool-cases (p == a)) [
        | inl new ↦ inr (sym ((==_iff p a).0 new))
        | inr old ↦ inl (inr (ground (arith, m, old)))
      ]
    ],
    λ x. elim x [
      | inl (inl free_page) ↦ inl free_page
      | inl (inr m) ↦ inr (ground (arith, m))
      | inr same ↦ inr (ground (arith, same))
    ],
  )

  -- `pmm_free_page` of a page that a caller holds leaves the allocator sound, with the page no longer
  -- held, whether the cache is drained or not; the available pages are those from before and the page.
  pub pmm_free_page-PageFreed : PageFreed s (pmm_free_page s p) K p
  unfolding pmm_free_page pcp_push
  pmm_free_page-PageFreed =
      let c = pushed-Cached in
      elim (Bool-cases (leb pushed.pcp_high_watermark pushed.pcp.count)) [
        | inr below ↦ rw below (record {
          sound = record {
            cached = c;
            small = ground (arith, below, c.count, b.cached.count);
            limits = b.limits;
          };
          pages = pushed_same;
        })
        | inl above ↦
            let d =
              drain_pcp-Drained pushed (remove K 0 p) c (omega (arith, b.small, b.limits.2)) in
            rw above (record {
              sound = record {
                cached = d.cached;
                small = omega (arith, d.shrunk, c.count, b.small, b.limits, d.steady.high);
                limits =
                    limits-Steady pushed (drain_pcp pushed)
                      (record {
                        pages = d.steady.pages;
                        batch = d.steady.batch;
                        high = d.steady.high;
                        base = d.steady.base;
                      })
                      b.limits;
              };
              pages = λ a. (
                λ x. (pushed_same a).0 ((d.same a).0 x),
                λ x. (d.same a).1 ((pushed_same a).1 x),
              );
            })
      ]

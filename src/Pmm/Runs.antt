-- ===== src/Pmm/Runs.antt =====
-- `pmm_alloc_pages` and `pmm_free_pages` of na/mm/pmm.cc: runs of pages, past the cache.
use lume.Common.{
  ℕ, ◌≤◌, ◌<◌, ◌≡◌, refl, ap, ◌∙◌, sym, subst, true, false, ◌&&◌, [], Option, none, some, ◌==◌,
  ==_iff, leb, arith, Bool-cases, inl, inr, ◌⊎◌, mem, Distinct, ◌↔◌, length,
}
use lume.Pmm.{Pmm, buddy_free, buddy_alloc, pmm_alloc_pages, pmm_free_pages}
use lume.Pmm.Blocks.{Blocks, add, remove, In}
use lume.Pmm.Buddy.{Buddies, nothing}
use lume.Pmm.Alloc.{Same, Buddies-ext}
use lume.Pmm.Take.{Allocated, AllocOutcome, exhausted, allocated, buddy_alloc-AllocOutcome}
use lume.Pmm.Release.{buddy_free-Freed}
use lume.Pmm.Cache.{out, Available, Steady}
use lume.Pmm.Serve.{Sound, limits-Steady}

-- The block at p is given to the callers.
pub record Given (s s' : Pmm) (K : Blocks) (order p : ℕ) : Type 0 where
  pub sound : Sound s' (add K order p)
  pub fresh : (o : ℕ) → K o p ≡ false
  pub pages : (a : ℕ) → Available s a ↔ (Available s' a ⊎ In order p a)

pub data RunOutcome (s : Pmm) (K : Blocks) (order : ℕ) : Option ℕ × Pmm → Type 0 where
  refused : 11 ≤ order → RunOutcome s K order (none, s)
  no_run :
      order < 11
      → ((k : ℕ) → order ≤ k → k < 11 → s.free_areas k ≡ [])
      → RunOutcome s K order (none, s)
  run : (p : ℕ) (s' : Pmm) → order < 11 → Given s s' K order p → RunOutcome s K order (some p, s')

Same-Steady : (s s' : Pmm) → Same s s' → Steady s s'
Same-Steady s s' e = record { pages = e.pages; batch = e.batch; high = e.high; base = e.base }

-- A call that leaves the cache alone, from the callers' blocks K to L.
recache :
    (s s' : Pmm) (K L : Blocks)
    → Sound s K
    → Same s s'
    → Buddies s' (out s.pcp.free_list L) nothing
    → ((q : ℕ) → mem q s.pcp.free_list ≡ true → L 0 q ≡ false)
    → Sound s' L
recache s s' K L b e buddies apart = record {
  cached = record {
    buddies = subst (λ x. Buddies s' (out x.free_list L) nothing) (sym e.pcp) buddies;
    unique = subst (λ x. Distinct x.free_list) (sym e.pcp) b.cached.unique;
    apart = subst (λ x. (q : ℕ) → mem q x.free_list ≡ true → L 0 q ≡ false) (sym e.pcp) apart;
    count = subst (λ x. x.count ≡ length x.free_list) (sym e.pcp) b.cached.count;
  };
  small = omega (arith, b.small, e.high, ap (λ x. length x.free_list) e.pcp);
  limits = limits-Steady s s' (Same-Steady s s' e) b.limits;
}

Allocated-Given :
    (s s' : Pmm) (K : Blocks) (order p : ℕ)
    → Sound s K
    → Allocated s s' (out s.pcp.free_list K) order p
    → Given s s' K order p
Allocated-Given s s' K order p b took = record {
  sound =
      recache s s' K (add K order p) b took.same
        (Buddies-ext s' (add (out s.pcp.free_list K) order p) (out s.pcp.free_list (add K order p))
          nothing nothing (λ o q. ground arith) (λ a. refl) took.buddies)
        (λ q m. elim (Bool-cases (q == p)) [
          | inl same ↦
              let there : mem p s.pcp.free_list ≡ true =
                ap (λ t. mem t s.pcp.free_list) (sym ((==_iff q p).0 same)) ∙ m in
              absurd (ground (arith, took.fresh 0, there))
          | inr other ↦ ground (arith, other, b.cached.apart q m)
        ]);
  fresh = λ o. ground (arith, took.fresh o);
  pages = λ a.
      let e : mem a s'.pcp.free_list ≡ mem a s.pcp.free_list =
        ap (λ x. mem a x.free_list) took.same.pcp in
      (
        λ x. elim x [
          | inl f ↦ elim ((took.pages a).0 f) [ inl left ↦ inl (inl left) | inr i ↦ inr i ]
          | inr m ↦ inl (inr (e ∙ m))
        ],
        λ x. elim x [
          | inl (inl left) ↦ inl ((took.pages a).1 (inl left))
          | inl (inr m) ↦ inr (sym e ∙ m)
          | inr i ↦ inl ((took.pages a).1 (inr i))
        ],
      );
}

run-outcome :
    (s : Pmm) (K : Blocks) (order : ℕ)
    → Sound s K
    → order < 11
    → (r : Option ℕ × Pmm) → AllocOutcome s (out s.pcp.free_list K) order r
    → RunOutcome s K order r
run-outcome s K order b small r (exhausted empty) = no_run small empty
run-outcome s K order b small r (allocated p s' took) =
    run p s' small (Allocated-Given s s' K order p b took)

-- `pmm_alloc_pages` of a sound allocator refuses an order of 11 or more, or finds every list from the
-- order on empty, both without a change; or it returns a block that was not held, the allocator is
-- sound with it held, and the available pages are those still available and the block's.
pub pmm_alloc_pages-RunOutcome :
    (s : Pmm) (K : Blocks) (order : ℕ) → Sound s K → RunOutcome s K order (pmm_alloc_pages s order)
unfolding pmm_alloc_pages
pmm_alloc_pages-RunOutcome s K order b = elim (Bool-cases (leb 11 order)) [
  | inl big ↦ rw big (refused (ground (arith, big)))
  | inr small ↦
      let fits : order < 11 = ground (arith, small) in
      rw small (
        run-outcome s K order b fits (buddy_alloc order s)
          (buddy_alloc-AllocOutcome s (out s.pcp.free_list K) order fits b.cached.buddies))
]

-- The block at p is back.
pub record RunFreed (s s' : Pmm) (K : Blocks) (o p : ℕ) : Type 0 where
  pub sound : Sound s' (remove K o p)
  pub pages : (a : ℕ) → Available s' a ↔ (Available s a ⊎ In o p a)

module _ (s : Pmm) (K : Blocks) (o p : ℕ) (b : Sound s K) (held : K o p ≡ true) where
  -- A block of a caller is not a page in the cache.
  uncached : (o == 0 && mem p s.pcp.free_list) ≡ false
  uncached = elim (Bool-cases (o == 0 && mem p s.pcp.free_list)) [
    | inr away ↦ away
    | inl there ↦
        let e : o ≡ 0 = ground (arith, there) in
        let m : mem p s.pcp.free_list ≡ true = ground (arith, there) in
        cc (held, ap (λ t. K t p) e, b.cached.apart p m)
  ]

  freed_blocks :
      (k q : ℕ) → remove (out s.pcp.free_list K) o p k q ≡ out s.pcp.free_list (remove K o p) k q
  freed_blocks k q = elim (Bool-cases (k == o && q == p)) [
    | inr other ↦ ground (arith, other)
    | inl same ↦
        let e : k ≡ o = ground (arith, same) in
        let f : q ≡ p = ground (arith, same) in
        let away : (k == 0 && mem q s.pcp.free_list) ≡ false =
          ap (λ t. t == 0 && mem q s.pcp.free_list) e
          ∙ ap (λ t. o == 0 && mem t s.pcp.free_list) f
          ∙ uncached in
        ground (arith, same, away)
  ]

  pub buddy_free-RunFreed : RunFreed s (buddy_free s p o) K o p
  buddy_free-RunFreed =
      let s' = buddy_free s p o in
      let H = out s.pcp.free_list K in
      let f = buddy_free-Freed s H o p b.cached.buddies (ground (arith, held)) in
      record {
        sound =
            recache s s' K (remove K o p) b f.same
              (Buddies-ext s' (remove H o p) (out s.pcp.free_list (remove K o p)) nothing nothing
                freed_blocks (λ a. refl) f.buddies)
              (λ q m. ground (arith, b.cached.apart q m));
        pages = λ a.
            let e : mem a s'.pcp.free_list ≡ mem a s.pcp.free_list =
              ap (λ x. mem a x.free_list) f.same.pcp in
            (
              λ x. elim x [
                | inl free_page ↦ elim ((f.pages a).0 free_page) [
                  | inl old ↦ inl (inl old)
                  | inr i ↦ inr i
                ]
                | inr m ↦ inl (inr (sym e ∙ m))
              ],
              λ x. elim x [
                | inl (inl old) ↦ inl ((f.pages a).1 (inl old))
                | inl (inr m) ↦ inr (e ∙ m)
                | inr i ↦ inl ((f.pages a).1 (inr i))
              ],
            );
      }

  -- `pmm_free_pages` of a block that a caller holds does not panic and leaves the allocator sound, with
  -- the block no longer held; the available pages are those from before and the block's.
  pub pmm_free_pages-RunFreed : (s' : Pmm) × (pmm_free_pages s p o ≡ some s') × RunFreed s s' K o p
  unfolding pmm_free_pages
  pmm_free_pages-RunFreed =
      let small : leb 11 o ≡ false =
        let t = (b.cached.buddies.tiling.aligned o p (ground (arith, held))).0 in
        ground (arith, t) in
      (buddy_free s p o, rw small refl, buddy_free-RunFreed)

-- ===== src/Pmm/Cache.antt =====
-- The page cache of na/mm/pmm.cc: its state beside the buddy system's, and `refill_pcp`.
use lume.Common.{
  ℕ, ◌+◌, ◌%◌, ◌^◌, ◌≤◌, ◌<◌, ◌≡◌, refl, ap, ◌∙◌, sym, subst, true, false, ◌&&◌, ◌||◌, List, [],
  ◌∷◌, ◌==◌, ==_iff, arith, Bool-cases, inl, inr, ◌⊎◌, mem, Distinct, ◌↔◌, update, length,
}
use lume.Pmm.{PageState, Page, PerCpuCache, Pmm, is_free, pcp_push}
use lume.Pmm.Blocks.{Blocks, add, Aligned, In}
use lume.Pmm.Buddy.{MarkedAt, Buddies, nothing, Free}
use lume.Pmm.Alloc.{Buddies-ext}
use lume.Pmm.Take.{held_absent}

-- The blocks that are out of the buddy system: those of the callers and the pages in the cache.
abbrev pub out : List ℕ → Blocks → Blocks
out pages K o p = K o p || (o == 0 && mem p pages)

-- K are the blocks of the callers.
pub record Cached (s : Pmm) (K : Blocks) : Type 0 where
  pub buddies : Buddies s (out s.pcp.free_list K) nothing
  pub unique : Distinct s.pcp.free_list
  pub apart : (p : ℕ) → mem p s.pcp.free_list ≡ true → K 0 p ≡ false
  pub count : s.pcp.count ≡ length s.pcp.free_list

-- A page that a call can still hand out.
abbrev pub Available : Pmm → ℕ → Type 0
Available s a = Free s a ⊎ (mem a s.pcp.free_list ≡ true)

-- A page's descriptor changes, and the cache.
abbrev pub retag : Pmm → ℕ → Page → PerCpuCache → Pmm
retag s p g c = record s { page_map = update s.page_map p g; pcp = c }

other_page :
    (s : Pmm) (g : Page) (c : PerCpuCache) (p a : ℕ)
    → (a == p) ≡ false
    → (retag s p g c).page_map a ≡ s.page_map a
other_page s g c p a other = rw other refl

pub retag-Buddies :
    (s : Pmm) (H : Blocks) (o p : ℕ) (g : Page) (c : PerCpuCache)
    → is_free g.state ≡ false
    → H o p ≡ true
    → Buddies s H nothing
    → Buddies (retag s p g c) H nothing
retag-Buddies s H o p g c unfree held b = record {
  tiling = b.tiling;
  once = b.once;
  apart = b.apart;
  listed = λ k r m.
      let other : (r == p) ≡ false = elim (Bool-cases (r == p)) [
        | inr e ↦ e
        | inl e ↦ cc (
          m,
          held_absent s H nothing o p b held k,
          ap (λ t. mem t (s.free_areas k)) ((==_iff r p).0 e),
        )
      ] in
      subst (λ x. (is_free x.state ≡ true) × (x.order ≡ k)) (sym (other_page s g c p r other))
        (b.listed k r m);
  marks = λ a small mark e. elim (Bool-cases (a == p)) [
    | inl same ↦ absurd (ground (arith, mark, same, unfree))
    | inr old ↦
        subst (λ x. (is_free x.state ≡ true) → Aligned x.order a × MarkedAt s H x.order a)
          (sym (other_page s g c p a old)) (λ m. b.marks a small m refl) mark
  ];
}

-- What the calls on the cache leave alone.
pub record Steady (s s' : Pmm) : Type 0 where
  pub pages : s'.num_pages ≡ s.num_pages
  pub batch : s'.pcp_batch_size ≡ s.pcp_batch_size
  pub high : s'.pcp_high_watermark ≡ s.pcp_high_watermark
  pub base : s'.mem_base ≡ s.mem_base

pub push_blocks :
    (pages : List ℕ) (K : Blocks) (p o q : ℕ) → add (out pages K) 0 p o q ≡ out (p ∷ pages) K o q
push_blocks pages K p o q = ground arith

-- A page that is out of the buddy system, of no caller and not in the cache, enters it.
pub pcp_push-Cached :
    (s : Pmm) (K : Blocks) (p : ℕ)
    → Buddies s (add (out s.pcp.free_list K) 0 p) nothing
    → Distinct s.pcp.free_list
    → ((q : ℕ) → mem q s.pcp.free_list ≡ true → K 0 q ≡ false)
    → s.pcp.count ≡ length s.pcp.free_list
    → length s.pcp.free_list + 1 < 2 ^ 32
    → out s.pcp.free_list K 0 p ≡ false
    → Cached (pcp_push s p) K
unfolding pcp_push
pcp_push-Cached s K p b unique apart count room fresh = record {
  buddies =
      let c : PerCpuCache = record {
        free_list = p ∷ s.pcp.free_list;
        count = (s.pcp.count + 1) % 2 ^ 32;
      } in
      let g : Page = record (s.page_map p) { state = PageState.pcp_cached } in
      Buddies-ext (retag s p g c) (add (out s.pcp.free_list K) 0 p) (out (p ∷ s.pcp.free_list) K)
        nothing nothing (push_blocks s.pcp.free_list K p) (λ a. refl)
        (retag-Buddies s (add (out s.pcp.free_list K) 0 p) 0 p g c refl (ground arith) b);
  unique = ground (arith, unique, fresh);
  apart = λ q m. elim (Bool-cases (q == p)) [
    | inl same ↦ ap (K 0) ((==_iff q p).0 same) ∙ ground (arith, fresh)
    | inr other ↦ apart q (ground (arith, m, other))
  ];
  count = omega (arith, count, room);
}

pub record Refilled (s s' : Pmm) (K : Blocks) (left : ℕ) : Type 0 where
  pub cached : Cached s' K
  pub same : (a : ℕ) → Available s' a ↔ Available s a
  pub least : length s.pcp.free_list ≤ length s'.pcp.free_list
  pub most : length s'.pcp.free_list ≤ length s.pcp.free_list + left
  pub some_left :
      0 < left → (0 < length s'.pcp.free_list) ⊎ ((k : ℕ) → k < 11 → s'.free_areas k ≡ [])
  pub steady : Steady s s'

pub In-zero : (p a : ℕ) → In 0 p a ↔ (a ≡ p)
In-zero p a = (λ i. omega (arith, i), λ e. (omega (arith, e), omega (arith, e)))

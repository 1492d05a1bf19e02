-- ===== src/Pmm/Counts.antt =====
-- `page_incref` and `page_decref` of na/mm/pmm.cc: a page or a run returns with its last reference.
use lume.Common.{
  ℕ, ◌+◌, ◌-◌, ◌%◌, ◌^◌, ◌<◌, ◌≡◌, refl, ap, ◌∙◌, sym, subst, true, Option, some, ◌==◌, ==_iff,
  arith, Bool-cases, inl, inr, ◌↔◌, update,
}
use lume.Pmm.{Pmm, is_free, pmm_free_page, page_incref, page_decref}
use lume.Pmm.Blocks.{Blocks, Aligned}
use lume.Pmm.Buddy.{state_of, order_of, MarkedAt, Buddies, nothing}
use lume.Pmm.Cache.{out, Available, In-zero}
use lume.Pmm.Serve.{Sound}
use lume.Pmm.Calls.{pmm_free_page-PageFreed}
use lume.Pmm.Runs.{RunFreed, pmm_free_pages-RunFreed}

-- The page has n references.
abbrev pub recount : Pmm → ℕ → ℕ → Pmm
recount s p n = record s { page_map = update s.page_map p (record (s.page_map p) { refcount = n }) }

abbrev pub refcount_of : Pmm → ℕ → ℕ
refcount_of s p = (s.page_map p).refcount

module _ (s : Pmm) (p n : ℕ) where
  recount_page :
      (a : ℕ)
      → (state_of (recount s p n) a ≡ state_of s a) × (order_of (recount s p n) a ≡ order_of s a)
  recount_page a = elim (Bool-cases (a == p)) [
    | inl same ↦
        let e : (recount s p n).page_map a ≡ record (s.page_map p) { refcount = n } =
          rw same refl in
        let f = ap (λ x. s.page_map x) ((==_iff a p).0 same) in
        (
          ap (λ g. g.state) e ∙ sym (ap (λ g. g.state) f),
          ap (λ g. g.order) e ∙ sym (ap (λ g. g.order) f),
        )
    | inr other ↦
        let e : (recount s p n).page_map a ≡ s.page_map a = rw other refl in
        (ap (λ g. g.state) e, ap (λ g. g.order) e)
  ]

  pub recount-Buddies : (H : Blocks) → Buddies s H nothing → Buddies (recount s p n) H nothing
  recount-Buddies H b = record {
    tiling = b.tiling;
    once = b.once;
    apart = b.apart;
    listed = λ o q m.
        let (mark, order) = b.listed o q m in
        let (e, f) = recount_page q in (ap is_free e ∙ mark, f ∙ order);
    marks = λ a small mark x.
        let (e, f) = recount_page a in
        let (aligned, old) = b.marks a small (sym (ap is_free e) ∙ mark) x in
        (subst (λ o. Aligned o a) (sym f) aligned, subst (λ o. MarkedAt s H o a) (sym f) old);
  }

  pub recount-Sound : (K : Blocks) → Sound s K → Sound (recount s p n) K
  recount-Sound K b = record {
    cached = record {
      buddies = recount-Buddies (out s.pcp.free_list K) b.cached.buddies;
      unique = b.cached.unique;
      apart = b.cached.apart;
      count = b.cached.count;
    };
    small = b.small;
    limits = b.limits;
  }

-- `page_incref` leaves a sound allocator sound, with the same available pages and one more reference.
pub page_incref-Sound :
    (s : Pmm) (K : Blocks) (p : ℕ)
    → Sound s K
    → refcount_of s p + 1 < 2 ^ 32
    → Sound (page_incref s p) K
      × ((a : ℕ) → Available (page_incref s p) a ↔ Available s a)
      × (refcount_of (page_incref s p) p ≡ refcount_of s p + 1)
unfolding page_incref
page_incref-Sound s K p b room = (
  recount-Sound s p ((refcount_of s p + 1) % 2 ^ 32) K b,
  λ a. (λ x. x, λ x. x),
  ground (arith, room),
)

pub data DecrefOutcome (s : Pmm) (K : Blocks) (p : ℕ) : Option Pmm → Type 0 where
  kept :
      (s' : Pmm)
      → 1 < refcount_of s p
      → Sound s' K
      → (refcount_of s' p + 1 ≡ refcount_of s p)
      → ((a : ℕ) → Available s' a ↔ Available s a)
      → DecrefOutcome s K p (some s')
  last :
      (s' : Pmm)
      → refcount_of s p ≡ 1
      → RunFreed s s' K (order_of s p) p
      → DecrefOutcome s K p (some s')

module _ (s : Pmm) (K : Blocks) (p : ℕ) (b : Sound s K) (held : K (order_of s p) p ≡ true)
    (counted : 0 < refcount_of s p) (word : refcount_of s p < 2 ^ 32) where
  abbrev fewer : ℕ
  fewer = (refcount_of s p + 2 ^ 32 - 1) % 2 ^ 32

  -- `page_decref` of a block that a caller holds, with its recorded order and at least one reference,
  -- does not panic: with more than one it only counts, and with the last one the block is free.
  pub page_decref-DecrefOutcome : DecrefOutcome s K p (page_decref s p)
  unfolding page_decref
  page_decref-DecrefOutcome = elim (Bool-cases (refcount_of s p == 1)) [
    | inr more ↦ rw more (
        kept (recount s p fewer) (ground (arith, more, counted)) (recount-Sound s p fewer K b)
          (ground (arith, counted, word)) (λ a. (λ x. x, λ x. x)))
    | inl one ↦
        let t = recount s p fewer in
        let bt = recount-Sound s p fewer K b in
        elim (Bool-cases (order_of s p == 0)) [
          | inl page ↦
              let zeroth : order_of s p ≡ 0 = (==_iff (order_of s p) 0).0 page in
              let f = pmm_free_page-PageFreed t K p bt (ap (λ o. K o p) (sym zeroth) ∙ held) in
              rw one (
                rw page (
                  last (pmm_free_page t p) ((==_iff (refcount_of s p) 1).0 one) (
                    subst (λ o. RunFreed s (pmm_free_page t p) K o p) (sym zeroth)
                      (record {
                        sound = f.sound;
                        pages = λ a. (
                          λ x. elim ((f.pages a).0 x) [
                            | inl old ↦ inl old
                            | inr i ↦ inr ((In-zero p a).1 i)
                          ],
                          λ x. elim x [
                            | inl old ↦ (f.pages a).1 (inl old)
                            | inr i ↦ (f.pages a).1 (inr ((In-zero p a).0 i))
                          ],
                        );
                      }))))
          | inr run ↦
              let (s', e, f) = pmm_free_pages-RunFreed t K (order_of s p) p bt held in
              rw one (
                rw run (
                  subst (DecrefOutcome s K p) (sym e) (
                    last s' ((==_iff (refcount_of s p) 1).0 one)
                      (record { sound = f.sound; pages = f.pages }))))
        ]
  ]

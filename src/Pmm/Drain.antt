-- ===== src/Pmm/Drain.antt =====
-- `drain_pcp` of na/mm/pmm.cc.
use lume.Common.{
  ℕ, zero, suc, ◌+◌, ◌-◌, ◌/◌, ◌%◌, ◌^◌, ◌<◌, ◌≡◌, refl, ap, ◌∙◌, sym, subst, true, false, ◌&&◌,
  List, [], ◌∷◌, ◌==◌, ==_iff, arith, Bool-cases, List-cases, inl, inr, mem, Distinct, ◌↔◌, length,
}
use lume.Pmm.{Pmm, buddy_free, drain_rounds, drain_pcp}
use lume.Pmm.Blocks.{Blocks, remove}
use lume.Pmm.Buddy.{Buddies, nothing}
use lume.Pmm.Alloc.{Buddies-ext}
use lume.Pmm.Release.{Freed, buddy_free-Freed}
use lume.Pmm.Cache.{Cached, out, Available, Steady, In-zero}

pub record Drained (s s' : Pmm) (K : Blocks) (left : ℕ) : Type 0 where
  pub cached : Cached s' K
  pub same : (a : ℕ) → Available s' a ↔ Available s a
  pub shrunk : length s'.pcp.free_list ≡ length s.pcp.free_list - left
  pub steady : Steady s s'

-- The state with the page taken off the cache.
abbrev pub popped : Pmm → List ℕ → Pmm
popped s rest = record s {
  pcp = record { free_list = rest; count = (s.pcp.count + 2 ^ 32 - 1) % 2 ^ 32 };
}

module _ (s : Pmm) (K : Blocks) (page : ℕ) (rest : List ℕ) (c : Cached s K)
    (first : s.pcp.free_list ≡ page ∷ rest) (room : length s.pcp.free_list < 2 ^ 32) where
  pub popped-Buddies : Buddies (popped s rest) (out (page ∷ rest) K) nothing
  popped-Buddies =
      let b : Buddies s (out (page ∷ rest) K) nothing =
        subst (λ l. Buddies s (out l K) nothing) first c.buddies in
      record {
        tiling = b.tiling;
        once = b.once;
        apart = b.apart;
        listed = b.listed;
        marks = b.marks;
      }

  pub rest-Distinct : (mem page rest ≡ false) × Distinct rest
  rest-Distinct = let d : Distinct (page ∷ rest) = subst Distinct first c.unique in d

  pub rest_apart : (q : ℕ) → mem q (page ∷ rest) ≡ true → K 0 q ≡ false
  rest_apart q m = c.apart q (ap (mem q) first ∙ m)

  pub rest_blocks : (o q : ℕ) → remove (out (page ∷ rest) K) 0 page o q ≡ out rest K o q
  rest_blocks o q = elim (Bool-cases (o == 0 && q == page)) [
    | inl same ↦
        let e : o ≡ 0 = ground (arith, same) in
        let f : q ≡ page = ground (arith, same) in
        let absent : mem q rest ≡ false = ap (λ t. mem t rest) f ∙ rest-Distinct.0 in
        let unheld : K o q ≡ false =
          ap (λ t. K t q) e ∙ ap (K 0) f ∙ rest_apart page (ground arith) in
        ground (arith, same, absent, unheld)
    | inr other ↦ ground (arith, other)
  ]

  pub rest_count : (s.pcp.count + 2 ^ 32 - 1) % 2 ^ 32 ≡ length rest
  rest_count = omega (arith, c.count, room, ap (λ l. length l) first)

  module _ (s' : Pmm) (freed : Freed (popped s rest) s' (out (page ∷ rest) K) 0 page) where
    pub drained-Cached : Cached s' K
    drained-Cached =
        let e = freed.same.pcp in
        record {
          buddies =
              subst (λ x. Buddies s' (out x.free_list K) nothing) (sym e)
                (Buddies-ext s' (remove (out (page ∷ rest) K) 0 page) (out rest K) nothing nothing
                  rest_blocks (λ a. refl) freed.buddies);
          unique = subst (λ x. Distinct x.free_list) (sym e) rest-Distinct.1;
          apart =
              subst (λ x. (q : ℕ) → mem q x.free_list ≡ true → K 0 q ≡ false) (sym e)
                (λ q m. rest_apart q (ground (arith, m)));
          count = subst (λ x. x.count ≡ length x.free_list) (sym e) rest_count;
        }

    pub drained_same : (a : ℕ) → Available s' a ↔ Available s a
    drained_same a =
        let e : mem a s'.pcp.free_list ≡ mem a rest = ap (λ x. mem a x.free_list) freed.same.pcp in
        let whole : mem a s.pcp.free_list ≡ mem a (page ∷ rest) = ap (mem a) first in
        (
          λ x. elim x [
            | inl f ↦ elim ((freed.pages a).0 f) [
              | inl old ↦ inl old
              | inr i ↦ inr (ground (arith, (In-zero page a).0 i, whole))
            ]
            | inr m ↦ inr (ground (arith, m, e, whole))
          ],
          λ x. elim x [
            | inl f ↦ inl ((freed.pages a).1 (inl f))
            | inr m ↦ elim (Bool-cases (page == a)) [
              | inl new ↦
                  inl ((freed.pages a).1 (inr ((In-zero page a).1 (sym ((==_iff page a).0 new)))))
              | inr old ↦ inr (ground (arith, m, e, whole, old))
            ]
          ],
        )

drain_nothing : (left : ℕ) (s : Pmm) → s.pcp.free_list ≡ [] → drain_rounds (suc left) s ≡ s
unfolding drain_rounds
drain_nothing left s empty =
    ap
      (λ l. elim l as (λ x. Pmm) [
        | [] ↦ s
        | page ∷ rest ↦ drain_rounds left (buddy_free (popped s rest) page 0)
      ])
      empty

drain_first :
    (left : ℕ) (s : Pmm) (page : ℕ) (rest : List ℕ)
    → s.pcp.free_list ≡ page ∷ rest
    → drain_rounds (suc left) s ≡ drain_rounds left (buddy_free (popped s rest) page 0)
unfolding drain_rounds
drain_first left s page rest first =
    ap
      (λ l. elim l as (λ x. Pmm) [
        | [] ↦ s
        | page ∷ rest ↦ drain_rounds left (buddy_free (popped s rest) page 0)
      ])
      first

drain_rounds-Drained :
    (left : ℕ) (s : Pmm) (K : Blocks)
    → Cached s K
    → length s.pcp.free_list < 2 ^ 32
    → Drained s (drain_rounds left s) K left
unfolding drain_rounds
drain_rounds-Drained zero s K c room = record {
  cached = c;
  same = λ a. (λ x. x, λ x. x);
  shrunk = omega arith;
  steady = record { pages = refl; batch = refl; high = refl; base = refl };
}
drain_rounds-Drained (suc left) s K c room = elim (List-cases s.pcp.free_list) [
  | inl empty ↦
      subst (λ t. Drained s t K (suc left)) (sym (drain_nothing left s empty))
        (record {
          cached = c;
          same = λ a. (λ x. x, λ x. x);
          shrunk = omega (arith, ap (λ l. length l) empty);
          steady = record { pages = refl; batch = refl; high = refl; base = refl };
        })
  | inr (page, rest, first) ↦
      let s' = buddy_free (popped s rest) page 0 in
      let freed =
        buddy_free-Freed (popped s rest) (out (page ∷ rest) K) 0 page
          (popped-Buddies s K page rest c first room) (ground arith) in
      let e = ap (λ x. length x.free_list) freed.same.pcp in
      let long = ap (λ l. length l) first in
      let again =
        drain_rounds-Drained left s' K (drained-Cached s K page rest c first room s' freed)
          (omega (arith, e, long, room)) in
      let same = drained_same s K page rest c first room s' freed in
      subst (λ t. Drained s t K (suc left)) (sym (drain_first left s page rest first))
        (record {
          cached = again.cached;
          same = λ a. (λ x. (same a).0 ((again.same a).0 x), λ x. (again.same a).1 ((same a).1 x));
          shrunk = omega (arith, e, long, again.shrunk);
          steady = record {
            pages = again.steady.pages ∙ freed.same.pages;
            batch = again.steady.batch ∙ freed.same.batch;
            high = again.steady.high ∙ freed.same.high;
            base = again.steady.base ∙ freed.same.base;
          };
        })
]

pub drain_pcp-Drained :
    (s : Pmm) (K : Blocks)
    → Cached s K
    → length s.pcp.free_list < 2 ^ 32
    → Drained s (drain_pcp s) K (s.pcp.count / 2)
unfolding drain_pcp
drain_pcp-Drained s K c room = drain_rounds-Drained (s.pcp.count / 2) s K c room

-- ===== src/Pmm/Refill.antt =====
-- `refill_pcp` of na/mm/pmm.cc.
use lume.Common.{
  ℕ, zero, suc, ◌+◌, ◌^◌, ◌<◌, ◌≡◌, refl, ap, ◌∙◌, sym, subst, true, false, Option, none, some,
  ◌==◌, ==_iff, arith, Bool-cases, inl, inr, mem, Distinct, ◌↔◌, length,
}
use lume.Pmm.{Pmm, buddy_alloc, pcp_push, refill_pcp}
use lume.Pmm.Blocks.{Blocks, add}
use lume.Pmm.Buddy.{Buddies, nothing}
use lume.Pmm.Take.{Allocated, AllocOutcome, exhausted, allocated, buddy_alloc-AllocOutcome}
use lume.Pmm.Cache.{Cached, out, Available, Refilled, Steady, pcp_push-Cached, In-zero}

module _ (s s1 : Pmm) (K : Blocks) (p : ℕ) (c : Cached s K)
    (took : Allocated s s1 (out s.pcp.free_list K) 0 p)
    (room : length s.pcp.free_list + 1 < 2 ^ 32) where
  pushed-Cached : Cached (pcp_push s1 p) K
  pushed-Cached =
      let e = took.same.pcp in
      pcp_push-Cached s1 K p
        (subst (λ x. Buddies s1 (add (out x.free_list K) 0 p) nothing) (sym e) took.buddies)
        (subst (λ x. Distinct x.free_list) (sym e) c.unique)
        (subst (λ x. (q : ℕ) → mem q x.free_list ≡ true → K 0 q ≡ false) (sym e) c.apart)
        (subst (λ x. x.count ≡ length x.free_list) (sym e) c.count)
        (subst (λ x. length x.free_list + 1 < 2 ^ 32) (sym e) room)
        (subst (λ x. out x.free_list K 0 p ≡ false) (sym e) (took.fresh 0))

  pushed_length : length (pcp_push s1 p).pcp.free_list ≡ length s.pcp.free_list + 1
  unfolding pcp_push
  pushed_length = omega (arith, ap (λ x. length x.free_list) took.same.pcp)

  pushed_same : (a : ℕ) → Available (pcp_push s1 p) a ↔ Available s a
  unfolding pcp_push
  pushed_same a =
      let e : mem a s1.pcp.free_list ≡ mem a s.pcp.free_list =
        ap (λ x. mem a x.free_list) took.same.pcp in
      (
        λ x. elim x [
          | inl f ↦ inl ((took.pages a).1 (inl f))
          | inr m ↦ elim (Bool-cases (p == a)) [
            | inl new ↦ inl ((took.pages a).1 (inr ((In-zero p a).1 (sym ((==_iff p a).0 new)))))
            | inr old ↦ inr (ground (arith, m, old, e))
          ]
        ],
        λ x. elim x [
          | inl f ↦ elim ((took.pages a).0 f) [
            | inl left ↦ inl left
            | inr i ↦ inr (ground (arith, (In-zero p a).0 i))
          ]
          | inr m ↦ inr (ground (arith, m, e))
        ],
      )

  pushed-Steady : Steady s (pcp_push s1 p)
  unfolding pcp_push
  pushed-Steady = record {
    pages = took.same.pages;
    batch = took.same.batch;
    high = took.same.high;
    base = took.same.base;
  }

refill_round :
    (left : ℕ) (s : Pmm) (K : Blocks)
    → Cached s K
    → length s.pcp.free_list + suc left < 2 ^ 32
    → ((t : Pmm)
        → Cached t K
        → length t.pcp.free_list + left < 2 ^ 32
        → Refilled t (refill_pcp left t) K left)
    → (r : Option ℕ × Pmm) → AllocOutcome s (out s.pcp.free_list K) 0 r
    → Refilled s (elim r.0 [ none ↦ r.1 | some p ↦ refill_pcp left (pcp_push r.1 p) ]) K (suc left)
refill_round left s K c room again r (exhausted empty) = record {
  cached = c;
  same = λ a. (λ x. x, λ x. x);
  least = omega arith;
  most = omega arith;
  some_left = λ h. inr (λ k small. empty k (omega arith) small);
  steady = record { pages = refl; batch = refl; high = refl; base = refl };
}
refill_round left s K c room again r (allocated p s1 took) =
    let small : length s.pcp.free_list + 1 < 2 ^ 32 = omega (arith, room) in
    let long = pushed_length s s1 K p c took small in
    let s2 = pcp_push s1 p in
    let rest = again s2 (pushed-Cached s s1 K p c took small) (omega (arith, long, room)) in
    let same = pushed_same s s1 K p c took small in
    let steady = pushed-Steady s s1 K p c took small in
    record {
      cached = rest.cached;
      same = λ a. (λ x. (same a).0 ((rest.same a).0 x), λ x. (rest.same a).1 ((same a).1 x));
      least = omega (arith, long, rest.least);
      most = omega (arith, long, rest.most);
      some_left = λ h. inl (omega (arith, long, rest.least));
      steady = record {
        pages = rest.steady.pages ∙ steady.pages;
        batch = rest.steady.batch ∙ steady.batch;
        high = rest.steady.high ∙ steady.high;
        base = rest.steady.base ∙ steady.base;
      };
    }

pub refill_pcp-Refilled :
    (left : ℕ) (s : Pmm) (K : Blocks)
    → Cached s K
    → length s.pcp.free_list + left < 2 ^ 32
    → Refilled s (refill_pcp left s) K left
unfolding refill_pcp
refill_pcp-Refilled zero s K c room = record {
  cached = c;
  same = λ a. (λ x. x, λ x. x);
  least = omega arith;
  most = omega arith;
  some_left = λ h. absurd (omega (arith, h));
  steady = record { pages = refl; batch = refl; high = refl; base = refl };
}
refill_pcp-Refilled (suc left) s K c room =
    refill_round left s K c room (λ t c' room'. refill_pcp-Refilled left t K c' room')
      (buddy_alloc 0 s)
      (buddy_alloc-AllocOutcome s (out s.pcp.free_list K) 0 (omega arith) c.buddies)

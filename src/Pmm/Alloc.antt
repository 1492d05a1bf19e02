-- ===== src/Pmm/Alloc.antt =====
-- `buddy_alloc` of na/mm/pmm.cc as a whole: which pages it takes from the free ones.
use lume.Common.{
  ℕ, zero, suc, ◌+◌, ◌^◌, ◌≡◌, refl, ap, ◌∙◌, sym, subst, fun_ext, Bool, true, false, ◌∷◌, ◌==◌,
  ==_iff, ltb, arith, Bool-cases, inl, inr, ◌⊎◌, mem, if◌then◌else◌,
}
use lume.Pmm.{Pmm, buddy_list_add, split_down}
use lume.Pmm.Blocks.{Blocks, add, remove, In, double}
use lume.Pmm.Buddy.{Buddies, Free}
use lume.Pmm.Split.{split-Buddies}

pub Buddies-ext :
    (s : Pmm) (H H' : Blocks) (ex ex' : ℕ → Bool)
    → ((o p : ℕ) → H o p ≡ H' o p)
    → ((a : ℕ) → ex a ≡ ex' a)
    → Buddies s H ex
    → Buddies s H' ex'
Buddies-ext s H H' ex ex' e f b =
    subst (λ G. Buddies s G ex') (fun_ext λ o. fun_ext λ p. e o p)
      (subst (λ x. Buddies s H x) (fun_ext f) b)

-- What an operation on the free lists leaves alone.
pub record Same (s s' : Pmm) : Type 0 where
  pub pages : s'.num_pages ≡ s.num_pages
  pub pcp : s'.pcp ≡ s.pcp
  pub batch : s'.pcp_batch_size ≡ s.pcp_batch_size
  pub high : s'.pcp_high_watermark ≡ s.pcp_high_watermark
  pub base : s'.mem_base ≡ s.mem_base

pub Same-trans : (s t u : Pmm) → Same s t → Same t u → Same s u
Same-trans s t u f g = record {
  pages = g.pages ∙ f.pages;
  pcp = g.pcp ∙ f.pcp;
  batch = g.batch ∙ f.batch;
  high = g.high ∙ f.high;
  base = g.base ∙ f.base;
}

pub same_add : (s : Pmm) (h k : ℕ) → Same s (buddy_list_add s h k)
unfolding buddy_list_add
same_add s h k = record { pages = refl; pcp = refl; batch = refl; high = refl; base = refl }

-- A new block in the place of one that was new.
add-remove :
    (H : Blocks) (c d p : ℕ)
    → ((o : ℕ) → H o p ≡ false)
    → (o q : ℕ) → add (remove (add H c p) c p) d p o q ≡ add H d p o q
add-remove H c d p fresh o q = elim (Bool-cases (q == p)) [
  | inl at ↦
      let old : H o q ≡ false = ap (λ t. H o t) ((==_iff q p).0 at) ∙ fresh o in ground (arith, old)
  | inr other ↦ ground (arith, other)
]

-- What halving a block down to an order does: one block of it stays held, the rest becomes free.
pub record Splits (s s' : Pmm) (H : Blocks) (order c p : ℕ) : Type 0 where
  pub buddies : Buddies s' (add H order p) (λ a. a == p)
  pub out : (a : ℕ) → Free s' a → Free s a ⊎ In c p a
  pub back : (a : ℕ) → Free s a → Free s' a
  pub rest : (a : ℕ) → In c p a → Free s' a ⊎ In order p a
  pub same : Same s s'
  pub shorter : (a : ℕ) → In order p a → In c p a

pub Free-add_back : (s : Pmm) (k h a : ℕ) → Free s a → Free (buddy_list_add s h k) a
unfolding buddy_list_add
Free-add_back s k h a (o, q, m, i) = (o, q, added, i)
  where
    added : mem q (if o == k then h ∷ s.free_areas k else s.free_areas o) ≡ true
    added = elim (Bool-cases (o == k)) [
      | inl here ↦ ground (arith, here, m, ap (λ t. mem q (s.free_areas t)) ((==_iff o k).0 here))
      | inr other ↦ rw other m
    ]

pub Free-add_new : (s : Pmm) (k h a : ℕ) → In k h a → Free (buddy_list_add s h k) a
unfolding buddy_list_add
Free-add_new s k h a i = (k, h, ground arith, i)

pub Free-add_out : (s : Pmm) (k h a : ℕ) → Free (buddy_list_add s h k) a → Free s a ⊎ In k h a
unfolding buddy_list_add
Free-add_out s k h a (o, q, m, i) = elim (Bool-cases (o == k)) [
  | inr other ↦ inl (o, q, rw other at m, i)
  | inl here ↦
      let at : o ≡ k = (==_iff o k).0 here in
      elim (Bool-cases (h == q)) [
        | inl new ↦ inr (
          omega (arith, i, (==_iff h q).0 new),
          omega (arith, i, (==_iff h q).0 new, ap (λ t. 2 ^ t) at),
        )
        | inr old ↦
            inl
              (k, q, ground (arith, rw here at m, old), (i.0, omega (arith, i, ap (λ t. 2 ^ t) at)))
      ]
]

pub split_down-Splits :
    (k order c : ℕ) (s : Pmm) (H : Blocks) (p : ℕ)
    → c ≡ order + k
    → ((o : ℕ) → H o p ≡ false)
    → Buddies s (add H c p) (λ a. a == p)
    → Splits s (split_down k order s p) H order c p
unfolding split_down
split_down-Splits zero order c s H p e fresh b =
    let same : c ≡ order = omega arith in
    record {
      buddies = subst (λ o. Buddies s (add H o p) (λ a. a == p)) same b;
      out = λ a f. inl f;
      back = λ a f. f;
      rest = λ a i. inr (subst (λ o. In o p a) same i);
      same = record { pages = refl; pcp = refl; batch = refl; high = refl; base = refl };
      shorter = λ a i. subst (λ o. In o p a) (sym same) i;
    }
split_down-Splits (suc k) order c s H p e fresh b =
    let d = order + k in
    let next : c ≡ suc d = omega arith in
    let s1 = buddy_list_add s (p + 2 ^ d) d in
    let b' : Buddies s (add H (suc d) p) (λ a. a == p) =
      subst (λ o. Buddies s (add H o p) (λ a. a == p)) next b in
    let one =
      split-Buddies s (add H (suc d) p) (λ a. a == p) b' d p (ground arith) (ground arith) in
    let held : Buddies s1 (add H d p) (λ a. a == p) =
      Buddies-ext s1 (add (remove (add H (suc d) p) (suc d) p) d p) (add H d p) (λ a. a == p)
        (λ a. a == p) (add-remove H (suc d) d p fresh) (λ a. refl) one in
    let rest = split_down-Splits k order d s1 H p refl fresh held in
    record {
      buddies = rest.buddies;
      out = λ a f. elim (rest.out a f) [
        | inl g ↦ elim (Free-add_out s d (p + 2 ^ d) a g) [
          | inl old ↦ inl old
          | inr i ↦ inr (omega (arith, i), omega (arith, i, double d, ap (λ t. 2 ^ t) next))
        ]
        | inr i ↦ inr (i.0, omega (arith, i, double d, ap (λ t. 2 ^ t) next))
      ];
      back = λ a f. rest.back a (Free-add_back s d (p + 2 ^ d) a f);
      rest = λ a i. elim (Bool-cases (ltb a (p + 2 ^ d))) [
        | inl low ↦ rest.rest a (i.0, ground (arith, low))
        | inr high ↦ inl (
            rest.back a (
              Free-add_new s d (p + 2 ^ d) a
                (ground (arith, high), omega (arith, i, double d, ap (λ t. 2 ^ t) next))))
      ];
      same = Same-trans s s1 (split_down k order s1 p) (same_add s (p + 2 ^ d) d) rest.same;
      shorter = λ a i.
          let j = rest.shorter a i in (j.0, omega (arith, j, double d, ap (λ t. 2 ^ t) next));
    }

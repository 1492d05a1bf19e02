-- ===== src/Pmm/Take.antt =====
-- `buddy_alloc` of na/mm/pmm.cc as a whole: what it hands out and what it leaves free.
use lume.Common.{
  ℕ, zero, suc, ◌+◌, ◌-◌, ◌^◌, ◌≤◌, ◌<◌, ◌≡◌, refl, ap, ◌∙◌, sym, subst, Bool, true, false, [],
  Option, none, some, ◌==◌, ==_iff, arith, Bool-cases, List-cases, inl, inr, ◌⊎◌, mem, mem-unlink,
  ◌↔◌,
}
use lume.Word.Bits.{pow-pos}
use lume.Pmm.{
  PageState, Pmm, is_free, buddy_list_del, split_down, hand_out, alloc_from, buddy_alloc, max_order,
}
use lume.Pmm.Blocks.{Aligned, Blocks, add, In}
use lume.Pmm.Buddy.{MarkedAt, order_of, Buddies, nothing, Free}
use lume.Pmm.Split.{pop-Buddies}
use lume.Pmm.Alloc.{Same, Same-trans, split_down-Splits}

-- What holds when the block of the order at p is handed out besides the blocks H.
pub record Allocated (s s' : Pmm) (H : Blocks) (order p : ℕ) : Type 0 where
  pub buddies : Buddies s' (add H order p) nothing
  pub fresh : (o : ℕ) → H o p ≡ false
  pub pages : (a : ℕ) → Free s a ↔ (Free s' a ⊎ In order p a)
  pub page : s'.page_map p ≡ (record { refcount = 1; state = PageState.allocated; order = order })
  pub same : Same s s'

pub data AllocOutcome (s : Pmm) (H : Blocks) (order : ℕ) : Option ℕ × Pmm → Type 0 where
  exhausted :
      ((k : ℕ) → order ≤ k → k < 11 → s.free_areas k ≡ []) → AllocOutcome s H order (none, s)
  allocated : (p : ℕ) (s' : Pmm) → Allocated s s' H order p → AllocOutcome s H order (some p, s')

-- A block that is held is in no list.
pub held_absent :
    (s : Pmm) (H : Blocks) (ex : ℕ → Bool) (k p : ℕ)
    → Buddies s H ex
    → H k p ≡ true
    → (o : ℕ) → mem p (s.free_areas o) ≡ false
held_absent s H ex k p b held o = elim (Bool-cases (mem p (s.free_areas o))) [
  | inr m ↦ m
  | inl m ↦ elim (b.tiling.disjoint k p o p (ground (arith, held)) (ground (arith, m))) [
    | inl (same, _) ↦ absurd (ground (arith, b.apart o p m, ap (λ t. H t p) same, held))
    | inr (inl before) ↦ absurd (omega (arith, pow-pos k))
    | inr (inr behind) ↦ absurd (omega (arith, pow-pos o))
  ]
]

-- The first page of a free block heads no block that is held.
free_fresh :
    (s : Pmm) (H : Blocks) (ex : ℕ → Bool) (c p : ℕ)
    → Buddies s H ex
    → mem p (s.free_areas c) ≡ true
    → (o : ℕ) → H o p ≡ false
free_fresh s H ex c p b m o = elim (Bool-cases (H o p)) [
  | inr h ↦ h
  | inl h ↦ absurd (ground (arith, held_absent s H ex o p b h c, m))
]

other_page :
    (s : Pmm) (order p a : ℕ) → (a == p) ≡ false → (hand_out s p order).page_map a ≡ s.page_map a
unfolding hand_out
other_page s order p a other = rw other refl

hand_out-Buddies :
    (s : Pmm) (H : Blocks) (order p : ℕ)
    → H order p ≡ true
    → Buddies s H (λ a. a == p)
    → Buddies (hand_out s p order) H nothing
unfolding hand_out
hand_out-Buddies s H order p held b = record {
  tiling = b.tiling;
  once = b.once;
  apart = b.apart;
  listed = λ o r m.
      let other : (r == p) ≡ false = elim (Bool-cases (r == p)) [
        | inr e ↦ e
        | inl e ↦ absurd (
            ground (
              arith,
              m,
              held_absent s H (λ a. a == p) order p b held o,
              ap (λ t. mem t (s.free_areas o)) ((==_iff r p).0 e),
            ))
      ] in
      subst (λ g. (is_free g.state ≡ true) × (g.order ≡ o)) (sym (other_page s order p r other))
        (b.listed o r m);
  marks = λ a small mark e. elim (Bool-cases (a == p)) [
    | inl new ↦ absurd (ground (arith, mark, new))
    | inr old ↦
        subst (λ g. (is_free g.state ≡ true) → Aligned g.order a × MarkedAt s H g.order a)
          (sym (other_page s order p a old)) (λ m. b.marks a small m old) mark
  ];
}

module _ (s : Pmm) (H : Blocks) (ex : ℕ → Bool) (b : Buddies s H ex) (c p : ℕ)
    (listed : mem p (s.free_areas c) ≡ true) where
  pub pop_out : (a : ℕ) → Free (buddy_list_del s p) a → Free s a
  unfolding buddy_list_del
  pop_out a (o, q, m, i) = (o, q, ground (arith, m, mem-unlink q p (s.free_areas o)), i)

  pub pop_within : (a : ℕ) → In c p a → Free s a
  pop_within a i = (c, p, listed, i)

  pub pop_back : (a : ℕ) → Free s a → Free (buddy_list_del s p) a ⊎ In c p a
  unfolding buddy_list_del
  pop_back a (o, q, m, i) = elim (Bool-cases (q == p)) [
    | inr other ↦ inl (o, q, ground (arith, m, other, mem-unlink q p (s.free_areas o)), i)
    | inl same ↦
        let e : q ≡ p = (==_iff q p).0 same in
        let at : o ≡ c =
          sym ((b.listed o q m).1) ∙ ap (λ t. order_of s t) e ∙ (b.listed c p listed).1 in
        inr (omega (arith, i, e), omega (arith, i, e, ap (λ t. 2 ^ t) at))
  ]

pub same_del : (s : Pmm) (p : ℕ) → Same s (buddy_list_del s p)
unfolding buddy_list_del
same_del s p = record { pages = refl; pcp = refl; batch = refl; high = refl; base = refl }

same_hand : (s : Pmm) (p order : ℕ) → Same s (hand_out s p order)
unfolding hand_out
same_hand s p order = record { pages = refl; pcp = refl; batch = refl; high = refl; base = refl }

take-Allocated :
    (s : Pmm) (H : Blocks) (order k p : ℕ)
    → Buddies s H nothing
    → mem p (s.free_areas (order + k)) ≡ true
    → Allocated s (hand_out (split_down k order (buddy_list_del s p) p) p order) H order p
unfolding hand_out
take-Allocated s H order k p b listed =
    let fresh = free_fresh s H nothing (order + k) p b listed in
    let s1 = buddy_list_del s p in
    let popped = pop-Buddies s H nothing b (order + k) p listed in
    let low = split_down-Splits k order (order + k) s1 H p refl fresh popped in
    let s2 = split_down k order s1 p in
    record {
      buddies = hand_out-Buddies s2 (add H order p) order p (ground arith) low.buddies;
      fresh = fresh;
      pages = λ a. (
        λ f. elim (pop_back s H nothing b (order + k) p listed a f) [
          | inl old ↦ inl (low.back a old)
          | inr i ↦ low.rest a i
        ],
        λ x. elim x [
          | inl f ↦ elim (low.out a f) [
            | inl old ↦ pop_out s H nothing b (order + k) p listed a old
            | inr i ↦ pop_within s H nothing b (order + k) p listed a i
          ]
          | inr i ↦ pop_within s H nothing b (order + k) p listed a (low.shorter a i)
        ],
      );
      page = ground arith;
      same =
          Same-trans s s2 (hand_out s2 p order) (Same-trans s s1 s2 (same_del s p) low.same)
            (same_hand s2 p order);
    }

alloc_from-AllocOutcome :
    (left k order : ℕ) (s : Pmm) (H : Blocks)
    → order + k + left ≡ 11
    → Buddies s H nothing
    → ((o : ℕ) → order ≤ o → o < order + k → s.free_areas o ≡ [])
    → AllocOutcome s H order (alloc_from left k order s)
unfolding alloc_from
alloc_from-AllocOutcome zero k order s H e b empty =
    exhausted (λ o from to. empty o from (omega arith))
alloc_from-AllocOutcome (suc left) k order s H e b empty =
    elim (List-cases (s.free_areas (order + k))) [
      | inl none_here ↦
          rw (none_here, alloc_from)
            (alloc_from-AllocOutcome left (suc k) order s H (omega arith) b (λ o from to.
              elim (Bool-cases (o == order + k)) [
                | inl last ↦ ap (λ t. s.free_areas t) ((==_iff o (order + k)).0 last) ∙ none_here
                | inr less ↦ empty o from (ground (arith, less))
              ]))
      | inr (p, rest, first) ↦
          rw (first, alloc_from)
            (allocated p (hand_out (split_down k order (buddy_list_del s p) p) p order)
              (take-Allocated s H order k p b (ground (arith, ap (mem p) first))))
    ]

-- From a sound buddy system, with blocks H handed out, `buddy_alloc` of an order below the number of
-- orders either changes nothing, and every list from that order on was empty, or hands out a block p
-- that was not out: the system is sound with it among the blocks handed out, the free pages from
-- before are those that are free now and those of the block, and the block's page has one reference.
pub buddy_alloc-AllocOutcome :
    (s : Pmm) (H : Blocks) (order : ℕ)
    → order < 11
    → Buddies s H nothing
    → AllocOutcome s H order (buddy_alloc order s)
unfolding buddy_alloc
buddy_alloc-AllocOutcome s H order small b =
    alloc_from-AllocOutcome (max_order - order) 0 order s H (omega arith) b
      (λ o from to. absurd (omega arith))

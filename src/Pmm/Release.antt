-- ===== src/Pmm/Release.antt =====
-- `buddy_free` of na/mm/pmm.cc: the loop and the whole.
use lume.Common.{
  ℕ, zero, suc, ◌+◌, ◌-◌, ◌^◌, ◌<◌, ◌≡◌, refl, ap, ◌∙◌, subst, true, false, ◌&&◌, some,
  Option-cases, ◌==◌, ==_iff, ltb, arith, Bool-cases, inl, inr, ◌⊎◌, mem, ◌↔◌, if◌then◌else◌,
  bit_xor,
}
use lume.Word.Bits.{pow-pos}
use lume.Pmm.{
  Pmm, buddy_list_add, buddy_list_del, buddy_of, mergeable, merge, buddy_free, max_order,
}
use lume.Pmm.Blocks.{Blocks, remove, In, Halves, bit_xor-Halves}
use lume.Pmm.Buddy.{Buddies, nothing, Free}
use lume.Pmm.Alloc.{
  Same, Same-trans, same_add, Buddies-ext, Free-add_back, Free-add_new, Free-add_out,
}
use lume.Pmm.Take.{pop_out, pop_back, pop_within, same_del}
use lume.Pmm.Join.{back-Buddies, Pair, Halves-Pair, Pair-In}
use lume.Pmm.Merge.{buddy_listed, join_held, joined-Buddies}

-- What holds when the block of order o at p, of the blocks H that were handed out, is free.
pub record Freed (s s' : Pmm) (H : Blocks) (o p : ℕ) : Type 0 where
  pub buddies : Buddies s' (remove H o p) nothing
  pub pages : (a : ℕ) → Free s' a ↔ (Free s a ⊎ In o p a)
  pub same : Same s s'

add-Freed :
    (s : Pmm) (H : Blocks) (o p : ℕ)
    → Buddies s H nothing
    → H o p ≡ true
    → Freed s (buddy_list_add s p o) H o p
add-Freed s H o p b held = record {
  buddies = back-Buddies s H o p b held;
  pages = λ a. (
    Free-add_out s o p a,
    λ x. elim x [ inl f ↦ Free-add_back s o p a f | inr i ↦ Free-add_new s o p a i ],
  );
  same = same_add s p o;
}

-- The block that holds another handed out block was not handed out itself.
whole_new :
    (s : Pmm) (H : Blocks) (o p buddy low : ℕ)
    → Buddies s H nothing
    → H o p ≡ true
    → Pair o p buddy low
    → H (suc o) low ≡ false
whole_new s H o p buddy low b held g = elim (Bool-cases (H (suc o) low)) [
  | inr h ↦ h
  | inl h ↦
      let mine : In (suc o) low p =
        (Pair-In o p buddy low p g).1 (inl (omega arith, omega (arith, pow-pos o))) in
      elim (b.tiling.disjoint o p (suc o) low (ground (arith, held)) (ground (arith, h))) [
        | inl (same, at) ↦ absurd (omega arith)
        | inr (inl before) ↦ absurd (omega (arith, before, mine, pow-pos o))
        | inr (inr behind) ↦ absurd (omega (arith, behind, mine))
      ]
]

module _ (s : Pmm) (H : Blocks) (o p buddy low : ℕ) (b : Buddies s H nothing) (held : H o p ≡ true)
    (g : Pair o p buddy low) (listed : mem buddy (s.free_areas o) ≡ true) where
  again : (k q : ℕ) → remove (join_held H o p low) (suc o) low k q ≡ remove H o p k q
  again k q = elim (Bool-cases (k == suc o && q == low)) [
    | inr other ↦ ground (arith, other)
    | inl same ↦
        let h : H k q ≡ false =
          ap (λ t. H t q) ((==_iff k (suc o)).0 (ground (arith, same)))
          ∙ ap (H (suc o)) ((==_iff q low).0 (ground (arith, same)))
          ∙ whole_new s H o p buddy low b held g in
        ground (arith, same, h)
  ]

  -- From the joined block to the loose one.
  joined-Freed :
      (s' : Pmm)
      → Freed (buddy_list_del s buddy) s' (join_held H o p low) (suc o) low
      → Freed s s' H o p
  joined-Freed s' f = record {
    buddies =
        Buddies-ext s' (remove (join_held H o p low) (suc o) low) (remove H o p) nothing nothing
          again (λ a. refl) f.buddies;
    pages = λ a. (
      λ x. elim ((f.pages a).0 x) [
        | inl old ↦ inl (pop_out s H nothing b o buddy listed a old)
        | inr i ↦ elim ((Pair-In o p buddy low a g).0 i) [
          | inl mine ↦ inr mine
          | inr other ↦ inl (pop_within s H nothing b o buddy listed a other)
        ]
      ],
      λ x. elim x [
        | inl old ↦ elim (pop_back s H nothing b o buddy listed a old) [
          | inl kept ↦ (f.pages a).1 (inl kept)
          | inr other ↦ (f.pages a).1 (inr ((Pair-In o p buddy low a g).1 (inr other)))
        ]
        | inr mine ↦ (f.pages a).1 (inr ((Pair-In o p buddy low a g).1 (inl mine)))
      ],
    );
    same = Same-trans s (buddy_list_del s buddy) s' (same_del s buddy) f.same;
  }

buddy_of-some :
    (s : Pmm) (p o buddy : ℕ)
    → buddy_of s p o ≡ some buddy
    → (bit_xor p (2 ^ o) ≡ buddy) × (buddy < s.num_pages)
unfolding buddy_of
buddy_of-some s p o buddy e = ground (arith, e)

merge-Freed :
    (left o : ℕ) (s : Pmm) (H : Blocks) (p : ℕ)
    → o + left ≡ 10
    → Buddies s H nothing
    → H o p ≡ true
    → Freed s (merge left s p o) H o p
unfolding merge
merge-Freed zero o s H p e b held = add-Freed s H o p b held
merge-Freed (suc left) o s H p e b held = elim (Option-cases (buddy_of s p o)) [
  | inl outside ↦ rw (outside, merge) (add-Freed s H o p b held)
  | inr (buddy, there) ↦ elim (Bool-cases (mergeable (s.page_map buddy) o)) [
    | inr apart ↦ rw (there, merge) (rw apart (add-Freed s H o p b held))
    | inl joins ↦
        let (at, small) = buddy_of-some s p o buddy there in
        let low = if ltb buddy p then buddy else p in
        let g : Pair o p buddy low = Halves-Pair o p buddy (
          subst (λ t. Halves o p t) at
            (bit_xor-Halves o p (b.tiling.aligned o p (ground (arith, held))).1)) in
        let listed =
          buddy_listed s H o p buddy low b held g small (ground (arith, joins))
            (ground (arith, joins)) in
        rw (there, merge)
          (rw joins (
            joined-Freed s H o p buddy low b held g listed
              (merge left (buddy_list_del s buddy) low (suc o))
              (merge-Freed left (suc o) (buddy_list_del s buddy) (join_held H o p low) low
                (omega arith) (joined-Buddies s H o p buddy low b held g (omega arith) listed)
                (ground arith))))
  ]
]

-- `buddy_free` of a block that was handed out of a sound buddy system: the system stays sound with
-- the block no longer handed out, whatever it was merged with, and the free pages are those from
-- before and those of the block.
pub buddy_free-Freed :
    (s : Pmm) (H : Blocks) (o p : ℕ)
    → Buddies s H nothing
    → H o p ≡ true
    → Freed s (buddy_free s p o) H o p
unfolding buddy_free
buddy_free-Freed s H o p b held =
    merge-Freed (max_order - 1 - o) o s H p
      (omega (arith, (b.tiling.aligned o p (ground (arith, held))).0)) b held

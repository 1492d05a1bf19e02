-- ===== src/Pmm/Join.antt =====
-- `buddy_free` of na/mm/pmm.cc, one round: a loose block and its free buddy become one block.
use lume.Common.{
  ℕ, suc, ◌+◌, ◌^◌, ◌≡◌, refl, ap, ◌∙◌, sym, subst, true, false, ◌&&◌, ◌||◌, ◌==◌, ==_iff, ltb,
  arith, Bool-cases, inl, inr, ◌⊎◌, mem, Distinct, ◌↔◌, if◌then◌else◌,
}
use lume.Word.Bits.{pow-pos}
use lume.Pmm.{Pmm, is_free, buddy_list_add}
use lume.Pmm.Blocks.{Blocks, remove, Aligned, In, double, Halves, lower, upper, Tiling-ext}
use lume.Pmm.Buddy.{MarkedAt, blocks, order_of, Marked, Buddies, nothing}
use lume.Pmm.Take.{held_absent}

-- The loose block goes to the list of its order.
module _ (s : Pmm) (H : Blocks) (o p : ℕ) (b : Buddies s H nothing) (held : H o p ≡ true) where
  back_blocks : (k q : ℕ) → blocks (buddy_list_add s p o) (remove H o p) k q ≡ blocks s H k q
  unfolding buddy_list_add
  back_blocks k q = elim (Bool-cases (k == o && q == p)) [
    | inl same ↦
        let h : H k q ≡ true =
          ap (λ t. H t q) ((==_iff k o).0 (ground arith))
          ∙ ap (H o) ((==_iff q p).0 (ground arith))
          ∙ held in
        ground (arith, same, h)
    | inr other ↦ elim (Bool-cases (k == o)) [
      | inl here ↦
          ground (arith, other, here, ap (λ t. mem q (s.free_areas t)) ((==_iff k o).0 here))
      | inr away ↦ ground (arith, other, away)
    ]
  ]

  back_page : (a : ℕ) → (a == p) ≡ false → (buddy_list_add s p o).page_map a ≡ s.page_map a
  unfolding buddy_list_add
  back_page a other = rw other refl

  pub back_old :
      (k q : ℕ)
      → mem q ((buddy_list_add s p o).free_areas k) ≡ true
      → ((k ≡ o) × (q ≡ p)) ⊎ ((mem q (s.free_areas k) ≡ true) × ((q == p) ≡ false))
  unfolding buddy_list_add
  back_old k q m = elim (Bool-cases (q == p)) [
    | inl same ↦ elim (Bool-cases (k == o)) [
      | inl here ↦ inl ((==_iff k o).0 here, (==_iff q p).0 same)
      | inr away ↦ absurd (
          ground (
            arith,
            rw away at m,
            ap (λ t. mem t (s.free_areas k)) ((==_iff q p).0 same),
            held_absent s H nothing o p b held k,
          ))
    ]
    | inr other ↦ elim (Bool-cases (k == o)) [
      | inl here ↦ inr (
        ground (arith, rw here at m, other, ap (λ t. mem q (s.free_areas t)) ((==_iff k o).0 here)),
        other,
      )
      | inr away ↦ inr (rw away at m, other)
    ]
  ]

  back_mark : (k a : ℕ) → MarkedAt s H k a → MarkedAt (buddy_list_add s p o) (remove H o p) k a
  unfolding buddy_list_add
  back_mark k a (inl m) = elim (Bool-cases (k == o)) [
    | inl here ↦
        inl (ground (arith, here, m, ap (λ t. mem a (s.free_areas t)) ((==_iff k o).0 here)))
    | inr away ↦ inl (ground (arith, away, m))
  ]
  back_mark k a (inr (m, q, lt, block, i)) = inr (m, q, lt, back_blocks m q ∙ block, i)

  back_mark_new :
      Aligned (order_of (buddy_list_add s p o) p) p × Marked (buddy_list_add s p o) (remove H o p) p
  unfolding buddy_list_add
  back_mark_new =
      let order : order_of (buddy_list_add s p o) p ≡ o = ground arith in
      (
        subst (λ k. Aligned k p) (sym order) (b.tiling.aligned o p (ground (arith, held))).1,
        inl (ground (arith, order)),
      )

  back_once : (k : ℕ) → Distinct ((buddy_list_add s p o).free_areas k)
  unfolding buddy_list_add
  back_once k = elim (Bool-cases (k == o)) [
    | inl here ↦ rw here (ground (arith, b.once o, held_absent s H nothing o p b held o))
    | inr away ↦ rw away (b.once k)
  ]

  pub back-Buddies : Buddies (buddy_list_add s p o) (remove H o p) nothing
  unfolding buddy_list_add
  back-Buddies = record {
    tiling =
        Tiling-ext s.num_pages (blocks s H) (blocks (buddy_list_add s p o) (remove H o p))
          back_blocks b.tiling;
    once = back_once;
    apart = λ k q m. elim (back_old k q m) [
      | inl (e, f) ↦ ground (arith, e, f)
      | inr (old, other) ↦ ground (arith, b.apart k q old)
    ];
    listed = λ k q m. elim (back_old k q m) [
      | inl (e, f) ↦ ground (arith, e, f)
      | inr (old, other) ↦
          subst (λ g. (is_free g.state ≡ true) × (g.order ≡ k)) (sym (back_page q other))
            (b.listed k q old)
    ];
    marks = λ a small mark e. elim (Bool-cases (a == p)) [
      | inl same ↦
          subst
            (λ x.
              Aligned (order_of (buddy_list_add s p o) x) x
              × Marked (buddy_list_add s p o) (remove H o p) x)
            (sym ((==_iff a p).0 same)) back_mark_new
      | inr other ↦
          subst
            (λ g.
              (is_free g.state ≡ true)
              → Aligned g.order a × MarkedAt (buddy_list_add s p o) (remove H o p) g.order a)
            (sym (back_page a other))
            (λ m.
              let (aligned, old) = b.marks a small m refl in
              (aligned, back_mark (order_of s a) a old))
            mark
    ];
  }

-- What is known of the buddy: with the loose block it is the two halves of the block at low.
pub record Pair (o p buddy low : ℕ) : Type 0 where
  pub start : Aligned (suc o) low
  pub both : (r : ℕ) → (r == low || r == low + 2 ^ o) ≡ (r == p || r == buddy)
  pub ends : ((low ≡ p) × (buddy ≡ p + 2 ^ o)) ⊎ ((low ≡ buddy) × (p ≡ buddy + 2 ^ o))

pub Halves-Pair :
    (o p buddy : ℕ) → Halves o p buddy → Pair o p buddy (if ltb buddy p then buddy else p)
Halves-Pair o p buddy (lower a e) =
    let low : (if ltb buddy p then buddy else p) ≡ p = ground arith in
    rw low (record { start = a; both = λ r. ground (arith, e); ends = inl (refl, e) })
Halves-Pair o p buddy (upper a e) =
    let low : (if ltb buddy p then buddy else p) ≡ buddy = ground (arith, e, pow-pos o) in
    rw low (record { start = a; both = λ r. ground (arith, e); ends = inr (refl, e) })

-- Its pages are those of the two.
pub Pair-In :
    (o p buddy low a : ℕ) → Pair o p buddy low → In (suc o) low a ↔ (In o p a ⊎ In o buddy a)
Pair-In o p buddy low a g = (
  λ i. elim g.ends [
    | inl (e, f) ↦ elim (Bool-cases (ltb a buddy)) [
      | inl left ↦ inl (omega (arith, i, e), ground (arith, left, f))
      | inr right ↦ inr (ground (arith, right), omega (arith, i, e, f, double o))
    ]
    | inr (e, f) ↦ elim (Bool-cases (ltb a p)) [
      | inl left ↦ inr (omega (arith, i, e), ground (arith, left, f))
      | inr right ↦ inl (ground (arith, right), omega (arith, i, e, f, double o))
    ]
  ],
  λ x. elim x [
    | inl i ↦ elim g.ends [
      | inl (e, f) ↦ (omega (arith, i, e), omega (arith, i, e, double o))
      | inr (e, f) ↦ (omega (arith, i, e, f), omega (arith, i, e, f, double o))
    ]
    | inr i ↦ elim g.ends [
      | inl (e, f) ↦ (omega (arith, i, e, f), omega (arith, i, e, f, double o))
      | inr (e, f) ↦ (omega (arith, i, e), omega (arith, i, e, double o))
    ]
  ],
)

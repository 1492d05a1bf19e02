-- ===== src/Pmm/Merge.antt =====
-- `buddy_free` of na/mm/pmm.cc: the rounds of its loop, and the whole.
use lume.Common.{
  ℕ, suc, ◌+◌, ◌-◌, ◌^◌, ◌<◌, ◌≡◌, refl, ap, ◌∙◌, sym, subst, true, false, ◌&&◌, ◌||◌, ◌==◌, ==_iff,
  arith, Bool-cases, inl, inr, ◌⊎◌, mem, unlink, mem-unlink, Distinct-unlink,
}
use lume.Word.Bits.{pow-pos}
use lume.Pmm.{Pmm, is_free, buddy_list_del}
use lume.Pmm.Blocks.{Blocks, add, remove, Aligned, In, contains, Joined, Joined-Tiling}
use lume.Pmm.Buddy.{MarkedAt, blocks, state_of, order_of, Buddies, nothing}
use lume.Pmm.Take.{held_absent}
use lume.Pmm.Join.{Pair, Pair-In}

-- A buddy that is marked free at the loose block's order heads a free block of that order.
pub buddy_listed :
    (s : Pmm) (H : Blocks) (o p buddy low : ℕ)
    → Buddies s H nothing
    → H o p ≡ true
    → Pair o p buddy low
    → buddy < s.num_pages
    → is_free (state_of s buddy) ≡ true
    → order_of s buddy ≡ o
    → mem buddy (s.free_areas o) ≡ true
buddy_listed s H o p buddy low b held g small mark order = elim (b.marks buddy small mark refl).1 [
  | inl m ↦ subst (λ k. mem buddy (s.free_areas k) ≡ true) order m
  | inr (k, q, lt, block, i) ↦
      let d = k - suc o in
      let e : k ≡ suc o + d = omega (arith, lt, order) in
      let whole : In (suc o) low buddy =
        (Pair-In o p buddy low buddy g).1 (inr (omega arith, omega (arith, pow-pos o))) in
      let mine : In (suc o) low p =
        (Pair-In o p buddy low p g).1 (inl (omega arith, omega (arith, pow-pos o))) in
      let (from, to) =
        contains (suc o) d low q buddy g.start
          (subst (λ t. Aligned t q) e (b.tiling.aligned k q block).1) whole
          (subst (λ t. In t q buddy) e i) in
      let long = ap (λ t. 2 ^ t) e in
      elim (b.tiling.disjoint o p k q (ground (arith, held)) block) [
        | inl (same, at) ↦ absurd (omega (arith, same, lt, order))
        | inr (inl before) ↦ absurd (omega (arith, before, mine, from, pow-pos o))
        | inr (inr behind) ↦ absurd (omega (arith, behind, mine, to, long))
      ]
]

-- The blocks that are held when one of them becomes the whole.
abbrev pub join_held : Blocks → ℕ → ℕ → ℕ → Blocks
join_held H o p low = add (remove H o p) (suc o) low

module _ (s : Pmm) (H : Blocks) (o p buddy low : ℕ) (b : Buddies s H nothing) (held : H o p ≡ true)
    (g : Pair o p buddy low) (room : suc o < 11) (listed : mem buddy (s.free_areas o) ≡ true) where
  abbrev joined_held : Blocks
  joined_held = join_held H o p low

  abbrev joined : Pmm
  joined = buddy_list_del s buddy

  both_blocks : (r : ℕ) → (r == p || r == buddy) ≡ true → blocks s H o r ≡ true
  both_blocks r e = elim (Bool-cases (r == p)) [
    | inl mine ↦ ground (arith, ap (H o) ((==_iff r p).0 mine), held)
    | inr other ↦ ground (
      arith,
      ap (λ t. mem t (s.free_areas o)) ((==_iff r buddy).0 (ground (arith, e, other))),
      listed,
    )
  ]

  not_loose : (k r : ℕ) → mem r (s.free_areas k) ≡ true → (r == p) ≡ false
  not_loose k r m = elim (Bool-cases (r == p)) [
    | inr other ↦ other
    | inl same ↦ cc (
      m,
      held_absent s H nothing o p b held k,
      ap (λ t. mem t (s.free_areas k)) ((==_iff r p).0 same),
    )
  ]

  not_buddy : (k r : ℕ) → H k r ≡ true → (k == o && r == buddy) ≡ false
  not_buddy k r h = elim (Bool-cases (k == o && r == buddy)) [
    | inr other ↦ other
    | inl same ↦
        let e : k ≡ o = ground (arith, same) in
        let f : r ≡ buddy = ground (arith, same) in
        cc (h, b.apart o buddy listed, ap (λ t. H t r) e, ap (H o) f)
  ]

  joined_cases :
      (k r : ℕ)
      → blocks joined joined_held k r ≡ true
      → ((k ≡ suc o) × (r ≡ low))
        ⊎ ((blocks s H k r ≡ true) × ((k == o && (r == p || r == buddy)) ≡ false))
  unfolding buddy_list_del
  joined_cases k r e = elim (Bool-cases (k == suc o && r == low)) [
    | inl new ↦ inl (ground (arith, new), ground (arith, new))
    | inr old ↦ elim (Bool-cases (mem r (unlink buddy (s.free_areas k)))) [
      | inl m ↦
          let there : mem r (s.free_areas k) ≡ true =
            ground (arith, m, mem-unlink r buddy (s.free_areas k)) in
          inr (
            ground (arith, there),
            ground (arith, m, mem-unlink r buddy (s.free_areas k), not_loose k r there),
          )
      | inr away ↦
          let h : H k r ≡ true = ground (arith, e, away, old) in
          inr (ground (arith, h), ground (arith, e, away, old, not_buddy k r h))
    ]
  ]

  Joined-step : Joined (blocks s H) (blocks joined joined_held) o low
  unfolding buddy_list_del
  Joined-step = record {
    halves = (
      both_blocks low (sym (g.both low) ∙ ground arith),
      both_blocks (low + 2 ^ o) (sym (g.both (low + 2 ^ o)) ∙ ground arith),
    );
    start = g.start;
    room = room;
    cases = λ k r e. elim (joined_cases k r e) [
      | inl new ↦ inl new
      | inr (old, other) ↦ inr (old, ground (arith, g.both r, other))
    ];
    whole = ground arith;
    keep = λ k r e other. ground (
      arith,
      e,
      other,
      g.both r,
      mem-unlink r buddy (s.free_areas k),
      b.listed k r,
      b.listed o buddy listed,
    );
  }

  joined_mark :
      (k a : ℕ) → ((a ≡ buddy) → k ≡ o) → MarkedAt s H k a → MarkedAt joined joined_held k a
  unfolding buddy_list_del
  joined_mark k a same (inl m) = elim (Bool-cases (a == buddy)) [
    | inl here ↦
        let e : a ≡ buddy = (==_iff a buddy).0 here in
        inr (
          suc o,
          low,
          omega (arith, same e),
          Joined-step.whole,
          (Pair-In o p buddy low a g).1 (inr (omega (arith, e), omega (arith, e, pow-pos o))),
        )
    | inr away ↦ inl (ground (arith, away, m, mem-unlink a buddy (s.free_areas k)))
  ]
  joined_mark k a same (inr (n, q, lt, block, i)) =
      elim (Bool-cases (n == o && (q == p || q == buddy))) [
        | inr other ↦
            inr (n, q, lt, Joined-step.keep n q block (ground (arith, other, g.both q)), i)
        | inl half ↦
            let e : n ≡ o = ground (arith, half) in
            let long = ap (λ t. 2 ^ t) e in
            inr (
              suc o,
              low,
              omega (arith, lt, e),
              Joined-step.whole,
              (Pair-In o p buddy low a g).1 (elim (Bool-cases (q == p)) [
                | inl mine ↦ inl (
                  omega (arith, i, (==_iff q p).0 mine),
                  omega (arith, i, long, (==_iff q p).0 mine),
                )
                | inr other ↦
                    let f : q ≡ buddy = ground (arith, half, other) in
                    inr (omega (arith, i, f), omega (arith, i, long, f))
              ]),
            )
      ]

  joined_apart : (k r : ℕ) → mem r (joined.free_areas k) ≡ true → joined_held k r ≡ false
  unfolding buddy_list_del
  joined_apart k r m =
      let there : mem r (s.free_areas k) ≡ true =
        ground (arith, m, mem-unlink r buddy (s.free_areas k)) in
      let ends : (r == low) ≡ false =
        ground (arith, m, mem-unlink r buddy (s.free_areas k), not_loose k r there, g.both r) in
      ground (arith, ends, b.apart k r there)

  -- The buddy leaves its list and the two become one block that is held.
  pub joined-Buddies : Buddies joined joined_held nothing
  unfolding buddy_list_del
  joined-Buddies = record {
    tiling =
        Joined-Tiling s.num_pages (blocks s H) (blocks joined joined_held) o low b.tiling
          Joined-step;
    once = λ k. Distinct-unlink buddy (s.free_areas k) (b.once k);
    apart = joined_apart;
    listed = λ k r m. ground (arith, m, mem-unlink r buddy (s.free_areas k), b.listed k r);
    marks = λ a small mark e.
        let (aligned, old) = b.marks a small mark refl in
        (
          aligned,
          joined_mark (order_of s a) a (λ h. ap (λ t. order_of s t) h ∙ (b.listed o buddy listed).1)
              old,
        );
  }

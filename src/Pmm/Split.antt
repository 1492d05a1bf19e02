-- ===== src/Pmm/Split.antt =====
-- `buddy_alloc` of na/mm/pmm.cc: a block is taken, halved down to the order and handed out.
use lume.Common.{
  ℕ, suc, ◌+◌, ◌^◌, ◌<◌, ◌≡◌, ◌≢◌, refl, ap, ◌∙◌, sym, subst, Bool, true, false, ◌&&◌, ◌||◌, ◌==◌,
  ==_iff, ltb, arith, Bool-cases, inl, inr, mem, mem-unlink, Distinct-unlink,
}
use lume.Word.Bits.{pow-pos}
use lume.Pmm.{Pmm, buddy_list_add, buddy_list_del}
use lume.Pmm.Blocks.{
  Blocks, add, remove, Aligned, In, Tiling, Tiling-ext, Halved, Halved-Tiling, double,
  Aligned-unique,
}
use lume.Pmm.Buddy.{blocks, order_of, Marked, Buddies}

module _ (s : Pmm) (H : Blocks) (ex : ℕ → Bool) (b : Buddies s H ex) (c p : ℕ)
    (listed : mem p (s.free_areas c) ≡ true) where
  pop_blocks : (o r : ℕ) → blocks (buddy_list_del s p) (add H c p) o r ≡ blocks s H o r
  unfolding buddy_list_del
  pop_blocks o r = ground (
    arith,
    mem-unlink r p (s.free_areas o),
    b.listed o p,
    b.listed c p,
    listed,
    (==_iff r p).0,
    (==_iff o c).0,
  )

  -- The block leaves its list.
  pub pop-Buddies : Buddies (buddy_list_del s p) (add H c p) (λ a. ex a || (a == p))
  unfolding buddy_list_del
  pop-Buddies = record {
    tiling =
        Tiling-ext s.num_pages (blocks s H) (blocks (buddy_list_del s p) (add H c p)) pop_blocks
          b.tiling;
    once = λ o. Distinct-unlink p (s.free_areas o) (b.once o);
    apart = λ o r m. ground (arith, mem-unlink r p (s.free_areas o), b.apart o r);
    listed = λ o r m. ground (arith, mem-unlink r p (s.free_areas o), b.listed o r);
    marks = λ a small free_mark e.
        let (aligned, mark) = b.marks a small free_mark (ground arith) in
        (
          aligned,
          elim mark [
            | inl m ↦ inl (ground (arith, mem-unlink a p (s.free_areas (order_of s a)), m))
            | inr (k, q, lt, block, i) ↦ inr (k, q, lt, pop_blocks k q ∙ block, i)
          ],
        );
  }

module _ (s : Pmm) (H : Blocks) (ex : ℕ → Bool) (b : Buddies s H ex) (k p : ℕ)
    (held : H (suc k) p ≡ true) (exempt : ex p ≡ true) where
  abbrev half : ℕ
  half = p + 2 ^ k

  abbrev split_one : Pmm
  split_one = buddy_list_add s half k

  abbrev split_held : Blocks
  split_held = add (remove H (suc k) p) k p

  whole : blocks s H (suc k) p ≡ true
  whole = ground (arith, held)

  Halved-split : Halved (blocks s H) (blocks split_one split_held) k p
  unfolding buddy_list_add
  Halved-split = record {
    whole = whole;
    cases = λ o r e. elim (Bool-cases (o == suc k && r == p)) [
      | inl same ↦ absurd (ground (arith, same, e, b.apart (suc k) p, held))
      | inr other ↦ elim (Bool-cases (o == k && (r == p || r == half))) [
        | inl new ↦ inl (
          ground (arith, new),
          elim (Bool-cases (r == p)) [
            | inl low ↦ inl (ground (arith, low))
            | inr high ↦ inr (ground (arith, new, high))
          ],
        )
        | inr old ↦ inr (ground (arith, other, old, e), other)
      ]
    ];
    halves = (ground arith, ground arith);
    keep = λ o r e other. ground (arith, e, other);
  }

  -- A page that heads another block does not head the upper half.
  half-ne : (o r : ℕ) → blocks s H o r ≡ true → r ≢ half
  half-ne o r e at = elim (b.tiling.disjoint (suc k) p o r whole e) [
    | inl (same, here) ↦ absurd (omega (arith, pow-pos k))
    | inr (inl before) ↦ absurd (omega (arith, double k, pow-pos k))
    | inr (inr behind) ↦ absurd (omega (arith, pow-pos o))
  ]

  split-Tiling : Tiling s.num_pages (blocks split_one split_held)
  split-Tiling =
      Halved-Tiling s.num_pages (blocks s H) (blocks split_one split_held) k p b.tiling Halved-split

  split_mark :
      (a : ℕ)
      → a ≢ p
      → a ≢ half
      → Aligned (order_of s a) a
      → Marked s H a
      → Marked split_one split_held a
  unfolding buddy_list_add
  split_mark a low high aligned (inl m) = inl (ground (arith, m))
  split_mark a low high aligned (inr (m, u, lt, block, i)) =
      elim (Bool-cases (m == suc k && u == p)) [
        | inr other ↦ inr (m, u, ground arith, Halved-split.keep m u block other, i)
        | inl same ↦
            let e : m ≡ suc k = ground (arith, same) in
            let at : u ≡ p = ground (arith, same) in
            let inside : In (suc k) p a =
              (omega (arith, at, i), omega (arith, at, i, ap (λ t. 2 ^ t) e)) in
            elim (Bool-cases (ltb a half)) [
              | inl left ↦
                  let here : In k p a = (inside.0, ground (arith, left)) in
                  let short =
                    in_half lt e aligned p low (split-Tiling.aligned k p Halved-split.halves.0).1
                      here in
                  inr (k, p, ground (arith, high, short), Halved-split.halves.0, here)
              | inr right ↦
                  let here : In k half a =
                    (ground (arith, right), omega (arith, inside, double k)) in
                  let short =
                    in_half lt e aligned half high
                      (split-Tiling.aligned k half Halved-split.halves.1).1 here in
                  inr (k, half, ground (arith, high, short), Halved-split.halves.1, here)
            ]
      ]
    where
      in_half :
          order_of s a < m
          → m ≡ suc k
          → Aligned (order_of s a) a
          → (h : ℕ) → a ≢ h
          → Aligned k h
          → In k h a
          → order_of s a < k
      in_half lt e aligned h other start here = elim (Bool-cases (order_of s a == k)) [
        | inl equal ↦ absurd (
            other (
              Aligned-unique k h a start
                (subst (λ o. Aligned o a) ((==_iff (order_of s a) k).0 equal) aligned) here))
        | inr less ↦ ground (arith, less)
      ]

  -- A block that is held is in no list.
  start_absent : (o : ℕ) → mem p (s.free_areas o) ≡ false
  start_absent o = elim (Bool-cases (mem p (s.free_areas o))) [
    | inr m ↦ m
    | inl m ↦ elim (b.tiling.disjoint (suc k) p o p whole (ground (arith, m))) [
      | inl (same, _) ↦ absurd (ground (arith, m, same, b.apart o p, held, (==_iff o (suc k)).1))
      | inr (inl before) ↦ absurd (omega (arith, pow-pos (suc k)))
      | inr (inr behind) ↦ absurd (omega (arith, pow-pos o))
    ]
  ]

  half_mark : Aligned (order_of split_one half) half × Marked split_one split_held half
  unfolding buddy_list_add
  half_mark =
      let order : order_of split_one half ≡ k = ground arith in
      (
        subst (λ o. Aligned o half) (sym order)
            (split-Tiling.aligned k half Halved-split.halves.1).1,
        inl (ground (arith, order)),
      )

  split_apart : (o r : ℕ) → mem r (split_one.free_areas o) ≡ true → split_held o r ≡ false
  unfolding buddy_list_add
  split_apart o r m = elim (Bool-cases (o == k && r == half)) [
    | inl new ↦ elim (Bool-cases (H o r)) [
      | inl taken ↦ absurd (half-ne o r (ground (arith, taken)) (ground (arith, new)))
      | inr open_block ↦ ground (arith, new, open_block, pow-pos k)
    ]
    | inr old ↦
        let m' : mem r (s.free_areas o) ≡ true = old_mem o r old m in
        elim (Bool-cases (r == p)) [
          | inl start ↦
              cc (m', start_absent o, ap (λ t. mem t (s.free_areas o)) ((==_iff r p).0 start))
          | inr other ↦ ground (arith, other, b.apart o r, m')
        ]
  ]
    where
      old_mem :
          (o r : ℕ)
          → (o == k && r == half) ≡ false
          → mem r (split_one.free_areas o) ≡ true
          → mem r (s.free_areas o) ≡ true
      old_mem o r old m = elim (Bool-cases (o == k)) [
        | inr other ↦ rw other at m
        | inl here ↦
            let e : o ≡ k = (==_iff o k).0 here in
            ground (arith, rw here at m, old, here, ap (λ t. mem r (s.free_areas t)) e)
      ]

  -- The upper half becomes free, the lower one is held instead of the whole.
  pub split-Buddies : Buddies split_one split_held ex
  unfolding buddy_list_add
  split-Buddies = record {
    tiling = split-Tiling;
    once = λ o. ground (arith, b.once o, absent o);
    apart = split_apart;
    listed = λ o r m. ground (arith, b.listed o r, half-ne o r);
    marks = λ a small free_mark e. elim (Bool-cases (a == half)) [
      | inl new ↦
          let at : a ≡ half = (==_iff a half).0 new in
          subst (λ x. Aligned (order_of split_one x) x × Marked split_one split_held x) (sym at)
            half_mark
      | inr old ↦
          let (aligned, mark) = b.marks a small (ground (arith, free_mark)) e in
          (
            ground (arith, aligned),
            split_mark a (λ h. ground (arith, h, exempt)) (λ h. ground (arith, h)) aligned mark,
          )
    ];
  }
    where
      absent : (o : ℕ) → mem half (s.free_areas o) ≡ false
      absent o = elim (Bool-cases (mem half (s.free_areas o))) [
        | inl m ↦ absurd (half-ne o half (ground (arith, m)) refl)
        | inr m ↦ m
      ]

-- ===== src/Pmm/Serve.antt =====
-- `pmm_alloc_page` of na/mm/pmm.cc: the cache before and after a page is taken from it.
use lume.Common.{
  ℕ, ◌+◌, ◌^◌, ◌≤◌, ◌<◌, ◌≡◌, refl, ap, sym, false, List, [], ◌∷◌, Option, none, some, ◌==◌, ==_iff,
  arith, Bool-cases, inl, inr, ◌⊎◌, mem, ◌↔◌, if◌then◌else◌, length,
}
use lume.Word.Bits.{pow-pos}
use lume.Pmm.{PageState, Page, Pmm, hand_out, refill_pcp}
use lume.Pmm.Blocks.{Blocks, add}
use lume.Pmm.Buddy.{Buddies, nothing, Free}
use lume.Pmm.Alloc.{Buddies-ext}
use lume.Pmm.Cache.{Cached, out, Available, Steady, retag-Buddies}
use lume.Pmm.Refill.{refill_pcp-Refilled}
use lume.Pmm.Drain.{popped, popped-Buddies, rest-Distinct, rest_apart, rest_count}

-- The allocator between two calls, with the blocks K of its callers.
pub record Sound (s : Pmm) (K : Blocks) : Type 0 where
  pub cached : Cached s K
  pub small : length s.pcp.free_list ≤ s.pcp_high_watermark
  pub limits :
      (0 < s.pcp_batch_size)
      × (s.pcp_batch_size ≤ s.pcp_high_watermark)
      × (s.pcp_high_watermark + 1 < 2 ^ 32)

-- Nothing is free when every list is empty.
pub none_free :
    (s : Pmm) (H : Blocks) (b : Buddies s H nothing)
    → ((k : ℕ) → k < 11 → s.free_areas k ≡ [])
    → (a : ℕ) → ¬ Free s a
none_free s H b empty a (o, p, m, i) =
    let small = (b.tiling.aligned o p (ground (arith, m))).0 in cc (m, ap (mem p) (empty o small))

pub data PageOutcome (s : Pmm) (K : Blocks) : Option (Option ℕ × Pmm) → Type 0 where
  no_page :
      (s' : Pmm)
      → Sound s' K
      → Steady s s'
      → ((a : ℕ) → ¬ Available s a)
      → PageOutcome s K (some (none, s'))
  page :
      (p : ℕ) (s' : Pmm)
      → Sound s' (add K 0 p)
      → Steady s s'
      → ((o : ℕ) → K o p ≡ false)
      → ((a : ℕ) → Available s a ↔ (Available s' a ⊎ (a ≡ p)))
      → (s'.page_map p ≡ (record { refcount = 1; state = PageState.allocated; order = 0 }))
      → PageOutcome s K (some (some p, s'))

pub record Filled (s f : Pmm) (K : Blocks) : Type 0 where
  pub cached : Cached f K
  pub same : (a : ℕ) → Available f a ↔ Available s a
  pub small : length f.pcp.free_list ≤ f.pcp_high_watermark
  pub supply : (0 < length f.pcp.free_list) ⊎ ((k : ℕ) → k < 11 → f.free_areas k ≡ [])
  pub steady : Steady s f

pub fill-Filled :
    (s : Pmm) (K : Blocks)
    → Sound s K
    → Filled s (if s.pcp.count == 0 then refill_pcp s.pcp_batch_size s else s) K
fill-Filled s K b = elim (Bool-cases (s.pcp.count == 0)) [
  | inl empty ↦
      let e : length s.pcp.free_list ≡ 0 = ground (arith, empty, b.cached.count) in
      let r = refill_pcp-Refilled s.pcp_batch_size s K b.cached (omega (arith, e, b.limits)) in
      rw empty (record {
        cached = r.cached;
        same = r.same;
        small = omega (arith, e, r.most, b.limits, r.steady.high);
        supply = r.some_left b.limits.0;
        steady = r.steady;
      })
  | inr full ↦ rw full (record {
    cached = b.cached;
    same = λ a. (λ x. x, λ x. x);
    small = b.small;
    supply = inl (ground (arith, full, b.cached.count));
    steady = record { pages = refl; batch = refl; high = refl; base = refl };
  })
]

pub limits-Steady :
    (s t : Pmm)
    → Steady s t
    → (0 < s.pcp_batch_size)
      × (s.pcp_batch_size ≤ s.pcp_high_watermark)
      × (s.pcp_high_watermark + 1 < 2 ^ 32)
    → (0 < t.pcp_batch_size)
      × (t.pcp_batch_size ≤ t.pcp_high_watermark)
      × (t.pcp_high_watermark + 1 < 2 ^ 32)
limits-Steady s t e (a, b, c) =
    (omega (arith, a, e.batch), omega (arith, b, e.batch, e.high), omega (arith, c, e.high))

module _ (f : Pmm) (K : Blocks) (p : ℕ) (rest : List ℕ) (c : Cached f K)
    (first : f.pcp.free_list ≡ p ∷ rest) (room : length f.pcp.free_list < 2 ^ 32) where
  abbrev pub given : Pmm
  given = hand_out (popped f rest) p 0

  given_blocks : (o q : ℕ) → out (p ∷ rest) K o q ≡ out rest (add K 0 p) o q
  given_blocks o q = ground arith

  pub given_within : p < f.num_pages
  given_within =
      let b = popped-Buddies f K p rest c first room in
      omega (arith, (b.tiling.aligned 0 p (ground arith)).2)

  pub given_fresh : (o : ℕ) → K o p ≡ false
  given_fresh o = elim (Bool-cases (K o p)) [
    | inr h ↦ h
    | inl h ↦
        let b = popped-Buddies f K p rest c first room in
        elim (b.tiling.disjoint o p 0 p (ground (arith, h)) (ground arith)) [
          | inl (zeroth, _) ↦
              cc (ap (λ t. K t p) zeroth, rest_apart f K p rest c first room p (ground arith))
          | inr (inl before) ↦ absurd (omega (arith, pow-pos o))
          | inr (inr behind) ↦ absurd (omega (arith, behind))
        ]
  ]

  pub given-Cached : Cached given (add K 0 p)
  unfolding hand_out
  given-Cached =
      let g : Page = record { refcount = 1; state = PageState.allocated; order = 0 } in
      let (absent, distinct) = rest-Distinct f K p rest c first room in
      record {
        buddies =
            Buddies-ext given (out (p ∷ rest) K) (out rest (add K 0 p)) nothing nothing given_blocks
              (λ a. refl)
              (retag-Buddies (popped f rest) (out (p ∷ rest) K) 0 p g (popped f rest).pcp refl
                (ground arith) (popped-Buddies f K p rest c first room));
        unique = distinct;
        apart = λ q m. elim (Bool-cases (q == p)) [
          | inl same ↦ cc (m, absent, ap (λ t. mem t rest) ((==_iff q p).0 same))
          | inr other ↦
              ground (arith, other, rest_apart f K p rest c first room q (ground (arith, m)))
        ];
        count = rest_count f K p rest c first room;
      }

  pub given_same : (a : ℕ) → Available f a ↔ (Available given a ⊎ (a ≡ p))
  unfolding hand_out
  given_same a =
      let e : mem a f.pcp.free_list ≡ mem a (p ∷ rest) = ap (mem a) first in
      (
        λ x. elim x [
          | inl free_page ↦ inl (inl free_page)
          | inr m ↦ elim (Bool-cases (p == a)) [
            | inl new ↦ inr (sym ((==_iff p a).0 new))
            | inr old ↦ inl (inr (ground (arith, m, e, old)))
          ]
        ],
        λ x. elim x [
          | inl (inl free_page) ↦ inl free_page
          | inl (inr m) ↦ inr (ground (arith, m, e))
          | inr same ↦ inr (ground (arith, same, e))
        ],
      )

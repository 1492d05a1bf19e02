-- ===== src/Pmap/Grow.antt =====
-- `map` of na/arch/riscv/mm/pmap.cc: what linking a fresh, cleared table changes, which is nothing that
-- a walk to a leaf sees.
use lume.Common.{
  ℕ, ◌%◌, ◌^◌, ◌<◌, ◌≡◌, ◌≢◌, refl, ap, ◌∙◌, sym, subst, true, false, ◌&&◌, ◌==◌, ==_iff,
  if◌then◌else◌, Bool-cases, inl, inr, none, some, update, arith,
}
use lume.Pmap.{Tables, has, vpn, pte_to_pa, pa_to_pte, pte_v, pte_rwx, store, lower_table}
use lume.Pmap.Bits.{pte_to_pa-pa_to_pte, has-pa_to_pte}
use lume.Pmap.Shape.{
  Owner, unused, top, middle, bottom, Shape, decode, leaf, leaf_none, leaf_some, second, third,
  other-table, same-table,
}

-- The owner of a table that is linked to the entry.
pub data Link (root_pa : ℕ) (own : ℕ → Owner) (t j : ℕ) : Owner → Type 0 where
  from_top : t ≡ root_pa → Link root_pa own t j (middle j)
  from_middle : (i : ℕ) → own t ≡ middle i → Link root_pa own t j (bottom i j)

middle-injective : (i k : ℕ) → middle i ≡ middle k → i ≡ k
middle-injective i k e = ap number e
  where
    number : Owner → ℕ
    number (middle x) = x
    number _ = 0

pub lower_at :
    (m : Tables) (root_pa b : ℕ) (pte2 pte1 : ℕ)
    → m root_pa (vpn b 2) ≡ pte2
    → m (pte_to_pa pte2) (vpn b 1) ≡ pte1
    → lower_table 2 m root_pa b
      ≡ (if has pte2 pte_v then (if has pte1 pte_v then some (pte_to_pa pte1) else none) else none)
unfolding lower_table
lower_at m root_pa b pte2 pte1 e f =
    ap
      (λ x.
        if has x pte_v
        then (if has (m (pte_to_pa x) (vpn b 1)) pte_v
            then some (pte_to_pa (m (pte_to_pa x) (vpn b 1)))
            else none)
        else none)
      e
    ∙ ap (λ y. if has pte2 pte_v then (if has y pte_v then some (pte_to_pa y) else none) else none)
        f

module _ (m : Tables) (root_pa : ℕ) (own : ℕ → Owner) (g : Shape m root_pa own) (t j pa : ℕ)
    (tag : Owner) (link : Link root_pa own t j tag) (slot : has (m t j) pte_v ≡ false)
    (new : own pa ≡ unused) (small : pa < 2 ^ 56) (page : pa % 4096 ≡ 0) where
  abbrev pointer : ℕ
  pointer = pa_to_pte pa pte_v

  abbrev grown : Tables
  grown = store (update m pa (λ i. 0)) t j pointer

  abbrev grown_own : ℕ → Owner
  grown_own = update own pa tag

  pointer_valid : has pointer pte_v ≡ true
  pointer_valid = has-pa_to_pte pa pte_v pte_v small (omega arith) (omega arith)

  pointer_no_leaf : has pointer pte_rwx ≡ false
  pointer_no_leaf = has-pa_to_pte pa pte_v pte_rwx small (omega arith) (omega arith)

  pointer_pa : pte_to_pa pointer ≡ pa
  pointer_pa = pte_to_pa-pa_to_pte pa pte_v small page (omega arith)

  -- A table in use is not the fresh one.
  old_table : (x : ℕ) (o : Owner) → own x ≡ o → o ≢ unused → (x == pa) ≡ false
  old_table x o h ne = elim (Bool-cases (x == pa)) [
    | inr other ↦ other
    | inl same ↦ absurd (ne (sym h ∙ ap own ((==_iff x pa).0 same) ∙ new))
  ]

  parent_used : own t ≢ unused
  parent_used e = go tag link
    where
      go : (o : Owner) → Link root_pa own t j o → ⊥
      go o (from_top at) = cc (e, g.root, ap own at)
      go o (from_middle i h) = cc (e, h)

  tag_used : tag ≢ unused
  tag_used e = go tag link e
    where
      go : (o : Owner) → Link root_pa own t j o → o ≢ unused
      go o (from_top at) e = cc e
      go o (from_middle i h) e = cc e

  fresh_entry : (n : ℕ) → grown pa n ≡ 0
  fresh_entry n =
      let away : pa ≢ t = λ e. parent_used (ap own (sym e) ∙ new) in
      other-table (update m pa (λ i. 0)) t j pointer pa n away ∙ cleared
    where
      cleared : update m pa (λ i. 0) pa n ≡ 0
      cleared = let e : (pa == pa) ≡ true = ground arith in rw e refl

  old_entry :
      (x n : ℕ) → (x == pa) ≡ false → grown x n ≡ (if (x == t) && (n == j) then pointer else m x n)
  old_entry x n other = elim (Bool-cases (x == t)) [
    | inr away ↦ rw (away, other) refl
    | inl here ↦
        let kept : update m pa (λ i. 0) t n ≡ m x n =
          ap (λ y. update m pa (λ i. 0) y n) (sym ((==_iff x t).0 here)) ∙ rw other refl in
        rw here (ap (λ y. if n == j then pointer else y) kept)
  ]

  old_own : (x : ℕ) → (x == pa) ≡ false → grown_own x ≡ own x
  old_own x other = rw other refl

  new_own : grown_own (pte_to_pa pointer) ≡ tag
  new_own = let e : (pte_to_pa pointer == pa) ≡ true = ground (arith, pointer_pa) in rw e refl

  -- A pointer from before, in the tree that has grown.
  kept_pointer :
      (x n : ℕ) (o : Owner)
      → o ≢ unused
      → (has (m x n) pte_rwx ≡ false) × (own (pte_to_pa (m x n)) ≡ o)
      → (has (m x n) pte_rwx ≡ false) × (grown_own (pte_to_pa (m x n)) ≡ o)
  kept_pointer x n o used (no_leaf, owner) =
      (no_leaf, old_own (pte_to_pa (m x n)) (old_table (pte_to_pa (m x n)) o owner used) ∙ owner)

  new_pointer :
      (o : Owner) → tag ≡ o → (has pointer pte_rwx ≡ false) × (grown_own (pte_to_pa pointer) ≡ o)
  new_pointer o e = (pointer_no_leaf, new_own ∙ e)

  root_tag : (n : ℕ) → root_pa ≡ t → n ≡ j → tag ≡ middle n
  root_tag n at e = go tag link
    where
      go : (o : Owner) → Link root_pa own t j o → o ≡ middle n
      go o (from_top _) = ap middle (sym e)
      go o (from_middle i h) = cc (g.root, h, ap own at)

  middle_tag : (x a n : ℕ) → own x ≡ middle a → x ≡ t → n ≡ j → tag ≡ bottom a n
  middle_tag x a n h at e = go tag link
    where
      go : (o : Owner) → Link root_pa own t j o → o ≡ bottom a n
      go o (from_top top_at) = cc (g.root, h, ap own at, ap own top_at)
      go o (from_middle i k) =
          let same : i ≡ a = middle-injective i a (sym k ∙ ap own (sym at) ∙ h) in
          ap (λ y. bottom y j) same ∙ ap (bottom a) (sym e)

  pub Shape-grown : Shape grown root_pa grown_own
  Shape-grown =
      let old_root = old_table root_pa top g.root (λ e. cc e) in
      record {
        root = old_own root_pa old_root ∙ g.root;
        middles = λ n on.
            let e = old_entry root_pa n old_root in
            subst
              (λ y.
                has y pte_v ≡ true → (has y pte_rwx ≡ false) × (grown_own (pte_to_pa y) ≡ middle n))
              (sym e)
              (λ valid. elim (Bool-cases ((root_pa == t) && (n == j))) [
                | inl hit ↦ rw hit (
                    new_pointer (middle n) (root_tag n (ground (arith, hit)) (ground (arith, hit))))
                | inr miss ↦
                    rw miss (
                      kept_pointer root_pa n (middle n) (λ u. cc u)
                        (g.middles n (rw miss at valid)))
              ])
              on;
        bottoms = λ x a n h on. elim (Bool-cases (x == pa)) [
          | inl fresh ↦ absurd (
              ground (
                arith,
                on,
                ap (λ y. has y pte_v) (ap (λ y. grown y n) ((==_iff x pa).0 fresh) ∙ fresh_entry n),
              ))
          | inr other ↦
              let k : own x ≡ middle a = sym (old_own x other) ∙ h in
              subst
                (λ y.
                  has y pte_v ≡ true
                  → (has y pte_rwx ≡ false) × (grown_own (pte_to_pa y) ≡ bottom a n))
                (sym (old_entry x n other))
                (λ valid. elim (Bool-cases ((x == t) && (n == j))) [
                  | inl hit ↦ rw hit (
                      new_pointer (bottom a n)
                        (middle_tag x a n k (ground (arith, hit)) (ground (arith, hit))))
                  | inr miss ↦ rw miss (
                      kept_pointer x n (bottom a n) (λ u. cc u)
                        (g.bottoms x a n k (rw miss at valid)))
                ])
                on
        ];
      }

  slot_at : (x n : ℕ) → ((x == t) && (n == j)) ≡ true → has (m x n) pte_v ≡ false
  slot_at x n hit =
      let e : x ≡ t = ground (arith, hit) in
      let f : n ≡ j = ground (arith, hit) in
      ap (λ y. has (m y n) pte_v) e ∙ ap (λ y. has (m t y) pte_v) f ∙ slot

  no_bottom_parent : (x a b : ℕ) → own x ≡ bottom a b → (x == t) ≡ false
  no_bottom_parent x a b h = elim (Bool-cases (x == t)) [
    | inr other ↦ other
    | inl same ↦ absurd (go tag link (sym (ap own ((==_iff x t).0 same)) ∙ h))
  ]
    where
      go : (o : Owner) → Link root_pa own t j o → own t ≡ bottom a b → ⊥
      go o (from_top at) e = cc (e, g.root, ap own at)
      go o (from_middle i k) e = cc (e, k)

  -- The walk of an address whose upper entries are valid and were there before.
  leaf_kept :
      (b : ℕ)
      → ((root_pa == t) && (vpn b 2 == j)) ≡ false
      → has (m root_pa (vpn b 2)) pte_v ≡ true
      → leaf grown root_pa b ≡ leaf m root_pa b
  leaf_kept b miss on =
      let s = second m root_pa b in
      let e : grown root_pa (vpn b 2) ≡ m root_pa (vpn b 2) =
        old_entry root_pa (vpn b 2) (old_table root_pa top g.root (λ u. cc u)) ∙ rw miss refl in
      let own_s = (g.middles (vpn b 2) on).1 in
      let f = old_entry s (vpn b 1) (old_table s (middle (vpn b 2)) own_s (λ u. cc u)) in
      elim (Bool-cases ((s == t) && (vpn b 1 == j))) [
        | inl hit ↦
            leaf_some grown root_pa b (pte_to_pa pointer) (
              lower_at grown root_pa b (m root_pa (vpn b 2)) pointer e (f ∙ rw hit refl)
              ∙ rw (on, pointer_valid) refl)
            ∙ ap decode (ap (λ y. grown y (vpn b 0)) pointer_pa ∙ fresh_entry (vpn b 0))
            ∙ sym (
                leaf_none m root_pa b (
                  lower_at m root_pa b (m root_pa (vpn b 2)) (m s (vpn b 1)) refl refl
                  ∙ rw (on, slot_at s (vpn b 1) hit) refl))
        | inr miss1 ↦
            let f' : grown s (vpn b 1) ≡ m s (vpn b 1) = f ∙ rw miss1 refl in
            let both = lower_at grown root_pa b (m root_pa (vpn b 2)) (m s (vpn b 1)) e f' in
            let before = lower_at m root_pa b (m root_pa (vpn b 2)) (m s (vpn b 1)) refl refl in
            elim (Bool-cases (has (m s (vpn b 1)) pte_v)) [
              | inr off ↦
                  leaf_none grown root_pa b (both ∙ rw (on, off) refl)
                  ∙ sym (leaf_none m root_pa b (before ∙ rw (on, off) refl))
              | inl also ↦
                  let u = third m root_pa b in
                  let own_u = (g.bottoms s (vpn b 2) (vpn b 1) own_s also).1 in
                  let old =
                    old_entry u (vpn b 0)
                      (old_table u (bottom (vpn b 2) (vpn b 1)) own_u (λ y. cc y)) in
                  let apart = no_bottom_parent u (vpn b 2) (vpn b 1) own_u in
                  let read : grown u (vpn b 0) ≡ m u (vpn b 0) = old ∙ rw apart refl in
                  leaf_some grown root_pa b u (both ∙ rw (on, also) refl)
                  ∙ ap decode read
                  ∙ sym (leaf_some m root_pa b u (before ∙ rw (on, also) refl))
            ]
      ]

  pub leaf-grown : (b : ℕ) → leaf grown root_pa b ≡ leaf m root_pa b
  leaf-grown b =
      let old = old_entry root_pa (vpn b 2) (old_table root_pa top g.root (λ u. cc u)) in
      elim (Bool-cases ((root_pa == t) && (vpn b 2 == j))) [
        | inl hit ↦
            let zeroth = ap (λ y. grown y (vpn b 1)) pointer_pa ∙ fresh_entry (vpn b 1) in
            leaf_none grown root_pa b (
              lower_at grown root_pa b pointer 0 (old ∙ rw hit refl) zeroth ∙ rw pointer_valid refl)
            ∙ sym (
                leaf_none m root_pa b (
                  lower_at m root_pa b (m root_pa (vpn b 2)) (m (second m root_pa b) (vpn b 1)) refl
                    refl
                  ∙ rw (slot_at root_pa (vpn b 2) hit) refl))
        | inr miss ↦ elim (Bool-cases (has (m root_pa (vpn b 2)) pte_v)) [
          | inl on ↦ leaf_kept b miss on
          | inr off ↦
              leaf_none grown root_pa b (
                lower_at grown root_pa b (m root_pa (vpn b 2))
                  (grown (second m root_pa b) (vpn b 1)) (old ∙ rw miss refl) refl
                ∙ rw off refl)
              ∙ sym (
                  leaf_none m root_pa b (
                    lower_at m root_pa b (m root_pa (vpn b 2)) (m (second m root_pa b) (vpn b 1))
                      refl refl
                    ∙ rw off refl))
        ]
      ]

  -- A valid entry of a table in use stays.
  pub entry-grown :
      (x n : ℕ) (o : Owner) → own x ≡ o → o ≢ unused → has (m x n) pte_v ≡ true → grown x n ≡ m x n
  entry-grown x n o h used on = elim (Bool-cases ((x == t) && (n == j))) [
    | inl hit ↦ cc (on, slot_at x n hit)
    | inr miss ↦ old_entry x n (old_table x o h used) ∙ rw miss refl
  ]

  pub linked_entry : (grown t j ≡ pointer) × (grown_own (pte_to_pa pointer) ≡ tag)
  linked_entry =
      let e = same-table (update m pa (λ i. 0)) t j pointer j in
      let f : (j == j) ≡ true = ground arith in (e ∙ rw f refl, new_own)

  pub own-grown : (x : ℕ) (o : Owner) → own x ≡ o → o ≢ unused → grown_own x ≡ o
  own-grown x o h used = old_own x (old_table x o h used) ∙ h

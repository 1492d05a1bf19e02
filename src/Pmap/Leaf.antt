-- ===== src/Pmap/Leaf.antt =====
-- `unmap`, `lookup`, `protect`, `is_cow` and `make_cow` of na/arch/riscv/mm/pmap.cc, as reads and writes
-- of the leaf of an address.
use lume.Common.{
  ℕ, ◌≡◌, ◌≢◌, refl, ap, ◌∙◌, sym, subst, true, false, ◌&&◌, ◌==◌, if◌then◌else◌, Bool-cases,
  Option-cases, inl, inr, Option, none, some, arith,
}
use lume.Pmap.{Tables, has, vpn, pte_to_pa, pte_v, pte_rwx, store, lower_table, find_leaf}
use lume.Pmap.Shape.{
  Owner, bottom, Shape, decode, leaf, leaf_none, leaf_some, same_page, second, third, Walk,
  no_middle, no_bottom, reaches, lower_table-Walk, find_leaf-Shape, Shape-store, lower_table-store,
  lower_table-cong, same-table, other-table,
}

bottom-injective : (i j k l : ℕ) → bottom i j ≡ bottom k l → (i ≡ k) × (j ≡ l)
bottom-injective i j k l e = (ap first e, ap last e)
  where
    first : Owner → ℕ
    first (bottom x y) = x
    first _ = 0

    last : Owner → ℕ
    last (bottom x y) = y
    last _ = 0

pub lower_table-Owner :
    (m : Tables) (root_pa : ℕ) (own : ℕ → Owner) (va t : ℕ)
    → Shape m root_pa own
    → lower_table 2 m root_pa va ≡ some t
    → own t ≡ bottom (vpn va 2) (vpn va 1)
lower_table-Owner m root_pa own va t g e =
    go (lower_table 2 m root_pa va) (lower_table-Walk m root_pa va) e
  where
    go : (r : Option ℕ) → Walk m root_pa va r → r ≡ some t → own t ≡ bottom (vpn va 2) (vpn va 1)
    go r (no_middle off) e = cc e
    go r (no_bottom on off) e = cc e
    go r (reaches on also) e =
        let same : third m root_pa va ≡ t = cc e in
        subst (λ x. own x ≡ bottom (vpn va 2) (vpn va 1)) same
          (g.bottoms (second m root_pa va) (vpn va 2) (vpn va 1) (g.middles (vpn va 2) on).1 also).1

-- What the entry of an address at level 0 is, and after a write to the entry of another.
module _ (m : Tables) (root_pa : ℕ) (own : ℕ → Owner) (g : Shape m root_pa own) (a t pte : ℕ)
    (path : lower_table 2 m root_pa a ≡ some t) where
  own_t : own t ≡ bottom (vpn a 2) (vpn a 1)
  own_t = lower_table-Owner m root_pa own a t g path

  pub write-Shape : Shape (store m t (vpn a 0) pte) root_pa own
  write-Shape = Shape-store m root_pa own g t (vpn a 2) (vpn a 1) (vpn a 0) pte own_t

  -- Two addresses with a path to the same table.
  path_of :
      (b : ℕ)
      → (vpn a 2 == vpn b 2) && (vpn a 1 == vpn b 1) ≡ true
      → lower_table 2 m root_pa b ≡ some t
  path_of b same =
      sym (lower_table-cong m root_pa a b (ground (arith, same)) (ground (arith, same))) ∙ path

  upper_of :
      (b : ℕ)
      → lower_table 2 m root_pa b ≡ some t
      → (vpn a 2 == vpn b 2) && (vpn a 1 == vpn b 1) ≡ true
  upper_of b there =
      let (e, f) =
        bottom-injective (vpn a 2) (vpn a 1) (vpn b 2) (vpn b 1)
          (sym own_t ∙ lower_table-Owner m root_pa own b t g there) in
      ground (arith, e, f)

  pub leaf-write :
      (b : ℕ)
      → leaf (store m t (vpn a 0) pte) root_pa b
        ≡ (if same_page a b then decode pte else leaf m root_pa b)
  leaf-write b =
      let m' = store m t (vpn a 0) pte in
      let same = lower_table-store m root_pa own g t (vpn a 2) (vpn a 1) (vpn a 0) pte own_t b in
      elim (Bool-cases ((vpn a 2 == vpn b 2) && (vpn a 1 == vpn b 1))) [
        | inl upper ↦
            let there = path_of b upper in
            leaf_some m' root_pa b t (same ∙ there)
            ∙ ap decode (same-table m t (vpn a 0) pte (vpn b 0))
            ∙ elim (Bool-cases (vpn b 0 == vpn a 0)) [
              | inl here ↦
                  let hit : same_page a b ≡ true = ground (arith, upper, here) in
                  rw (here, hit) refl
              | inr off ↦
                  let miss : same_page a b ≡ false = ground (arith, off) in
                  rw (off, miss) (sym (leaf_some m root_pa b t there))
            ]
        | inr apart ↦
            let miss : same_page a b ≡ false = ground (arith, apart) in
            let kept : leaf m' root_pa b ≡ leaf m root_pa b =
              elim (Option-cases (lower_table 2 m root_pa b)) [
                | inl away ↦ leaf_none m' root_pa b (same ∙ away) ∙ sym (leaf_none m root_pa b away)
                | inr (u, there) ↦
                    let ne : u ≢ t = λ e. cc (apart, upper_of b (there ∙ ap (λ x. some x) e)) in
                    leaf_some m' root_pa b u (same ∙ there)
                    ∙ ap decode (other-table m t (vpn a 0) pte u (vpn b 0) ne)
                    ∙ sym (leaf_some m root_pa b u there)
              ] in
            rw miss kept
      ]

abbrev pub address : Option ℕ → Option ℕ
address none = none
address (some pte) = some (pte_to_pa pte)

-- The place of a leaf in a tree.
pub data Place (m : Tables) (root_pa va : ℕ) : Option (ℕ × ℕ) → Type 0 where
  nowhere : leaf m root_pa va ≡ none → Place m root_pa va none
  at :
      (t : ℕ)
      → lower_table 2 m root_pa va ≡ some t
      → leaf m root_pa va ≡ some (m t (vpn va 0))
      → Place m root_pa va (some (t, vpn va 0))

pub find_leaf-Place :
    (m : Tables) (root_pa va : ℕ) (own : ℕ → Owner)
    → Shape m root_pa own
    → Place m root_pa va (find_leaf 3 m root_pa va)
find_leaf-Place m root_pa va own g =
    subst (Place m root_pa va) (sym (find_leaf-Shape m root_pa va own g))
      (go (lower_table 2 m root_pa va) refl)
  where
    go :
        (r : Option ℕ)
        → lower_table 2 m root_pa va ≡ r
        → Place m root_pa va (elim r [
          | none ↦ none
          | some table ↦
              if has (m table (vpn va 0)) pte_v && has (m table (vpn va 0)) pte_rwx
              then some (table, vpn va 0)
              else none
        ])
    go none e = nowhere (leaf_none m root_pa va e)
    go (some t) e = elim (Bool-cases (has (m t (vpn va 0)) pte_v && has (m t (vpn va 0)) pte_rwx)) [
      | inl valid ↦ rw valid (at t e (leaf_some m root_pa va t e ∙ rw valid refl))
      | inr void ↦ rw void (nowhere (leaf_some m root_pa va t e ∙ rw void refl))
    ]

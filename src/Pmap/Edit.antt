-- ===== src/Pmap/Edit.antt =====
-- `unmap`, `lookup`, `protect`, `is_cow` and `make_cow` of na/arch/riscv/mm/pmap.cc on a tree of tables.
use lume.Common.{
  efault, ℕ, ◌≡◌, refl, ap, ◌∙◌, sym, Bool, false, if◌then◌else◌, Bool-cases, inl, inr, Option,
  none, some, arith, ℤ, pos, bit_and, bit_or,
}
use lume.Word.{not64}
use lume.Pmap.{
  Tables, has, vpn, pte_to_pa, pa_to_pte, pte_v, pte_w, pte_cow, store, lower_table, find_leaf,
  unmap, lookup, protect, is_cow, make_cow,
}
use lume.Pmap.Shape.{Owner, Shape, decode, leaf, leaf_none, same_page, lower_table-cong}
use lume.Pmap.Leaf.{write-Shape, leaf-write, address, Place, nowhere, at, find_leaf-Place}

-- The leaf of address a, and of those on the same page, is new; every other one is as it was.
pub record Edited (m m' : Tables) (root_pa : ℕ) (own : ℕ → Owner) (a : ℕ) (new : Option ℕ)
    : Type 0 where
  pub shape : Shape m' root_pa own
  pub leaves : (b : ℕ) → leaf m' root_pa b ≡ (if same_page a b then new else leaf m root_pa b)

write-Edited :
    (m : Tables) (root_pa : ℕ) (own : ℕ → Owner) (a t pte : ℕ)
    → Shape m root_pa own
    → lower_table 2 m root_pa a ≡ some t
    → Edited m (store m t (vpn a 0) pte) root_pa own a (decode pte)
write-Edited m root_pa own a t pte g path = record {
  shape = write-Shape m root_pa own g a t pte path;
  leaves = leaf-write m root_pa own g a t pte path;
}

-- `lookup` finds the physical address of the leaf.
pub lookup-leaf :
    (m : Tables) (root_pa va : ℕ) (own : ℕ → Owner)
    → Shape m root_pa own
    → lookup m root_pa va ≡ address (leaf m root_pa va)
unfolding lookup
lookup-leaf m root_pa va own g = go (find_leaf 3 m root_pa va) (find_leaf-Place m root_pa va own g)
  where
    go :
        (r : Option (ℕ × ℕ))
        → Place m root_pa va r
        → elim r as (λ x. Option ℕ) [ none ↦ none | some (t, idx) ↦ some (pte_to_pa (m t idx)) ]
          ≡ address (leaf m root_pa va)
    go r (nowhere e) = sym (ap address e)
    go r (at t path e) = sym (ap address e)

abbrev pub cow_of : Option ℕ → Bool
cow_of none = false
cow_of (some pte) = has pte pte_cow

-- `is_cow` reads the mark of the leaf.
pub is_cow-leaf :
    (m : Tables) (root_pa va : ℕ) (own : ℕ → Owner)
    → Shape m root_pa own
    → is_cow m root_pa va ≡ cow_of (leaf m root_pa va)
unfolding is_cow
is_cow-leaf m root_pa va own g = go (find_leaf 3 m root_pa va) (find_leaf-Place m root_pa va own g)
  where
    go :
        (r : Option (ℕ × ℕ))
        → Place m root_pa va r
        → elim r as (λ x. Bool) [ none ↦ false | some (t, idx) ↦ has (m t idx) pte_cow ]
          ≡ cow_of (leaf m root_pa va)
    go r (nowhere e) = sym (ap cow_of e)
    go r (at t path e) = sym (ap cow_of e)

pub unmap-Edited :
    (m : Tables) (root_pa va : ℕ) (own : ℕ → Owner)
    → Shape m root_pa own
    → Edited m (unmap m root_pa va) root_pa own va none
unfolding unmap
unmap-Edited m root_pa va own g = go (lower_table 2 m root_pa va) refl
  where
    absent :
        lower_table 2 m root_pa va ≡ none
        → (b : ℕ) → leaf m root_pa b ≡ (if same_page va b then none else leaf m root_pa b)
    absent e b = elim (Bool-cases (same_page va b)) [
      | inr other ↦ rw other refl
      | inl same ↦ rw same (
          leaf_none m root_pa b (
            sym (lower_table-cong m root_pa va b (ground (arith, same)) (ground (arith, same)))
            ∙ e))
    ]

    go :
        (r : Option ℕ)
        → lower_table 2 m root_pa va ≡ r
        → Edited m
            (elim r as (λ x. Tables) [ none ↦ m | some table ↦ store m table (vpn va 0) 0 ])
            root_pa
            own
            va
            none
    go none e = record { shape = g; leaves = absent e }
    go (some t) e = write-Edited m root_pa own va t 0 g e

-- On a tree of tables `unmap` keeps the tree, and afterwards `lookup` finds nothing at the address and
-- at those on the same page, and at every other address what it found before.
pub lookup-unmap :
    (m : Tables) (root_pa va : ℕ) (own : ℕ → Owner)
    → Shape m root_pa own
    → Shape (unmap m root_pa va) root_pa own
      × ((b : ℕ)
          → lookup (unmap m root_pa va) root_pa b
            ≡ (if same_page va b then none else lookup m root_pa b))
lookup-unmap m root_pa va own g =
    let e = unmap-Edited m root_pa va own g in
    (
      e.shape,
      λ b.
          lookup-leaf (unmap m root_pa va) root_pa b own e.shape
          ∙ ap address (e.leaves b)
          ∙ elim (Bool-cases (same_page va b)) [
            | inl same ↦ rw same refl
            | inr other ↦ rw other (sym (lookup-leaf m root_pa b own g))
          ],
    )

-- The leaf is found and changed by f, or there is none.
pub data EditOutcome (m : Tables) (root_pa : ℕ) (own : ℕ → Owner) (va : ℕ) (f : ℕ → ℕ)
    : ℤ × Tables → Type 0 where
  fault : lookup m root_pa va ≡ none → EditOutcome m root_pa own va f (efault, m)
  edited :
      (pte : ℕ) (m' : Tables)
      → leaf m root_pa va ≡ some pte
      → Edited m m' root_pa own va (decode (f pte))
      → EditOutcome m root_pa own va f (pos 0, m')

edit_at :
    (m : Tables) (root_pa va : ℕ) (own : ℕ → Owner) (f : ℕ → ℕ)
    → Shape m root_pa own
    → (r : Option (ℕ × ℕ)) → Place m root_pa va r
    → EditOutcome m root_pa own va f (elim r as (λ x. ℤ × Tables) [
      | none ↦ (efault, m)
      | some (table, idx) ↦ (pos 0, store m table idx (f (m table idx)))
    ])
edit_at m root_pa va own f g r (nowhere e) = fault (lookup-leaf m root_pa va own g ∙ ap address e)
edit_at m root_pa va own f g r (at t path e) =
    edited (m t (vpn va 0)) (store m t (vpn va 0) (f (m t (vpn va 0)))) e
      (write-Edited m root_pa own va t (f (m t (vpn va 0))) g path)

-- `protect` on a tree of tables fails with -EFAULT and changes nothing where `lookup` finds nothing.
-- Otherwise the leaf gets the permissions over the same frame, the leaves of other pages stay, and so
-- does the tree.
pub protect-EditOutcome :
    (m : Tables) (root_pa va perm : ℕ) (own : ℕ → Owner)
    → Shape m root_pa own
    → EditOutcome m root_pa own va
        (λ pte. pa_to_pte (pte_to_pa pte) (bit_or perm pte_v))
        (protect m root_pa va perm)
unfolding protect
protect-EditOutcome m root_pa va perm own g =
    edit_at m root_pa va own (λ pte. pa_to_pte (pte_to_pa pte) (bit_or perm pte_v)) g
      (find_leaf 3 m root_pa va) (find_leaf-Place m root_pa va own g)

-- `make_cow` on a tree of tables fails with -EFAULT and changes nothing where `lookup` finds nothing.
-- Otherwise the leaf loses the write bit and gets the mark, the leaves of other pages stay, and so does
-- the tree.
pub make_cow-EditOutcome :
    (m : Tables) (root_pa va : ℕ) (own : ℕ → Owner)
    → Shape m root_pa own
    → EditOutcome m root_pa own va
        (λ pte. bit_or (bit_and pte (not64 pte_w)) pte_cow)
        (make_cow m root_pa va)
unfolding make_cow
make_cow-EditOutcome m root_pa va own g =
    edit_at m root_pa va own (λ pte. bit_or (bit_and pte (not64 pte_w)) pte_cow) g
      (find_leaf 3 m root_pa va) (find_leaf-Place m root_pa va own g)

-- ===== src/Pmap/Shape.antt =====
-- The tables of na/arch/riscv/mm/pmap.cc as a tree: what the walks find, and what a write to an entry of
-- level 0 changes.
use lume.Common.{
  ℕ, ◌≡◌, ◌≢◌, refl, ap, ◌∙◌, sym, Bool, true, false, ◌&&◌, ◌==◌, if◌then◌else◌, Bool-cases, inl,
  inr, Option, none, some, arith,
}
use lume.Pmap.{Tables, has, vpn, pte_to_pa, pte_v, pte_rwx, store, lower_table, find_leaf}

-- Where a table stands: below the entries of the numbers.
pub data Owner : Type 0 where
  unused top : Owner
  middle : ℕ → Owner
  bottom : ℕ → ℕ → Owner

-- Each valid entry above level 0 points to a table of its own.
pub record Shape (m : Tables) (root_pa : ℕ) (own : ℕ → Owner) : Type 0 where
  pub root : own root_pa ≡ top
  pub middles :
      (i : ℕ)
      → has (m root_pa i) pte_v ≡ true
      → (has (m root_pa i) pte_rwx ≡ false) × (own (pte_to_pa (m root_pa i)) ≡ middle i)
  pub bottoms :
      (t i j : ℕ)
      → own t ≡ middle i
      → has (m t j) pte_v ≡ true
      → (has (m t j) pte_rwx ≡ false) × (own (pte_to_pa (m t j)) ≡ bottom i j)

-- A valid leaf.
abbrev pub decode : ℕ → Option ℕ
decode pte = if has pte pte_v && has pte pte_rwx then some pte else none

abbrev pub entry_of : Tables → ℕ → Option ℕ → Option ℕ
entry_of m va none = none
entry_of m va (some table) = decode (m table (vpn va 0))

-- The leaf of an address, if there is one.
abbrev pub leaf : Tables → ℕ → ℕ → Option ℕ
leaf m root_pa va = entry_of m va (lower_table 2 m root_pa va)

pub leaf_none :
    (m : Tables) (root_pa va : ℕ) → lower_table 2 m root_pa va ≡ none → leaf m root_pa va ≡ none
leaf_none m root_pa va e = ap (entry_of m va) e

pub leaf_some :
    (m : Tables) (root_pa va t : ℕ)
    → lower_table 2 m root_pa va ≡ some t
    → leaf m root_pa va ≡ decode (m t (vpn va 0))
leaf_some m root_pa va t e = ap (entry_of m va) e

abbrev pub same_page : ℕ → ℕ → Bool
same_page a b = (vpn a 2 == vpn b 2) && (vpn a 1 == vpn b 1) && (vpn a 0 == vpn b 0)

abbrev pub second : Tables → ℕ → ℕ → ℕ
second m root_pa va = pte_to_pa (m root_pa (vpn va 2))

abbrev pub third : Tables → ℕ → ℕ → ℕ
third m root_pa va = pte_to_pa (m (second m root_pa va) (vpn va 1))

pub data Walk (m : Tables) (root_pa va : ℕ) : Option ℕ → Type 0 where
  no_middle : has (m root_pa (vpn va 2)) pte_v ≡ false → Walk m root_pa va none
  no_bottom :
      has (m root_pa (vpn va 2)) pte_v ≡ true
      → has (m (second m root_pa va) (vpn va 1)) pte_v ≡ false
      → Walk m root_pa va none
  reaches :
      has (m root_pa (vpn va 2)) pte_v ≡ true
      → has (m (second m root_pa va) (vpn va 1)) pte_v ≡ true
      → Walk m root_pa va (some (third m root_pa va))

pub lower_table-Walk :
    (m : Tables) (root_pa va : ℕ) → Walk m root_pa va (lower_table 2 m root_pa va)
unfolding lower_table
lower_table-Walk m root_pa va = elim (Bool-cases (has (m root_pa (vpn va 2)) pte_v)) [
  | inr off ↦ rw off (no_middle off)
  | inl on ↦ elim (Bool-cases (has (m (second m root_pa va) (vpn va 1)) pte_v)) [
    | inr off ↦ rw (on, off) (no_bottom on off)
    | inl also ↦ rw (on, also) (reaches on also)
  ]
]

both :
    (a b : Bool) (x : Option (ℕ × ℕ))
    → (if a then (if b then x else none) else none) ≡ (if a && b then x else none)
both true b x = refl
both false b x = refl

-- What the walks down to a leaf find in a tree.
pub find_leaf-Shape :
    (m : Tables) (root_pa va : ℕ) (own : ℕ → Owner)
    → Shape m root_pa own
    → find_leaf 3 m root_pa va ≡ elim (lower_table 2 m root_pa va) [
      | none ↦ none
      | some table ↦
          if has (m table (vpn va 0)) pte_v && has (m table (vpn va 0)) pte_rwx
          then some (table, vpn va 0)
          else none
    ]
unfolding find_leaf lower_table
find_leaf-Shape m root_pa va own g = elim (Bool-cases (has (m root_pa (vpn va 2)) pte_v)) [
  | inr off ↦ rw off refl
  | inl on ↦
      let (pointer, owner) = g.middles (vpn va 2) on in
      rw (on, pointer)
        (elim (Bool-cases (has (m (second m root_pa va) (vpn va 1)) pte_v)) [
          | inr off ↦ rw off refl
          | inl also ↦
              let (pointer', owner') =
                g.bottoms (second m root_pa va) (vpn va 2) (vpn va 1) owner also in
              rw (also, pointer')
                (both (has (m (third m root_pa va) (vpn va 0)) pte_v)
                  (has (m (third m root_pa va) (vpn va 0)) pte_rwx)
                  (some (third m root_pa va, vpn va 0)))
        ])
]

pub other-table : (m : Tables) (t k pte x idx : ℕ) → x ≢ t → store m t k pte x idx ≡ m x idx
other-table m t k pte x idx ne = let e : (x == t) ≡ false = ground (arith, ne) in rw e refl

pub same-table :
    (m : Tables) (t k pte idx : ℕ) → store m t k pte t idx ≡ (if idx == k then pte else m t idx)
same-table m t k pte idx = let e : (t == t) ≡ true = ground arith in rw e refl

-- A write to a table at the lowest level.
module _ (m : Tables) (root_pa : ℕ) (own : ℕ → Owner) (g : Shape m root_pa own) (t i j k pte : ℕ)
    (low : own t ≡ bottom i j) where
  abbrev written : Tables
  written = store m t k pte

  not-root : root_pa ≢ t
  not-root e = cc (g.root, low, ap own e)

  not-middle : (x n : ℕ) → own x ≡ middle n → x ≢ t
  not-middle x n h e = cc (h, low, ap own e)

  top_entry : (idx : ℕ) → written root_pa idx ≡ m root_pa idx
  top_entry idx = other-table m t k pte root_pa idx not-root

  middle_entry : (x n idx : ℕ) → own x ≡ middle n → written x idx ≡ m x idx
  middle_entry x n idx h = other-table m t k pte x idx (not-middle x n h)

  pub Shape-store : Shape written root_pa own
  Shape-store = record {
    root = g.root;
    middles = λ n on.
        let e = top_entry n in
        let (pointer, owner) = g.middles n (sym (ap (λ x. has x pte_v) e) ∙ on) in
        (ap (λ x. has x pte_rwx) e ∙ pointer, ap (λ x. own (pte_to_pa x)) e ∙ owner);
    bottoms = λ x a n h on.
        let e = middle_entry x a n h in
        let (pointer, owner) = g.bottoms x a n h (sym (ap (λ y. has y pte_v) e) ∙ on) in
        (ap (λ y. has y pte_rwx) e ∙ pointer, ap (λ y. own (pte_to_pa y)) e ∙ owner);
  }

  pub lower_table-store : (va : ℕ) → lower_table 2 written root_pa va ≡ lower_table 2 m root_pa va
  unfolding lower_table
  lower_table-store va =
      let e = top_entry (vpn va 2) in
      elim (Bool-cases (has (m root_pa (vpn va 2)) pte_v)) [
        | inr off ↦ rw (e, off) refl
        | inl on ↦
            let f =
              middle_entry (second m root_pa va) (vpn va 2) (vpn va 1)
                (g.middles (vpn va 2) on).1 in
            rw (e, on, f) refl
      ]

-- The path of an address depends on its two upper indices.
pub lower_table-cong :
    (m : Tables) (root_pa a b : ℕ)
    → vpn a 2 ≡ vpn b 2
    → vpn a 1 ≡ vpn b 1
    → lower_table 2 m root_pa a ≡ lower_table 2 m root_pa b
unfolding lower_table
lower_table-cong m root_pa a b e f = rw (e, f) refl

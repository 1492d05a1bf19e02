-- ===== src/Pmap/Map.antt =====
-- `map` of na/arch/riscv/mm/pmap.cc: its two rounds and the leaf.
use lume.Common.{
  ℕ, ◌+◌, ◌*◌, ◌&&◌, ◌⊎◌, ◌≡◌, ◌≢◌, refl, ap, ◌∙◌, sym, subst, true, false, ◌==◌, if◌then◌else◌,
  Bool-cases, inl, inr, Option, none, some, update, arith,
}
use lume.Pmm.Blocks.{Blocks, add}
use lume.Pmm.Cache.{Available}
use lume.Pmap.{Memory, Tables, has, pte_to_pa, pa_to_pte, pte_v, store, alloc_pt_page, next_table}
use lume.Pmap.Bits.{has-pa_to_pte}
use lume.Pmap.Shape.{Owner, unused, Shape, leaf}
use lume.Pmap.Grow.{
  Link, from_top, from_middle, Shape-grown, leaf-grown, entry-grown, linked_entry, own-grown,
}
use lume.Pmap.Fresh.{Ready, TableOutcome, no_table, table, alloc_pt_page-TableOutcome}

-- The tables and the allocator, with the pages that are handed out and the owners of the tables.
pub record Tree (mem : Memory) (root_pa : ℕ) (K : Blocks) (own : ℕ → Owner) : Type 0 where
  pub ready : Ready mem K own
  pub shape : Shape mem.tables root_pa own

-- The pages that are handed out stay so, the tables keep their places, and each page that is handed out
-- besides is a new table.
pub record Grown (base : ℕ) (K K' : Blocks) (own own' : ℕ → Owner) : Type 0 where
  pub blocks : (o p : ℕ) → K o p ≡ true → K' o p ≡ true
  pub owners : (x : ℕ) (o : Owner) → own x ≡ o → o ≢ unused → own' x ≡ o
  pub tables :
      (o p : ℕ) → K' o p ≡ true → (K o p ≡ true) ⊎ ((o ≡ 0) × (own' (base + p * 4096) ≢ unused))

pub Grown-same : (base : ℕ) (K : Blocks) (own : ℕ → Owner) → Grown base K K own own
Grown-same base K own = record {
  blocks = λ o p h. h;
  owners = λ x o h used. h;
  tables = λ o p h. inl h;
}

pub Grown-trans :
    (base : ℕ) (K L N : Blocks) (own own1 own2 : ℕ → Owner)
    → Grown base K L own own1
    → Grown base L N own1 own2
    → Grown base K N own own2
Grown-trans base K L N own own1 own2 g h = record {
  blocks = λ o p k. h.blocks o p (g.blocks o p k);
  owners = λ x o e used. h.owners x o (g.owners x o e used) used;
  tables = λ o p n. elim (h.tables o p n) [
    | inr new ↦ inr new
    | inl l ↦ elim (g.tables o p l) [
      | inl k ↦ inl k
      | inr (zeroth, used) ↦
          let x = base + p * 4096 in
          inr (zeroth, λ e. used (sym (h.owners x (own1 x) refl used) ∙ e))
    ]
  ];
}

-- What a round leaves as it was.
pub record Kept (mem got : Memory) (root_pa : ℕ) (own own' : ℕ → Owner) : Type 0 where
  pub leaves : (b : ℕ) → leaf got.tables root_pa b ≡ leaf mem.tables root_pa b
  pub entries :
      (x n : ℕ) (o : Owner)
      → own x ≡ o
      → o ≢ unused
      → has (mem.tables x n) pte_v ≡ true
      → got.tables x n ≡ mem.tables x n
  pub base : got.pmm.mem_base ≡ mem.pmm.mem_base

-- The entry was not there, and at most one page was taken for its table.
pub record Taken (mem got : Memory) (t j : ℕ) : Type 0 where
  pub slot : has (mem.tables t j) pte_v ≡ false
  pub page : ℕ
  pub left : (a : ℕ) → Available mem.pmm a → Available got.pmm a ⊎ (a ≡ page)

Link-used :
    (root_pa : ℕ) (own : ℕ → Owner) (t j : ℕ) (tag : Owner)
    → Link root_pa own t j tag
    → tag ≢ unused
Link-used root_pa own t j tag (from_top at) e = cc e
Link-used root_pa own t j tag (from_middle i h) e = cc e

pub data RoundOutcome (mem : Memory) (root_pa : ℕ) (K : Blocks) (own : ℕ → Owner) (t j : ℕ)
    (tag : Owner) : Option (Option ℕ × Memory) → Type 0 where
  no_room :
      (got : Memory)
      → Tree got root_pa K own
      → Kept mem got root_pa own own
      → has (mem.tables t j) pte_v ≡ false
      → ((a : ℕ) → ¬ Available mem.pmm a)
      → RoundOutcome mem root_pa K own t j tag (some (none, got))
  next :
      (got : Memory) (K' : Blocks) (own' : ℕ → Owner)
      → Tree got root_pa K' own'
      → Kept mem got root_pa own own'
      → Grown mem.pmm.mem_base K K' own own'
      → ((got ≡ mem) ⊎ Taken mem got t j)
      → has (got.tables t j) pte_v ≡ true
      → own' (pte_to_pa (got.tables t j)) ≡ tag
      → RoundOutcome mem root_pa K own t j tag (some (some (pte_to_pa (got.tables t j)), got))

pointed_tag :
    (m : Tables) (root_pa : ℕ) (own : ℕ → Owner) (t j : ℕ) (tag : Owner)
    → Shape m root_pa own
    → Link root_pa own t j tag
    → has (m t j) pte_v ≡ true
    → own (pte_to_pa (m t j)) ≡ tag
pointed_tag m root_pa own t j tag g (from_top at) on =
    ap (λ x. own (pte_to_pa (m x j))) at
    ∙ (g.middles j (ap (λ x. has (m x j) pte_v) (sym at) ∙ on)).1
pointed_tag m root_pa own t j tag g (from_middle i h) on = (g.bottoms t i j h on).1

round_new :
    (mem : Memory) (root_pa : ℕ) (K : Blocks) (own : ℕ → Owner) (t j : ℕ) (tag : Owner)
    → Tree mem root_pa K own
    → Link root_pa own t j tag
    → has (mem.tables t j) pte_v ≡ false
    → (r : Option (ℕ × Memory)) → TableOutcome mem K own r
    → RoundOutcome mem root_pa K own t j tag (elim r as (λ x. Option (Option ℕ × Memory)) [
      | none ↦ none
      | some (child_pa, got) ↦
          if child_pa == 0
          then some (none, got)
          else let linked = store got.tables t j (pa_to_pte child_pa pte_v) in
            some (some (pte_to_pa (linked t j)), record got { tables = linked })
    ])
round_new mem root_pa K own t j tag b link slot r (no_table got e ready empty base) =
    no_room got (record { ready = ready; shape = subst (λ x. Shape x root_pa own) (sym e) b.shape })
      (record {
        leaves = λ b. ap (λ x. leaf x root_pa b) e;
        entries = λ x n o h used on. ap (λ y. y x n) e;
        base = base;
      })
      slot empty
round_new mem root_pa K own t j tag b link slot r
      (table p pa got new (positive, small, page) e ready (base, place) left) =
    let m = mem.tables in
    let g = b.shape in
    let used : (pa == 0) ≡ false = ground (arith, positive) in
    let pointer = pa_to_pte pa pte_v in
    let linked = store (update m pa (λ i. 0)) t j pointer in
    let (entry, owner) = linked_entry m root_pa own g t j pa tag link slot new small page in
    let last : Memory = record got { tables = linked } in
    let done : RoundOutcome mem root_pa K own t j tag (some (some (pte_to_pa (linked t j)), last)) =
      next last (add K 0 p) (update own pa tag)
        (record {
          ready =
              let y = ready tag in
              record {
                late = y.late;
                sound = y.sound;
                ram = y.ram;
                whole = y.whole;
                above = y.above;
                placed = y.placed;
              };
          shape = Shape-grown m root_pa own g t j pa tag link slot new small page;
        })
        (record {
          leaves = leaf-grown m root_pa own g t j pa tag link slot new small page;
          entries = entry-grown m root_pa own g t j pa tag link slot new small page;
          base = base;
        })
        (record {
          blocks = λ o q h. ground (arith, h);
          owners = own-grown m root_pa own g t j pa tag link slot new small page;
          tables = λ o q h. elim (Bool-cases (o == 0 && q == p)) [
            | inr old ↦ inl (rw old at h)
            | inl here ↦
                let at : mem.pmm.mem_base + q * 4096 ≡ pa = ground (arith, here, place) in
                let new_owner : update own pa tag pa ≡ tag = ground arith in
                inr (
                  ground (arith, here),
                  λ z.
                      Link-used root_pa own t j tag link
                        (sym (ap (update own pa tag) at ∙ new_owner) ∙ z),
                )
          ];
        })
        (inr (record { slot = slot; page = p; left = left }))
        (ap (λ x. has x pte_v) entry
          ∙ has-pa_to_pte pa pte_v pte_v small (omega arith) (omega arith))
        (ap (λ x. update own pa tag (pte_to_pa x)) entry ∙ owner) in
    rw used (
      subst
        (λ x. RoundOutcome mem root_pa K own t j tag (
          some (
            some (pte_to_pa (store x t j pointer t j)),
            record got { tables = store x t j pointer },
          )))
        (sym e) done)

pub next_table-RoundOutcome :
    (mem : Memory) (root_pa : ℕ) (K : Blocks) (own : ℕ → Owner) (t j : ℕ) (tag : Owner)
    → Tree mem root_pa K own
    → Link root_pa own t j tag
    → RoundOutcome mem root_pa K own t j tag (next_table mem t j)
unfolding next_table
next_table-RoundOutcome mem root_pa K own t j tag b link =
    elim (Bool-cases (has (mem.tables t j) pte_v)) [
      | inl on ↦ rw on (
          next mem K own b
            (record { leaves = λ b. refl; entries = λ x n o h used on. refl; base = refl })
            (Grown-same mem.pmm.mem_base K own) (inl refl) on
            (pointed_tag mem.tables root_pa own t j tag b.shape link on))
      | inr slot ↦ rw slot (
          round_new mem root_pa K own t j tag b link slot (alloc_pt_page mem)
            (alloc_pt_page-TableOutcome mem K own b.ready))
    ]

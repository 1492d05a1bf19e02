-- ===== src/Pmap/Install.antt =====
-- `map` of na/arch/riscv/mm/pmap.cc as a whole.
use lume.Common.{
  ◌⊎◌, inl, inr, sym, subst, none, false, enomem, ℕ, ◌≡◌, refl, ap, ◌∙◌, true, if◌then◌else◌,
  Option, some, ℤ, pos,
}
use lume.Pmm.Blocks.{Blocks}
use lume.Pmm.Cache.{Available}
use lume.Pmap.{
  Memory, has, vpn, pte_to_pa, pte_v, store, lower_table, next_table, map, with_table, install,
  leaf_pte,
}
use lume.Pmap.Shape.{Owner, top, middle, bottom, decode, leaf, same_page}
use lume.Pmap.Leaf.{write-Shape, leaf-write}
use lume.Pmap.Grow.{from_top, from_middle, lower_at}
use lume.Pmap.Map.{
  Tree, RoundOutcome, Taken, Grown, Grown-same, Grown-trans, no_room, next, next_table-RoundOutcome,
}

-- There is no page for each table that is missing: the upper one is missing and at most one page is
-- available, or one is missing and no page is available.
abbrev pub Short : Memory → ℕ → ℕ → Type 0
Short mem root_pa va =
    ((has (mem.tables root_pa (vpn va 2)) pte_v ≡ false)
      × ((a b : ℕ) → Available mem.pmm a → Available mem.pmm b → a ≡ b))
    ⊎ ((lower_table 2 mem.tables root_pa va ≡ none) × ((a : ℕ) → ¬ Available mem.pmm a))

pub data MapOutcome (mem : Memory) (root_pa va pte : ℕ) (K : Blocks) (own : ℕ → Owner)
    : Option (ℤ × Memory) → Type 0 where
  unmapped :
      (got : Memory) (K' : Blocks) (own' : ℕ → Owner)
      → Tree got root_pa K' own'
      → Grown mem.pmm.mem_base K K' own own'
      → Short mem root_pa va
      → ((b : ℕ) → leaf got.tables root_pa b ≡ leaf mem.tables root_pa b)
      → MapOutcome mem root_pa va pte K own (some (enomem, got))
  mapped :
      (got : Memory) (K' : Blocks) (own' : ℕ → Owner)
      → Tree got root_pa K' own'
      → Grown mem.pmm.mem_base K K' own own'
      → ((b : ℕ)
          → leaf got.tables root_pa b
            ≡ (if same_page va b then decode pte else leaf mem.tables root_pa b))
      → MapOutcome mem root_pa va pte K own (some (pos 0, got))

second_Short :
    (mem first : Memory) (root_pa va : ℕ)
    → ((first ≡ mem) ⊎ Taken mem first root_pa (vpn va 2))
    → has (first.tables root_pa (vpn va 2)) pte_v ≡ true
    → has (first.tables (pte_to_pa (first.tables root_pa (vpn va 2))) (vpn va 1)) pte_v ≡ false
    → ((a : ℕ) → ¬ Available first.pmm a)
    → Short mem root_pa va
unfolding lower_table
second_Short mem first root_pa va (inl same) on slot empty =
    subst (λ x. Short x root_pa va) same (inr (rw (on, slot) refl, empty))
second_Short mem first root_pa va (inr taken) on slot empty =
    let only : (a : ℕ) → Available mem.pmm a → a ≡ taken.page =
      λ a x. elim (taken.left a x) [ inl more ↦ absurd (empty a more) | inr e ↦ e ] in
    inl (taken.slot, λ a b x y. only a x ∙ sym (only b y))

-- The second round and the leaf.
second_round :
    (mem first : Memory) (root_pa : ℕ) (K L : Blocks) (own own1 : ℕ → Owner) (va pte : ℕ)
    → Tree first root_pa L own1
    → Grown mem.pmm.mem_base K L own own1
    → (first.pmm.mem_base ≡ mem.pmm.mem_base)
    → ((first ≡ mem) ⊎ Taken mem first root_pa (vpn va 2))
    → ((b : ℕ) → leaf first.tables root_pa b ≡ leaf mem.tables root_pa b)
    → has (first.tables root_pa (vpn va 2)) pte_v ≡ true
    → (r : Option (Option ℕ × Memory))
    → RoundOutcome first root_pa L own1
        (pte_to_pa (first.tables root_pa (vpn va 2)))
        (vpn va 1)
        (bottom (vpn va 2) (vpn va 1))
        r
    → MapOutcome mem root_pa va pte K own (with_table (install (vpn va 0) pte) r)
second_round mem first root_pa K L own own1 va pte b grown base how same on r
      (no_room got tree kept slot empty) =
    unmapped got L own1 tree grown (second_Short mem first root_pa va how on slot empty)
      (λ c. kept.leaves c ∙ same c)
second_round mem first root_pa K L own own1 va pte b grown base how same on r
      (next got K' own' tree kept more from also owner) =
    let mid = pte_to_pa (first.tables root_pa (vpn va 2)) in
    let m = got.tables in
    let top_entry : m root_pa (vpn va 2) ≡ first.tables root_pa (vpn va 2) =
      kept.entries root_pa (vpn va 2) top b.shape.root (λ e. cc e) on in
    let t = pte_to_pa (m mid (vpn va 1)) in
    let path : lower_table 2 m root_pa va ≡ some t =
      lower_at m root_pa va (first.tables root_pa (vpn va 2)) (m mid (vpn va 1)) top_entry refl
      ∙ rw (on, also) refl in
    let y = tree.ready in
    mapped (record got { tables = store m t (vpn va 0) pte }) K' own'
      (record {
        ready = record {
          late = y.late;
          sound = y.sound;
          ram = y.ram;
          whole = y.whole;
          above = y.above;
          placed = y.placed;
        };
        shape = write-Shape m root_pa own' tree.shape va t pte path;
      })
      (Grown-trans mem.pmm.mem_base K L K' own own1 own' grown
        (subst (λ x. Grown x L K' own1 own') base more))
      (λ c.
        leaf-write m root_pa own' tree.shape va t pte path c
        ∙ ap (λ x. if same_page va c then decode pte else x) (kept.leaves c ∙ same c))

first_round :
    (mem : Memory) (root_pa : ℕ) (K : Blocks) (own : ℕ → Owner) (va pte : ℕ)
    (r : Option (Option ℕ × Memory))
    → RoundOutcome mem root_pa K own root_pa (vpn va 2) (middle (vpn va 2)) r
    → MapOutcome mem root_pa va pte K own (
        with_table
          (λ mid got. with_table (install (vpn va 0) pte) (next_table got mid (vpn va 1)))
          r)
first_round mem root_pa K own va pte r (no_room got tree kept slot empty) =
    unmapped got K own tree (Grown-same mem.pmm.mem_base K own)
      (inl (slot, λ a b x y. absurd (empty a x))) kept.leaves
first_round mem root_pa K own va pte r (next got K' own' tree kept more how on owner) =
    let mid = pte_to_pa (got.tables root_pa (vpn va 2)) in
    second_round mem got root_pa K K' own own' va pte tree more kept.base how kept.leaves on
      (next_table got mid (vpn va 1))
      (next_table-RoundOutcome got root_pa K' own' mid (vpn va 1) (bottom (vpn va 2) (vpn va 1))
        tree (from_middle (vpn va 2) owner))

-- `map` on a tree of tables with a sound page allocator does not panic and leaves a tree and a sound
-- allocator, in which the pages of before are still handed out and each other one is a new table. Either
-- fewer pages are available than tables are missing, it answers -ENOMEM and every address has the leaf
-- from before; or it answers 0, the page of the address has the new leaf and all others keep theirs.
pub map-MapOutcome :
    (mem : Memory) (root_pa : ℕ) (K : Blocks) (own : ℕ → Owner) (va pa perm : ℕ)
    → Tree mem root_pa K own
    → MapOutcome mem root_pa va (leaf_pte pa perm) K own (map mem root_pa va pa perm)
unfolding map
map-MapOutcome mem root_pa K own va pa perm b =
    first_round mem root_pa K own va (leaf_pte pa perm) (next_table mem root_pa (vpn va 2)) (
      next_table-RoundOutcome mem root_pa K own root_pa (vpn va 2) (middle (vpn va 2)) b
        (from_top refl))

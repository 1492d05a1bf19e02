-- ===== src/Pmap/Fresh.antt =====
-- `alloc_pt_page` of na/arch/riscv/mm/pmap.cc: tables from the page allocator.
use lume.Common.{
  ℕ, ◌+◌, ◌*◌, ◌%◌, ◌^◌, ◌<◌, ◌≡◌, ◌≢◌, refl, ap, ◌∙◌, sym, subst, Bool, true, false, ◌==◌, ==_iff,
  if◌then◌else◌, Bool-cases, inl, inr, ◌⊎◌, Option, none, some, update, arith,
}
use lume.Addr.{page_size}
use lume.Memblock.{memblock_alloc, ok, panic, out_of_fuel}
use lume.Pmm.{Pmm, pmm_alloc_page, page_to_pa}
use lume.Pmm.Blocks.{Blocks, add}
use lume.Pmm.Cache.{Available}
use lume.Pmm.Serve.{Sound, PageOutcome, no_page, page}
use lume.Pmm.Calls.{pmm_alloc_page-PageOutcome}
use lume.Pmap.{Memory, zeroed, pmm_table, alloc_pt_page}
use lume.Pmap.Shape.{Owner, unused, top, middle, bottom}

-- The boot allocator is retired, the page allocator is sound, and each table in use is a page that it
-- has handed out.
pub record Ready (mem : Memory) (K : Blocks) (own : ℕ → Owner) : Type 0 where
  pub late : mem.boot.active ≡ false
  pub sound : Sound mem.pmm K
  pub ram : mem.pmm.mem_base + mem.pmm.num_pages * 4096 < 2 ^ 56
  pub whole : mem.pmm.mem_base % 4096 ≡ 0
  pub above : 0 < mem.pmm.mem_base
  pub placed :
      (t : ℕ) → own t ≢ unused → (p : ℕ) × (K 0 p ≡ true) × (t ≡ mem.pmm.mem_base + p * 4096)

Owner-cases : (o : Owner) → (o ≡ unused) ⊎ (o ≢ unused)
Owner-cases unused = inl refl
Owner-cases top = inr (λ e. cc e)
Owner-cases (middle i) = inr (λ e. cc e)
Owner-cases (bottom i j) = inr (λ e. cc e)

pub data TableOutcome (mem : Memory) (K : Blocks) (own : ℕ → Owner)
    : Option (ℕ × Memory) → Type 0 where
  no_table :
      (got : Memory)
      → got.tables ≡ mem.tables
      → Ready got K own
      → ((a : ℕ) → ¬ Available mem.pmm a)
      → got.pmm.mem_base ≡ mem.pmm.mem_base
      → TableOutcome mem K own (some (0, got))
  table :
      (p pa : ℕ) (got : Memory)
      → own pa ≡ unused
      → (0 < pa) × (pa < 2 ^ 56) × (pa % 4096 ≡ 0)
      → got.tables ≡ update mem.tables pa (λ i. 0)
      → ((tag : Owner) → Ready got (add K 0 p) (update own pa tag))
      → (got.pmm.mem_base ≡ mem.pmm.mem_base) × (pa ≡ mem.pmm.mem_base + p * 4096)
      → ((a : ℕ) → Available mem.pmm a → Available got.pmm a ⊎ (a ≡ p))
      → TableOutcome mem K own (some (pa, got))

pmm_table-page :
    (mem : Memory) (pmm : Pmm) (p pa : ℕ)
    → page_to_pa pmm p ≡ some pa
    → 0 < pa
    → pmm_table mem (some p, pmm)
      ≡ some (pa, record mem { pmm = pmm; tables = update mem.tables pa (λ i. 0) })
pmm_table-page mem pmm p pa e positive =
    let used : (pa == 0) ≡ false = ground (arith, positive) in
    ap
      (λ o. elim o as (λ x. Option (ℕ × Memory)) [
        | none ↦ none
        | some pa ↦ some (zeroed (record mem { pmm = pmm }) pa)
      ])
      e
    ∙ rw used refl

pmm_table-TableOutcome :
    (mem : Memory) (K : Blocks) (own : ℕ → Owner)
    → Ready mem K own
    → (r : Option (Option ℕ × Pmm)) → PageOutcome mem.pmm K r
    → TableOutcome mem K own
        (elim r as (λ x. Option (ℕ × Memory)) [ none ↦ none | some q ↦ pmm_table mem q ])
unfolding page_to_pa
pmm_table-TableOutcome mem K own b r (no_page pmm sound steady empty) =
    no_table (record mem { pmm = pmm }) refl
      (record {
        late = b.late;
        sound = sound;
        ram = omega (arith, b.ram, steady.base, steady.pages);
        whole = ap (λ x. x % 4096) steady.base ∙ b.whole;
        above = omega (arith, b.above, steady.base);
        placed = λ t used. let (p, k, e) = b.placed t used in (p, k, omega (arith, e, steady.base));
      })
      empty steady.base
pmm_table-TableOutcome mem K own b r (page p pmm sound steady fresh pages descriptor) =
    let inside = (sound.cached.buddies.tiling.aligned 0 p (ground arith)).2 in
    let pa = mem.pmm.mem_base + p * 4096 in
    let at : page_to_pa pmm p ≡ some pa =
      ground (arith, inside, steady.base, steady.pages, b.ram) in
    let unowned : own pa ≡ unused = elim (Owner-cases (own pa)) [
      | inl no_owner ↦ no_owner
      | inr used ↦
          let (q, k, e) = b.placed pa used in
          let same : q ≡ p = omega (arith, e) in cc (k, fresh 0, ap (K 0) same)
    ] in
    subst (TableOutcome mem K own) (sym (pmm_table-page mem pmm p pa at (omega (arith, b.above)))) (
      table p pa (record mem { pmm = pmm; tables = update mem.tables pa (λ i. 0) }) unowned
        (omega (arith, b.above), omega (arith, b.ram, inside, steady.pages), omega (arith, b.whole))
        refl
        (λ tag. record {
          late = b.late;
          sound = sound;
          ram = omega (arith, b.ram, steady.base, steady.pages);
          whole = ap (λ x. x % 4096) steady.base ∙ b.whole;
          above = omega (arith, b.above, steady.base);
          placed = λ t used. elim (Bool-cases (t == pa)) [
            | inl here ↦ (p, ground arith, omega (arith, (==_iff t pa).0 here, steady.base))
            | inr other ↦
                let (q, k, e) = b.placed t (λ u. used (rw other u)) in
                (q, ground (arith, k), omega (arith, e, steady.base))
          ];
        })
        (steady.base, refl) (λ a. (pages a).0))

without : (b : Bool) (x y : Option (ℕ × Memory)) → b ≡ false → (if b then x else y) ≡ y
without true x y e = cc e
without false x y e = refl

pub alloc_pt_page-TableOutcome :
    (mem : Memory) (K : Blocks) (own : ℕ → Owner)
    → Ready mem K own
    → TableOutcome mem K own (alloc_pt_page mem)
unfolding alloc_pt_page
alloc_pt_page-TableOutcome mem K own b =
    let late =
      without mem.boot.active
        (elim (memblock_alloc mem.boot page_size page_size) as (λ x. Option (ℕ × Memory)) [
          | ok (pa, boot) ↦ some (zeroed (record mem { boot = boot }) pa)
          | panic _ ↦ none
          | out_of_fuel ↦ none
        ])
        (elim (pmm_alloc_page mem.pmm) as (λ x. Option (ℕ × Memory)) [
          | none ↦ none
          | some q ↦ pmm_table mem q
        ])
        b.late in
    subst (TableOutcome mem K own) (sym late) (
      pmm_table-TableOutcome mem K own b (pmm_alloc_page mem.pmm)
        (pmm_alloc_page-PageOutcome mem.pmm K b.sound))

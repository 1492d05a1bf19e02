-- ===== src/Pmap/Tests.antt =====
-- Runs of the model of na/arch/riscv/mm/pmap.cc, and the properties at concrete tables: a root at 0x1000
-- with one table of each level below it, and a page of the user at 0x9000 for address 0x5000.
use lume.Common.{
  ℕ, ◌+◌, ◌^◌, ◌<◌, ◌≡◌, refl, ap, ◌∙◌, sym, true, false, ◌&&◌, ◌==◌, ==_iff, if◌then◌else◌,
  Bool-cases, inl, inr, [], ◌∷◌, none, some, arith, bit_or, bit_and,
}
use lume.Word.{not64}
use lume.Pmm.{Pmm}
use lume.Pmm.Blocks.{Blocks, add}
use lume.Pmm.Buddy.{nothing}
use lume.Pmm.Alloc.{Buddies-ext}
use lume.Pmm.Cache.{out}
use lume.Pmm.Serve.{Sound}
use lume.Pmm.Feed.{no_blocks, claim-Buddies}
use lume.Pmm.Init.{pmm_empty}
use lume.Pmm.Boot.{pmm_empty-Buddies, pmm_empty-Below}
use lume.Addr.{page_align_up, page_align_down}
use lume.Vma.{VmSpace, vmm_unmap_user, user_va_limit}
use lume.Vma.Areas.{IsValid}
use lume.Vma.Unmap.{UnmapOutcome, vmm_unmap_user-UnmapOutcome}
use lume.Pmap.{
  Tables, Memory, has, pte_to_pa, pa_to_pte, pte_v, pte_rwx, find_leaf, lookup, unmap, protect,
  make_cow, pte_cow, has, pte_w, store, find_leaf, map, leaf_pte, vm_perm_to_pte,
}
use lume.Pmap.Shape.{Shape-store, Owner, unused, top, middle, bottom, Shape, same_page}
use lume.Pmap.Edit.{EditOutcome, lookup-unmap, protect-EditOutcome, make_cow-EditOutcome}
use lume.Pmap.Map.{Tree}
use lume.Pmap.Install.{MapOutcome, map-MapOutcome}
use lume.Pmap.Perm.{Grants, vm_perm_to_pte-Grants}
use lume.Pmap.Pages.{Backed, pmap_pages, pmap_pages-PagesLaws}
use lume.Pmap.Wrap.{unmap_wraps}
use lume.Pmap.Protects.{pmap_protection, pmap_protection-ProtectionLaws}
use lume.Vma.Protect.{vmm_protect_user}
use lume.Vma.Protect.Outcome.{ProtectOutcome, vmm_protect_user-ProtectOutcome}

abbrev tables : Tables
tables t i =
    if (t == 0x1000) && (i == 0)
    then 0x801
    else (if (t == 0x2000) && (i == 0)
        then 0xc01
        else (if (t == 0x3000) && (i == 5) then 0x24df else 0))

abbrev owners : ℕ → Owner
owners t =
    if t == 0x1000
    then top
    else (if t == 0x2000 then middle 0 else (if t == 0x3000 then bottom 0 0 else unused))

finds : (lookup tables 0x1000 0x5123 ≡ some 0x9000) × (lookup tables 0x1000 0x6000 ≡ none)
unfolding lookup find_leaf
finds = (refl, refl)

middle_number : (t i : ℕ) → owners t ≡ middle i → (t ≡ 0x2000) × (i ≡ 0)
middle_number t i e = elim (Bool-cases (t == 0x1000)) [
  | inl one ↦ cc (rw one at e)
  | inr other ↦ elim (Bool-cases (t == 0x2000)) [
    | inl two ↦ ((==_iff t 0x2000).0 two, sym (ap number (rw (other, two) at e)))
    | inr neither ↦ elim (Bool-cases (t == 0x3000)) [
      | inl three ↦ cc (rw (other, neither, three) at e)
      | inr away ↦ cc (rw (other, neither, away) at e)
    ]
  ]
]
  where
    number : Owner → ℕ
    number (middle x) = x
    number _ = 0

tables-Shape : Shape tables 0x1000 owners
tables-Shape = record {
  root = refl;
  middles = λ i on. elim (Bool-cases (i == 0)) [
    | inl first ↦ rw first (refl, ap middle (sym ((==_iff i 0).0 first)))
    | inr other ↦ cc (rw other at on)
  ];
  bottoms = λ t i j e on. let (at, zeroth) = middle_number t i e in go t i j at zeroth on;
}
  where
    go :
        (t i j : ℕ)
        → t ≡ 0x2000
        → i ≡ 0
        → has (tables t j) pte_v ≡ true
        → (has (tables t j) pte_rwx ≡ false) × (owners (pte_to_pa (tables t j)) ≡ bottom i j)
    go t i j at zeroth on = elim (Bool-cases (j == 0)) [
      | inl first ↦
          let two : (t == 0x2000) ≡ true = (==_iff t 0x2000).1 at in
          let one : (t == 0x1000) ≡ false = ground arith in
          rw (one, two, first)
            (refl, ap (λ x. bottom x 0) (sym zeroth) ∙ ap (bottom i) (sym ((==_iff j 0).0 first)))
      | inr other ↦
          let two : (t == 0x3000) ≡ false = ground arith in
          let one : (t == 0x1000) ≡ false = ground arith in cc (rw (one, other, two) at on)
    ]

lookup-unmap_example :
    Shape (unmap tables 0x1000 0x5000) 0x1000 owners
    × ((b : ℕ)
        → lookup (unmap tables 0x1000 0x5000) 0x1000 b
          ≡ (if same_page 0x5000 b then none else lookup tables 0x1000 b))
lookup-unmap_example = lookup-unmap tables 0x1000 0x5000 owners tables-Shape

protect-EditOutcome_example :
    EditOutcome tables 0x1000 owners 0x5000
      (λ pte. pa_to_pte (pte_to_pa pte) (bit_or 2 pte_v))
      (protect tables 0x1000 0x5000 2)
protect-EditOutcome_example = protect-EditOutcome tables 0x1000 0x5000 2 owners tables-Shape

make_cow-EditOutcome_example :
    EditOutcome tables 0x1000 owners 0x5000
      (λ pte. bit_or (bit_and pte (not64 pte_w)) pte_cow)
      (make_cow tables 0x1000 0x5000)
make_cow-EditOutcome_example = make_cow-EditOutcome tables 0x1000 0x5000 owners tables-Shape

vm_perm_to_pte-Grants_example : Grants 11 (vm_perm_to_pte 11)
vm_perm_to_pte-Grants_example = vm_perm_to_pte-Grants 11

unmap_wraps_example :
    (0x5000 + 2 ^ 39 < user_va_limit)
    × (lookup (unmap tables 0x1000 (0x5000 + 2 ^ 39)) 0x1000 0x5000 ≡ none)
unmap_wraps_example =
    unmap_wraps tables 0x1000 0x5000 owners tables-Shape (omega arith) (omega arith)

-- Eight pages of RAM at 0x80000000, of which the fourth is an empty root.
abbrev pages : Pmm
pages = pmm_empty 8 0x80000000 8

abbrev root_block : Blocks
root_block = add no_blocks 0 3

pages-Sound : Sound pages root_block
unfolding pmm_empty
pages-Sound = record {
  cached = record {
    buddies =
        Buddies-ext pages root_block (out [] root_block) nothing nothing (λ k q. ground arith)
          (λ a. refl)
          (claim-Buddies pages 0 3 (pmm_empty-Buddies 8 0x80000000 8)
            (pmm_empty-Below 8 0x80000000 8 3) (omega arith) (3, refl) (omega arith));
    unique = tt;
    apart = λ q m. cc m;
    count = refl;
  };
  small = omega arith;
  limits = omega arith;
}

abbrev memory : Memory
memory = record {
  boot = record { mem_base = 0x80000000; mem_size = 0x8000; reserved = []; active = false };
  pmm = pages;
  tables = λ t i. 0;
}

abbrev root_owner : ℕ → Owner
root_owner t = if t == 0x80003000 then top else unused

memory-Tree : Tree memory 0x80003000 root_block root_owner
unfolding pmm_empty
memory-Tree = record {
  ready = record {
    late = refl;
    sound = pages-Sound;
    ram = omega arith;
    whole = refl;
    above = omega arith;
    placed = λ t used. elim (Bool-cases (t == 0x80003000)) [
      | inl root ↦ (3, refl, omega (arith, (==_iff t 0x80003000).0 root))
      | inr other ↦ absurd (used (rw other refl))
    ];
  };
  shape = record { root = refl; middles = λ i on. cc on; bottoms = λ t i j e on. cc on };
}

map-MapOutcome_example :
    MapOutcome memory 0x80003000 0x5000
      (leaf_pte 0x80007000 19)
      root_block
      root_owner
      (map memory 0x80003000 0x5000 0x80007000 19)
map-MapOutcome_example =
    map-MapOutcome memory 0x80003000 root_block root_owner 0x5000 0x80007000 19 memory-Tree

-- The page at 0x5000 is marked, and may not be written.
abbrev shared : Tables
shared = store tables 0x3000 5 0x25db

shared-Shape : Shape shared 0x1000 owners
shared-Shape = Shape-store tables 0x1000 owners tables-Shape 0x3000 0 0 5 0x25db refl

abbrev backing : Backed 0x1000 owners
backing = ((shared, shared-Shape), some pages)

-- An address space whose area is backed by the page at 0x5000.
abbrev space : VmSpace (Backed 0x1000 owners)
space = record {
  areas = record { start = 0x4000; end = 0x7000; perm = 11 } ∷ [];
  pages = ((tables, tables-Shape), some pages);
  brk_start = 0;
  brk_end = 0;
}

space-IsValid : IsValid space.areas
space-IsValid =
    (omega arith, (record { below = omega arith; from_page = refl; to_page = refl }, tt))

vmm_unmap_user-UnmapOutcome_example :
    UnmapOutcome
      (pmap_pages 0x1000 owners)
      true
      space
      (page_align_down 0x5000)
      (page_align_up 1)
      (vmm_unmap_user (pmap_pages 0x1000 owners) true space 0x5000 1)
unfolding page_align_down lume.Word.mask_down page_align_up
vmm_unmap_user-UnmapOutcome_example =
    vmm_unmap_user-UnmapOutcome (pmap_pages 0x1000 owners) (pmap_pages-PagesLaws 0x1000 owners) true
      space 0x5000 1 space-IsValid (omega arith) (omega arith) (inl (omega arith))

vmm_protect_user-ProtectOutcome_example :
    ProtectOutcome
      (pmap_pages 0x1000 owners)
      (pmap_protection 0x1000 owners)
      (pmap_protection-ProtectionLaws 0x1000 owners)
      true
      true
      space
      (page_align_down 0x5000)
      (page_align_up 1)
      1
      (vmm_protect_user
        (pmap_pages 0x1000 owners)
        (pmap_protection 0x1000 owners)
        true
        true
        space
        0x5000
        1
        1)
unfolding page_align_down lume.Word.mask_down page_align_up
vmm_protect_user-ProtectOutcome_example =
    vmm_protect_user-ProtectOutcome (pmap_pages 0x1000 owners) (pmap_protection 0x1000 owners)
      (pmap_pages-PagesLaws 0x1000 owners) (pmap_protection-ProtectionLaws 0x1000 owners) true true
      space 0x5000 1 1 space-IsValid (omega arith) (omega arith) (inl (omega arith))
      (inr (inl refl))

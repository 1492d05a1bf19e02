-- ===== src/Vma/Protect/Laws.antt =====
-- What `vmm_protect_user` of na/mm/vma.cc relies on of the page tables, and its work on one page.
use lume.Common.{
  ℕ, ◌^◌, ◌%◌, ◌<◌, ◌≡◌, refl, ap, ◌∙◌, sym, subst, Bool, true, false, ◌&&◌, ◌||◌, none, some, ◌==◌,
  ==_iff, if◌then◌else◌, arith, Bool-cases, Option-cases, inl, inr, pos, bit_or,
}
use lume.Pmap.{has, pte_v, pte_cow, pte_rwx}
use lume.Vma.{Pages, vm_user}
use lume.Vma.Release.{PagesLaws, va_span, is_some}
use lume.Vma.Protect.{Protection, page_flags, protect_page}

-- A whole page among the addresses that the page tables tell apart.
abbrev pub PageAt : ℕ → Type 0
PageAt a = (a % 4096 ≡ 0) × (a < va_span)

-- The bits of an entry that are asked for: any but the one that makes it valid.
abbrev pub Mask : ℕ → Type 0
Mask mask = (mask < 2 ^ 10) × (has pte_v mask ≡ false)

-- Flags of a leaf.
pub record LeafFlags (flags : ℕ) : Type 0 where
  pub small : flags < 2 ^ 10
  pub access : has flags pte_rwx ≡ true

-- `allows` reads the bits of a page's entry, of which `is_cow` is one. `protect` finds each page that is
-- mapped and changes its flags only.
pub record ProtectionLaws {M : Type 0} (p : Pages M) (q : Protection M) : Type 0 where
  pub allows : M → ℕ → ℕ → Bool
  pub is_cow-allows : (m : M) (b : ℕ) → q.is_cow m b ≡ allows m b pte_cow
  pub protect_answer :
      (m : M) (a pa flags : ℕ) → p.lookup m a ≡ some pa → (q.protect m a flags).0 ≡ pos 0
  pub lookup-protect :
      (m : M) (a b pa flags : ℕ)
      → PageAt a
      → PageAt b
      → p.lookup m a ≡ some pa
      → LeafFlags flags
      → p.lookup (q.protect m a flags).1 b ≡ p.lookup m b
  pub allows-protect :
      (m : M) (a b pa flags mask : ℕ)
      → PageAt a
      → PageAt b
      → p.lookup m a ≡ some pa
      → LeafFlags flags
      → Mask mask
      → allows (q.protect m a flags).1 b mask ≡ (if b == a then has flags mask else allows m b mask)
  pub allows-unmap :
      (m : M) (a b mask : ℕ)
      → PageAt a
      → PageAt b
      → allows (p.unmap m a) b mask ≡ (if b == a then false else allows m b mask)
  pub allows-page_decref :
      (m : M) (pa b mask : ℕ) → allows (p.page_decref m pa) b mask ≡ allows m b mask

module _ {M : Type 0} (p : Pages M) (q : Protection M) (laws : PagesLaws p)
    (marks : ProtectionLaws p q) (perm : ℕ) where
  abbrev pub new_perm : ℕ
  new_perm = bit_or perm vm_user

  -- The bit of a page that is hit.
  abbrev new_bit : M → ℕ → ℕ → Bool
  new_bit m b mask = if perm == 0 then false else has (page_flags q m new_perm b) mask

  -- The pages that are hit are gone, or have the flags for the new permissions.
  pub record Repaged (hit : ℕ → Bool) (m m' : M) : Type 0 where
    pub lookups :
        (b : ℕ) → PageAt b → p.lookup m' b ≡ (if perm == 0 && hit b then none else p.lookup m b)
    pub bits :
        (b mask : ℕ)
        → PageAt b
        → Mask mask
        → marks.allows m' b mask
          ≡ (if hit b && is_some (p.lookup m b) then new_bit m b mask else marks.allows m b mask)

  pub Repaged-none : (m : M) → Repaged (λ b. false) m m
  Repaged-none m = record { lookups = λ b h. ground arith; bits = λ b mask h k. refl }

  pub Repaged-ext :
      (hit hit' : ℕ → Bool) (m m' : M)
      → ((b : ℕ) → PageAt b → hit b ≡ hit' b)
      → Repaged hit m m'
      → Repaged hit' m m'
  Repaged-ext hit hit' m m' e r = record {
    lookups =
        λ b h. r.lookups b h ∙ ap (λ x. if perm == 0 && x then none else p.lookup m b) (e b h);
    bits = λ b mask h k.
        r.bits b mask h k
        ∙ ap (λ x. if x && is_some (p.lookup m b) then new_bit m b mask else marks.allows m b mask)
            (e b h);
  }

  pte_cow-Mask : Mask pte_cow
  pte_cow-Mask = (omega arith, refl)

  -- One after the other, on different pages.
  pub Repaged-trans :
      (hit hit' : ℕ → Bool) (m m' m'' : M)
      → ((b : ℕ) → PageAt b → hit b ≡ true → hit' b ≡ false)
      → Repaged hit m m'
      → Repaged hit' m' m''
      → Repaged (λ b. hit b || hit' b) m m''
  Repaged-trans hit hit' m m' m'' apart r s = record {
    lookups = λ b h. elim (Bool-cases (hit b)) [
      | inl first ↦
          let away = apart b h first in
          s.lookups b h ∙ rw away (ground (arith, r.lookups b h, first))
      | inr other ↦ rw other (s.lookups b h ∙ ground (arith, r.lookups b h, other))
    ];
    bits = λ b mask h k. elim (Bool-cases (hit b)) [
      | inl first ↦
          let away = apart b h first in
          rw first (s.bits b mask h k ∙ rw away (r.bits b mask h k ∙ rw first refl))
      | inr other ↦
          let found : p.lookup m' b ≡ p.lookup m b = ground (arith, r.lookups b h, other) in
          let bit : (n : ℕ) → Mask n → marks.allows m' b n ≡ marks.allows m b n =
            λ n g. r.bits b n h g ∙ rw other refl in
          let shared : q.is_cow m' b ≡ q.is_cow m b =
            marks.is_cow-allows m' b ∙ bit pte_cow pte_cow-Mask ∙ sym (marks.is_cow-allows m b) in
          rw other (s.bits b mask h k ∙ rw (found, shared, bit mask k) refl)
    ];
  }

  page_absent :
      (m : M) (addr : ℕ)
      → p.lookup m addr ≡ none
      → protect_page p q perm new_perm m addr ≡ (pos 0, m)
  unfolding protect_page
  page_absent m addr e = rw (protect_page, e) refl

  page_gone :
      (m : M) (addr pa : ℕ)
      → p.lookup m addr ≡ some pa
      → (perm == 0) ≡ true
      → protect_page p q perm new_perm m addr ≡ (pos 0, p.unmap (p.page_decref m pa) addr)
  unfolding protect_page
  page_gone m addr pa e gone = rw (protect_page, e, gone) refl

  page_kept :
      (m : M) (addr pa : ℕ)
      → p.lookup m addr ≡ some pa
      → (perm == 0) ≡ false
      → protect_page p q perm new_perm m addr ≡ q.protect m addr (page_flags q m new_perm addr)
  unfolding protect_page
  page_kept m addr pa e kept = rw (protect_page, e, kept) refl

  module _
      (leaves : (m : M) (b : ℕ) → (perm == 0) ≡ false → LeafFlags (page_flags q m new_perm b)) where
    pub protect_page-Repaged :
        (m : M) (addr : ℕ)
        → PageAt addr
        → ((protect_page p q perm new_perm m addr).0 ≡ pos 0)
          × Repaged (λ b. b == addr) m (protect_page p q perm new_perm m addr).1
    protect_page-Repaged m addr at = elim (Option-cases (p.lookup m addr)) [
      | inl absent ↦
          subst (λ r. (r.0 ≡ pos 0) × Repaged (λ b. b == addr) m r.1)
            (sym (page_absent m addr absent))
            (
              refl,
              record {
                lookups = λ b h. elim (Bool-cases (b == addr)) [
                  | inl here ↦
                      let same : b ≡ addr = (==_iff b addr).0 here in
                      let void = ap (p.lookup m) same ∙ absent in ground (arith, void)
                  | inr other ↦ rw other (ground arith)
                ];
                bits = λ b mask h k. elim (Bool-cases (b == addr)) [
                  | inl here ↦
                      let same : b ≡ addr = (==_iff b addr).0 here in
                      let void = ap (p.lookup m) same ∙ absent in rw (here, void) refl
                  | inr other ↦ rw other refl
                ];
              },
            )
      | inr (pa, found) ↦ elim (Bool-cases (perm == 0)) [
        | inl gone ↦
            subst (λ r. (r.0 ≡ pos 0) × Repaged (λ b. b == addr) m r.1)
              (sym (page_gone m addr pa found gone))
              (
                refl,
                record {
                  lookups = λ b h.
                      laws.lookup-unmap (p.page_decref m pa) addr b at.0 h.0 at.1 h.1
                      ∙ ap (λ x. if b == addr then none else x) (laws.lookup-page_decref m pa b)
                      ∙ rw gone refl;
                  bits = λ b mask h k.
                      marks.allows-unmap (p.page_decref m pa) addr b mask at h
                      ∙ ap (λ x. if b == addr then false else x)
                          (marks.allows-page_decref m pa b mask)
                      ∙ elim (Bool-cases (b == addr)) [
                        | inl here ↦
                            let there = ap (p.lookup m) ((==_iff b addr).0 here) ∙ found in
                            rw (here, there, gone) refl
                        | inr other ↦ rw other refl
                      ];
                },
              )
        | inr kept ↦
            let flags = page_flags q m new_perm addr in
            let leaf = leaves m addr kept in
            subst (λ r. (r.0 ≡ pos 0) × Repaged (λ b. b == addr) m r.1)
              (sym (page_kept m addr pa found kept))
              (
                marks.protect_answer m addr pa flags found,
                record {
                  lookups =
                      λ b h. marks.lookup-protect m addr b pa flags at h found leaf ∙ rw kept refl;
                  bits = λ b mask h k.
                      marks.allows-protect m addr b pa flags mask at h found leaf k
                      ∙ elim (Bool-cases (b == addr)) [
                        | inl here ↦
                            let same = (==_iff b addr).0 here in
                            let there = ap (p.lookup m) same ∙ found in
                            rw (here, there, kept)
                              (ap (λ x. has (page_flags q m new_perm x) mask) (sym same))
                        | inr other ↦ rw other refl
                      ];
                },
              )
      ]
    ]

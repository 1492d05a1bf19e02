-- ===== src/Vma/Protect/Permitted.antt =====
-- `vmm_protect_user` of na/mm/vma.cc: the pages of the range and the others.
use lume.Common.{
  ℕ, ◌≡◌, refl, ap, ◌∙◌, true, false, ◌&&◌, not, none, some, ◌==◌, if◌then◌else◌, arith, bit_or,
}
use lume.Vma.{Pages, vm_user}
use lume.Vma.Release.{PagesLaws, within}
use lume.Vma.Protect.{Protection, page_flags}
use lume.Pmap.{has, pte_r, pte_w, pte_x, pte_u, pte_cow}
use lume.Vma.Protect.Laws.{PageAt, Mask, ProtectionLaws, Repaged}
use lume.Vma.Protect.Flags.{Access, page_flags-Access}

-- What becomes of the pages of the range: without permissions they go; otherwise they stay where they
-- are, and their entries allow what the permissions say. Nothing else changes.
pub record Repermitted {M : Type 0} (p : Pages M) (q : Protection M) (marks : ProtectionLaws p q)
    (perm start end : ℕ) (m m' : M) : Type 0 where
  pub lookups :
      (b : ℕ)
      → PageAt b
      → p.lookup m' b ≡ (if perm == 0 && within start end b then none else p.lookup m b)
  pub others :
      (b mask : ℕ)
      → PageAt b
      → Mask mask
      → within start end b ≡ false
      → marks.allows m' b mask ≡ marks.allows m b mask
  pub access :
      (b pa : ℕ)
      → PageAt b
      → within start end b ≡ true
      → (perm == 0) ≡ false
      → p.lookup m b ≡ some pa
      → Access
          (has perm 1)
          (has perm 2)
          (has perm 4)
          (marks.allows m b pte_cow)
          (λ mask. marks.allows m' b mask)

pub Repaged-Repermitted :
    {M : Type 0} (p : Pages M) (q : Protection M) (laws : PagesLaws p) (marks : ProtectionLaws p q)
    (perm start end : ℕ) (m m' : M)
    → Repaged p q laws marks perm (within start end) m m'
    → Repermitted p q marks perm start end m m'
Repaged-Repermitted p q laws marks perm start end m m' r = record {
  lookups = r.lookups;
  others = λ b mask at k outside. r.bits b mask at k ∙ rw outside refl;
  access = λ b pa at inside some_perm found.
      let bit : (mask : ℕ)
          → Mask mask
          → marks.allows m' b mask ≡ has (page_flags q m (bit_or perm vm_user) b) mask =
        λ mask k. r.bits b mask at k ∙ rw (inside, found, some_perm) refl in
      let g = page_flags-Access q m perm b in
      let shared = marks.is_cow-allows m b in
      record {
        read = bit pte_r (omega arith, refl) ∙ g.read;
        write = bit pte_w (omega arith, refl) ∙ g.write ∙ ap (λ c. has perm 2 && not c) shared;
        exec = bit pte_x (omega arith, refl) ∙ g.exec;
        user = bit pte_u (omega arith, refl) ∙ g.user;
        cow = bit pte_cow (omega arith, refl) ∙ g.cow ∙ ap (λ c. has perm 2 && c) shared;
      };
}

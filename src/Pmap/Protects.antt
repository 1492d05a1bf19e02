-- ===== src/Pmap/Protects.antt =====
-- `protect` and `is_cow` of na/arch/riscv/mm/pmap.cc as `vmm_protect_user` of na/mm/vma.cc uses them.
use lume.Word.Bits.{bit_and-low}
use lume.Common.{
  ℕ, ◌/◌, ◌^◌, ◌%◌, ◌<◌, ◌≡◌, refl, ap, ◌∙◌, sym, Bool, true, false, ◌||◌, Option, none, some, ◌==◌,
  ==_iff, if◌then◌else◌, Bool-cases, inl, inr, arith, bit_or, ℤ, pos,
}
use lume.Vma.Protect.{Protection}
use lume.Vma.Protect.Laws.{PageAt, Mask, LeafFlags, ProtectionLaws}
use lume.Pmap.{Tables, has, pte_to_pa, pa_to_pte, pte_v, pte_rwx, pte_cow, lookup, protect, is_cow}
use lume.Pmap.Bits.{has-bit_or, bit_or-lt, has-pa_to_pte, pte_to_pa-pa_to_pte}
use lume.Pmap.Shape.{Owner, Shape, decode, leaf}
use lume.Pmap.Leaf.{address}
use lume.Pmap.Edit.{
  Edited, cow_of, is_cow-leaf, lookup-leaf, unmap-Edited, EditOutcome, fault, edited,
  protect-EditOutcome,
}
use lume.Pmap.Pages.{Backed, pmap_pages, same_page-Whole}

-- A bit of a leaf.
abbrev pub bit_of : ℕ → Option ℕ → Bool
bit_of mask none = false
bit_of mask (some pte) = has pte mask

pub pte_to_pa-lt : (pte : ℕ) → pte_to_pa pte < 2 ^ 56
pte_to_pa-lt pte = omega (arith, bit_and-low 44 (pte / 2 ^ 10))

pte_to_pa-aligned : (pte : ℕ) → pte_to_pa pte % 4096 ≡ 0
pte_to_pa-aligned pte = omega (arith, bit_and-low 44 (pte / 2 ^ 10))

bit_of-cow : (o : Option ℕ) → cow_of o ≡ bit_of pte_cow o
bit_of-cow none = refl
bit_of-cow (some pte) = refl

-- The entry that `protect` writes.
abbrev renewed : ℕ → ℕ → ℕ
renewed flags pte = pa_to_pte (pte_to_pa pte) (bit_or flags pte_v)

module _ (flags pte : ℕ) (l : LeafFlags flags) where
  renewed_small : bit_or flags pte_v < 2 ^ 10
  renewed_small = bit_or-lt 10 flags pte_v l.small (omega arith)

  has-renewed :
      (mask : ℕ) → mask < 2 ^ 10 → has (renewed flags pte) mask ≡ (has flags mask || has pte_v mask)
  has-renewed mask h =
      has-pa_to_pte (pte_to_pa pte) (bit_or flags pte_v) mask (pte_to_pa-lt pte) renewed_small h
      ∙ has-bit_or flags pte_v mask

  renewed-leaf : decode (renewed flags pte) ≡ some (renewed flags pte)
  renewed-leaf =
      let valid : has (renewed flags pte) pte_v ≡ true =
        has-renewed pte_v (omega arith) ∙ ground arith in
      let access : has (renewed flags pte) pte_rwx ≡ true =
        has-renewed pte_rwx (omega arith) ∙ rw (l.access) refl in
      rw (valid, access) refl

  renewed-place : pte_to_pa (renewed flags pte) ≡ pte_to_pa pte
  renewed-place =
      pte_to_pa-pa_to_pte (pte_to_pa pte) (bit_or flags pte_v) (pte_to_pa-lt pte)
        (pte_to_pa-aligned pte) renewed_small

module _ (root_pa : ℕ) (own : ℕ → Owner) where
  EditOutcome-Shape :
      (m : Tables) (va : ℕ) (f : ℕ → ℕ) (r : ℤ × Tables)
      → Shape m root_pa own
      → EditOutcome m root_pa own va f r
      → Shape r.1 root_pa own
  EditOutcome-Shape m va f r g (fault e) = g
  EditOutcome-Shape m va f r g (edited pte m' e h) = h.shape

  pub protect-Shape :
      (m : Tables) (va flags : ℕ)
      → Shape m root_pa own
      → Shape (protect m root_pa va flags).1 root_pa own
  protect-Shape m va flags g =
      EditOutcome-Shape m va (renewed flags) (protect m root_pa va flags) g
        (protect-EditOutcome m root_pa va flags own g)

  abbrev pub pmap_protection : Protection (Backed root_pa own)
  pmap_protection = record {
    is_cow = λ t b. is_cow t.0.0 root_pa b;
    protect = λ t a flags.
        let r = protect t.0.0 root_pa a flags in
        (r.0, ((r.1, protect-Shape t.0.0 a flags t.0.1), t.1));
  }

  -- What `protect` does where a page is mapped.
  module _ (m : Tables) (g : Shape m root_pa own) (a pa flags : ℕ)
      (found : lookup m root_pa a ≡ some pa) where
    answer_at : (r : ℤ × Tables) → EditOutcome m root_pa own a (renewed flags) r → r.0 ≡ pos 0
    answer_at r (fault e) = cc (e, found)
    answer_at r (edited pte m' e h) = refl

    module _ (l : LeafFlags flags) (at : PageAt a) (b : ℕ) (at' : PageAt b) where
      -- The page's own entry and the others.
      leaf_at :
          (pte : ℕ) (m' : Tables)
          → Edited m m' root_pa own a (decode (renewed flags pte))
          → leaf m' root_pa b ≡ (if b == a then some (renewed flags pte) else leaf m root_pa b)
      leaf_at pte m' h =
          h.leaves b ∙ rw (same_page-Whole a b at.0 at'.0 at.1 at'.1, renewed-leaf flags pte l) refl

      lookup_at :
          (r : ℤ × Tables)
          → EditOutcome m root_pa own a (renewed flags) r
          → lookup r.1 root_pa b ≡ lookup m root_pa b
      lookup_at r (fault e) = refl
      lookup_at r (edited pte m' e h) =
          lookup-leaf m' root_pa b own h.shape
          ∙ ap address (leaf_at pte m' h)
          ∙ elim (Bool-cases (b == a)) [
            | inl here ↦
                let same : b ≡ a = (==_iff b a).0 here in
                rw here (
                  ap (λ x. some x) (renewed-place flags pte l)
                  ∙ sym (ap (lookup m root_pa) same ∙ lookup-leaf m root_pa a own g ∙ ap address e))
            | inr other ↦ rw other (sym (lookup-leaf m root_pa b own g))
          ]

      bit_at :
          (mask : ℕ) (r : ℤ × Tables)
          → Mask mask
          → EditOutcome m root_pa own a (renewed flags) r
          → bit_of mask (leaf r.1 root_pa b)
            ≡ (if b == a then has flags mask else bit_of mask (leaf m root_pa b))
      bit_at mask r k (fault e) = cc (e, found)
      bit_at mask r k (edited pte m' e h) =
          ap (bit_of mask) (leaf_at pte m' h) ∙ elim (Bool-cases (b == a)) [
            | inl here ↦ rw here (has-renewed flags pte l mask k.0 ∙ rw (k.1) (ground arith))
            | inr other ↦ rw other refl
          ]

  -- The operations of the page tables keep the laws that vma.cc relies on when it protects pages.
  pub pmap_protection-ProtectionLaws : ProtectionLaws (pmap_pages root_pa own) pmap_protection
  pmap_protection-ProtectionLaws = record {
    allows = λ t b mask. bit_of mask (leaf t.0.0 root_pa b);
    is_cow-allows =
        λ t b. is_cow-leaf t.0.0 root_pa b own t.0.1 ∙ bit_of-cow (leaf t.0.0 root_pa b);
    protect_answer = λ t a pa flags found.
        answer_at t.0.0 t.0.1 a pa flags found (protect t.0.0 root_pa a flags)
          (protect-EditOutcome t.0.0 root_pa a flags own t.0.1);
    lookup-protect = λ t a b pa flags at at' found l.
        lookup_at t.0.0 t.0.1 a pa flags found l at b at' (protect t.0.0 root_pa a flags)
          (protect-EditOutcome t.0.0 root_pa a flags own t.0.1);
    allows-protect = λ t a b pa flags mask at at' found l k.
        bit_at t.0.0 t.0.1 a pa flags found l at b at' mask (protect t.0.0 root_pa a flags) k
          (protect-EditOutcome t.0.0 root_pa a flags own t.0.1);
    allows-unmap = λ t a b mask at at'.
        ap (bit_of mask) ((unmap-Edited t.0.0 root_pa a own t.0.1).leaves b)
        ∙ rw (same_page-Whole a b at.0 at'.0 at.1 at'.1)
            (elim (Bool-cases (b == a)) [ inl e ↦ rw e refl | inr e ↦ rw e refl ]);
    allows-page_decref = λ t pa b mask. refl;
  }

  -- What those laws read is the leaf.
  pub allows-leaf :
      (t : Backed root_pa own) (b mask : ℕ)
      → (pmap_protection-ProtectionLaws).allows t b mask ≡ bit_of mask (leaf t.0.0 root_pa b)
  unfolding pmap_protection-ProtectionLaws
  allows-leaf t b mask = refl

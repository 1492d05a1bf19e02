-- ===== src/Vma/Release.antt =====
-- The page loops of na/mm/vma.cc: which entries of the page tables are left.
use lume.Common.{
  ℕ, zero, suc, ◌+◌, ◌*◌, ◌%◌, ◌≤◌, ◌<◌, ◌≡◌, refl, ap, ◌∙◌, Bool, true, false, ◌&&◌, Option, none,
  some, ◌==◌, ==_iff, leb, ltb, if◌then◌else◌, arith, Bool-cases, Option-cases, inl, inr,
}
use lume.Word.{add64}
use lume.Vma.{Pages, release_page, release_pages}

-- The addresses that the three levels of page tables tell apart: 2 ^ 39.
abbrev pub va_span : ℕ
va_span = 0x8000000000

-- What is relied on of the page tables: at whole pages among these addresses, `unmap` removes one
-- entry, and the counts of the pages are apart from the entries.
pub record PagesLaws {M : Type 0} (p : Pages M) : Type 0 where
  pub lookup-unmap :
      (m : M) (a b : ℕ)
      → a % 4096 ≡ 0
      → b % 4096 ≡ 0
      → a < va_span
      → b < va_span
      → p.lookup (p.unmap m a) b ≡ (if b == a then none else p.lookup m b)
  pub lookup-page_decref : (m : M) (pa b : ℕ) → p.lookup (p.page_decref m pa) b ≡ p.lookup m b

abbrev pub within : ℕ → ℕ → ℕ → Bool
within from to a = leb from a && ltb a to

abbrev pub is_some : Option ℕ → Bool
is_some none = false
is_some (some _) = true

module _ {M : Type 0} (p : Pages M) (laws : PagesLaws p) where
  lookup-release_page :
      (m : M) (addr b : ℕ)
      → addr % 4096 ≡ 0
      → b % 4096 ≡ 0
      → addr < va_span
      → b < va_span
      → p.lookup (release_page p m addr) b ≡ (if b == addr then none else p.lookup m b)
  unfolding release_page
  lookup-release_page m addr b h k low below = elim (Option-cases (p.lookup m addr)) [
    | inl absent ↦
        rw (release_page, absent)
          (elim (Bool-cases (b == addr)) [
            | inl here ↦ rw here (ap (p.lookup m) ((==_iff b addr).0 here) ∙ absent)
            | inr other ↦ rw other refl
          ])
    | inr (pa, found) ↦
        rw (release_page, found)
          (laws.lookup-unmap (p.page_decref m pa) addr b h k low below
            ∙ ap (λ old. if b == addr then none else old) (laws.lookup-page_decref m pa b))
  ]

  pub lookup-release_pages :
      (n : ℕ) (m : M) (addr b : ℕ)
      → addr % 4096 ≡ 0
      → b % 4096 ≡ 0
      → b < va_span
      → addr + n * 4096 ≤ va_span
      → p.lookup (release_pages p n m addr) b
        ≡ (if within addr (addr + n * 4096) b then none else p.lookup m b)
  unfolding release_pages
  lookup-release_pages zero m addr b h k below room = ground arith
  lookup-release_pages (suc n) m addr b h k below room =
      let next : add64 addr 4096 ≡ addr + 4096 = omega arith in
      let rest =
        lookup-release_pages n (release_page p m addr) (addr + 4096) b (omega arith) k below
          (omega arith) in
      rw next (rest ∙ ground (arith, lookup-release_page m addr b h k (omega arith) below))

-- ===== src/Vma/Protect/Walk.antt =====
-- The loops of `vmm_protect_user` of na/mm/vma.cc over the pages of an area and over the areas.
use lume.Common.{
  ℕ, zero, suc, ◌+◌, ◌*◌, ◌%◌, ◌≤◌, ◌≡◌, refl, ap, Bool, false, ◌&&◌, ◌||◌, List, [], ◌∷◌, ◌==◌,
  leb, arith, Bool-cases, inl, inr, All, pos,
}
use lume.Word.{add64}
use lume.Vma.{Area, Pages, page_count}
use lume.Vma.Areas.{perm_at, Ascends, Fits, perm_at_below}
use lume.Vma.Release.{PagesLaws, va_span, within, is_some}
use lume.Vma.Protect.{Protection, is_negative, page_flags, protect_page, protect_area, protect_walk}
use lume.Vma.Protect.Splits.{Cut}
use lume.Vma.Protect.Laws.{
  ProtectionLaws, LeafFlags, new_perm, Repaged, Repaged-none, Repaged-ext, Repaged-trans,
  protect_page-Repaged,
}

module _ {M : Type 0} (p : Pages M) (q : Protection M) (laws : PagesLaws p)
    (marks : ProtectionLaws p q) (perm : ℕ)
    (leaves : (m : M) (b : ℕ)
      → (perm == 0) ≡ false
      → LeafFlags (page_flags q m (new_perm p q laws marks perm) b)) where
  abbrev new : ℕ
  new = new_perm p q laws marks perm

  abbrev Done : (ℕ → Bool) → M → M → Type 0
  Done hit m m' = Repaged p q laws marks perm hit m m'

  protect_area-Repaged :
      (n : ℕ) (m : M) (addr : ℕ)
      → addr % 4096 ≡ 0
      → addr + n * 4096 ≤ va_span
      → ((protect_area p q perm new n m addr).0 ≡ pos 0)
        × Done (within addr (addr + n * 4096)) m (protect_area p q perm new n m addr).1
  unfolding protect_area
  protect_area-Repaged zero m addr h room = (
    refl,
    Repaged-ext p q laws marks perm (λ b. false) (within addr (addr + 0 * 4096)) m m
        (λ b at. ground arith) (Repaged-none p q laws marks perm m),
  )
  protect_area-Repaged (suc n) m addr h room =
      let one = protect_page-Repaged p q laws marks perm leaves m addr (h, omega arith) in
      let m' = (protect_page p q perm new m addr).1 in
      let next : add64 addr 4096 ≡ addr + 4096 = omega arith in
      let rest = protect_area-Repaged n m' (addr + 4096) (omega arith) (omega arith) in
      let fine : is_negative (protect_page p q perm new m addr).0 ≡ false = ap is_negative one.0 in
      rw (fine, next)
        (
          rest.0,
          Repaged-ext p q laws marks perm
              (λ b. b == addr || within (addr + 4096) (addr + 4096 + n * 4096) b)
              (within addr (addr + suc n * 4096)) m (protect_area p q perm new n m' (addr + 4096)).1
              (λ b at. ground (arith, at, h))
              (Repaged-trans p q laws marks perm (λ b. b == addr)
                (within (addr + 4096) (addr + 4096 + n * 4096)) m m'
                (protect_area p q perm new n m' (addr + 4096)).1 (λ b at e. ground (arith, e)) one.1
                rest.1),
        )

  module _ (va end : ℕ) (high : end ≤ va_span) where
    abbrev pub hits : List Area → ℕ → Bool
    hits xs b = within va end b && is_some (perm_at xs b)

    pub protect_walk-Repaged :
        (lo : ℕ) (m : M) (xs : List Area)
        → Ascends lo xs
        → All Fits xs
        → Cut va xs
        → Cut end xs
        → ((protect_walk p q va end perm m xs).0 ≡ pos 0)
          × Done (hits xs) m (protect_walk p q va end perm m xs).1
    unfolding protect_walk
    protect_walk-Repaged lo m [] o f c d = (
      refl,
      Repaged-ext p q laws marks perm (λ b. false) (hits []) m m (λ b at. ground arith)
          (Repaged-none p q laws marks perm m),
    )
    protect_walk-Repaged lo m (x ∷ xs) o f c d = elim (Bool-cases (leb end x.start)) [
      | inl beyond ↦ rw beyond (
        refl,
        Repaged-ext p q laws marks perm (λ b. false) (hits (x ∷ xs)) m m
            (λ b at. ground (arith, beyond, o.1, perm_at_below x.end xs b o.2))
            (Repaged-none p q laws marks perm m),
      )
      | inr meets ↦ elim (Bool-cases (leb x.end va)) [
        | inl before ↦
            let rest = protect_walk-Repaged x.end m xs o.2 f.1 c.1 d.1 in
            rw (meets, before)
              (
                rest.0,
                Repaged-ext p q laws marks perm (hits xs) (hits (x ∷ xs)) m
                    (protect_walk p q va end perm m xs).1 (λ b at. ground (arith, before)) rest.1,
              )
        | inr behind ↦
            let from : va ≤ x.start = elim c.0 [
              | inl h ↦ h
              | inr h ↦ absurd (ground (arith, h, behind))
            ] in
            let to : x.end ≤ end = elim d.0 [
              | inl h ↦ absurd (ground (arith, h, meets))
              | inr h ↦ h
            ] in
            let n = page_count x.start x.end in
            let count : x.start + n * 4096 ≡ x.end =
              ground (arith, f.0.from_page, f.0.to_page, o.1) in
            let one =
              protect_area-Repaged n m x.start f.0.from_page (omega (arith, count, to, high)) in
            let m' = (protect_area p q perm new n m x.start).1 in
            let fine : is_negative (protect_area p q perm new n m x.start).0 ≡ false =
              ap is_negative one.0 in
            let rest = protect_walk-Repaged x.end m' xs o.2 f.1 c.1 d.1 in
            rw (meets, behind, fine)
              (
                rest.0,
                Repaged-ext p q laws marks perm
                    (λ b. within x.start (x.start + n * 4096) b || hits xs b) (hits (x ∷ xs)) m
                    (protect_walk p q va end perm m' xs).1
                    (λ b at. ground (arith, count, from, to, o.1))
                    (Repaged-trans p q laws marks perm (within x.start (x.start + n * 4096))
                      (hits xs) m m' (protect_walk p q va end perm m' xs).1
                      (λ b at e. ground (arith, e, count, perm_at_below x.end xs b o.2)) one.1
                      rest.1),
              )
      ]
    ]

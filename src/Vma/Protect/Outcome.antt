-- ===== src/Vma/Protect/Outcome.antt =====
-- `vmm_protect_user` of na/mm/vma.cc: the permissions of the range and of the rest.
use lume.Common.{
  ℕ, ◌+◌, ◌%◌, ◌^◌, ◌≤◌, ◌<◌, ◌≡◌, refl, ap, ◌∙◌, sym, subst, Bool, true, false, ◌&&◌, List, Option,
  none, some, ◌==◌, ==_iff, if◌then◌else◌, arith, Bool-cases, inl, inr, ◌⊎◌, ℤ, pos, enomem, einval,
  bit_or,
}
use lume.Addr.{page_align_up, page_align_down}
use lume.Addr.Align.{page_align_down_lem, page_align_up_lem}
use lume.Vma.{Area, Pages, VmSpace, user_va_limit, user_va_base, vm_user, vma_range_covered_locked}
use lume.Vma.Areas.{perm_at, Ascends, IsValid}
use lume.Vma.Map.{bad_range_lem}
use lume.Vma.Release.{PagesLaws, va_span, within, is_some}
use lume.Vma.Unmap.{Translated, Translated-fits}
use lume.Vma.Covered.{covered_from-Decides, Decides}
use lume.Vma.Protect.{
  Protection, is_negative, vma_split_range_locked, protect_walk, vmm_protect_user,
}
use lume.Vma.Protect.Areas.{renewed, Protected, protect_walk-Protected}
use lume.Vma.Protect.Laws.{ProtectionLaws, Repaged, Repaged-ext}
use lume.Vma.Protect.Walk.{hits, protect_walk-Repaged}
use lume.Vma.Protect.Flags.{Mappable, page_flags-LeafFlags}
use lume.Vma.Protect.Splits.{RangeSplit, vma_split_range_locked-RangeSplit}
use lume.Vma.Protect.Permitted.{Repermitted, Repaged-Repermitted}

-- What `vmm_protect_user` may answer for the whole pages from `start` on, with the new permissions.
pub data ProtectOutcome {M : Type 0} (p : Pages M) (q : Protection M) (marks : ProtectionLaws p q)
    (granted granted_end : Bool) (s : VmSpace M) (start size perm : ℕ)
    : ℤ × VmSpace M → Type 0 where
  bad_request :
      (size ≡ 0) ⊎ (start < user_va_base) ⊎ (user_va_limit < start + size)
      → ProtectOutcome p q marks granted granted_end s start size perm (einval, s)
  hole :
      (a : ℕ)
      → within start (start + size) a ≡ true
      → perm_at s.areas a ≡ none
      → ProtectOutcome p q marks granted granted_end s start size perm (enomem, s)
  exhausted :
      (areas : List Area)
      → (granted && granted_end) ≡ false
      → IsValid areas
      → ((a : ℕ) → perm_at areas a ≡ perm_at s.areas a)
      → ProtectOutcome p q marks granted granted_end s start size perm
          (enomem, record s { areas = areas })
  protected :
      (areas : List Area) (m : M)
      → IsValid areas
      → ((a : ℕ)
          → perm_at areas a ≡ (
              if within start (start + size) a
              then some (bit_or perm vm_user)
              else perm_at s.areas a))
      → Repermitted p q marks perm start (start + size) s.pages m
      → ProtectOutcome p q marks granted granted_end s start size perm
          (pos 0, record s { areas = areas; pages = m })

renewed_found : (new : ℕ) (o : Option ℕ) (p : ℕ) → o ≡ some p → renewed new o ≡ some new
renewed_found new none p e = cc e
renewed_found new (some _) p e = refl

module _ {M : Type 0} (p : Pages M) (q : Protection M) (laws : PagesLaws p)
    (marks : ProtectionLaws p q) (granted granted_end : Bool) (s : VmSpace M) (start size perm : ℕ)
    (how : Mappable perm) (high : start + size ≤ va_span) (v : IsValid s.areas)
    (small : start + size < 2 ^ 64) (some_page : start < start + size) (from : start % 4096 ≡ 0)
    (to : (start + size) % 4096 ≡ 0)
    (covered : (a : ℕ)
      → start ≤ a
      → a < start + size
      → (k : ℕ) × (perm_at s.areas a ≡ some k)) where
  abbrev new_perm : ℕ
  new_perm = bit_or perm vm_user

  walked :
      (split : List Area)
      → RangeSplit granted granted_end user_va_base start (start + size) s.areas (pos 0) split
      → (r : ℤ) (m : M) (ys : List Area)
      → Protected user_va_base start (start + size) new_perm split r ys
      → r ≡ pos 0
      → Repaged p q laws marks perm
          (hits p q laws marks perm
            (page_flags-LeafFlags q perm how)
            start
            (start + size)
            high
            split)
          s.pages
          m
      → ProtectOutcome p q marks granted granted_end s start size perm
          (r, record s { areas = ys; pages = m })
  walked split range r m ys h done pages = elim h.answer [
    | inr negative ↦ cc (negative, ap is_negative done)
    | inl (e, perms) ↦
        subst
          (λ x.
            ProtectOutcome p q marks granted granted_end s start size perm
              (x, record s { areas = ys; pages = m }))
          (sym e)
          (protected ys m (h.order, h.fits (range.fits v.1))
            (λ a. perms a ∙ elim (Bool-cases (within start (start + size) a)) [
              | inl inside ↦
                  let (k, found) = covered a (ground (arith, inside)) (ground (arith, inside)) in
                  rw inside (renewed_found new_perm (perm_at split a) k (range.perms a ∙ found))
              | inr outside ↦ rw outside (range.perms a)
            ])
            (Repaged-Repermitted p q laws marks perm start (start + size) s.pages m (
              Repaged-ext p q laws marks perm
                (hits p q laws marks perm (page_flags-LeafFlags q perm how) start (start + size)
                  high split)
                (within start (start + size)) s.pages m
                (λ b at. elim (Bool-cases (within start (start + size) b)) [
                  | inl inside ↦
                      let (k, found) =
                        covered b (ground (arith, inside)) (ground (arith, inside)) in
                      rw inside (ap is_some (range.perms b ∙ found))
                  | inr outside ↦ rw outside refl
                ])
                pages)))
  ]

  range-ProtectOutcome :
      (r : ℤ) (split : List Area)
      → RangeSplit granted granted_end user_va_base start (start + size) s.areas r split
      → ProtectOutcome p q marks granted granted_end s start size perm (
          if is_negative r then (r, record s { areas = split }) else (
            (protect_walk p q start (start + size) perm s.pages split).0,
            record s {
              areas = (protect_walk p q start (start + size) perm s.pages split).2;
              pages = (protect_walk p q start (start + size) perm s.pages split).1;
            },
          ))
  range-ProtectOutcome r split range = elim range.answer [
    | inr (e, denied) ↦
        subst
          (λ x. ProtectOutcome p q marks granted granted_end s start size perm (
            if is_negative x then (x, record s { areas = split }) else (
              (protect_walk p q start (start + size) perm s.pages split).0,
              record s {
                areas = (protect_walk p q start (start + size) perm s.pages split).2;
                pages = (protect_walk p q start (start + size) perm s.pages split).1;
              },
            )))
          (sym e) (exhausted split denied (range.order, range.fits v.1) range.perms)
    | inl (e, cut, cut_end) ↦
        let fine : is_negative r ≡ false = ap is_negative e in
        let w = protect_walk p q start (start + size) perm s.pages split in
        let pages =
          protect_walk-Repaged p q laws marks perm (page_flags-LeafFlags q perm how) start
            (start + size) high user_va_base s.pages split range.order (range.fits v.1) cut
            cut_end in
        rw fine (
          walked split
            (subst
              (λ x.
                RangeSplit granted granted_end user_va_base start (start + size) s.areas x split)
              e range)
            w.0 w.1 w.2
            (protect_walk-Protected p q start (start + size) perm user_va_base s.pages split
              range.order cut cut_end)
            pages.0 pages.1)
  ]

range_covered :
    (lo : ℕ) (xs : List Area) (start end : ℕ)
    → Ascends lo xs
    → Decides (vma_range_covered_locked xs start end) xs start end
unfolding vma_range_covered_locked
range_covered lo xs start end o = covered_from-Decides lo xs start end o

-- On a valid space, for a range that the page tables tell apart or that is refused, and for permissions
-- to read or to execute among others, or none, `vmm_protect_user` refuses an empty range or one outside
-- the user's addresses, or one with an address that has no area, with nothing changed; or memory for a
-- split is out, with every address's permissions as they were; or it succeeds, exactly the addresses of
-- the range have the new permissions, and so have their pages, of which those that are shared by a fork
-- are not written; without permissions the pages are gone. The space stays valid.
pub vmm_protect_user-ProtectOutcome :
    {M : Type 0} (p : Pages M) (q : Protection M) (laws : PagesLaws p) (marks : ProtectionLaws p q)
    (granted granted_end : Bool) (s : VmSpace M) (va len perm : ℕ)
    → IsValid s.areas
    → va < 2 ^ 64
    → len < 2 ^ 64
    → Translated (page_align_down va) (page_align_up len)
    → Mappable perm
    → ProtectOutcome p q marks granted granted_end s
        (page_align_down va)
        (page_align_up len)
        perm
        (vmm_protect_user p q granted granted_end s va len perm)
unfolding vmm_protect_user
vmm_protect_user-ProtectOutcome p q laws marks granted granted_end s va len perm v h k t how =
    let start = page_align_down va in
    let size = page_align_up len in
    let down = page_align_down_lem va h in
    let up = page_align_up_lem len k in
    elim (Bool-cases (size == 0)) [
      | inl empty ↦ rw empty (bad_request (inl ((==_iff size 0).0 empty)))
      | inr full ↦
          let some_size : 0 < size = ground (arith, full) in
          elim (bad_range_lem start size (omega (arith, down)) (omega (arith, up)) some_size) [
            | inl (bad, why) ↦ rw (full, bad) (bad_request (inr why))
            | inr (good, low, high, sum) ↦
                let small : start + size < 2 ^ 64 = omega (arith, high) in
                let some_page : start < start + size = omega (arith, some_size) in
                let from : start % 4096 ≡ 0 = omega (arith, down) in
                let to : (start + size) % 4096 ≡ 0 = omega (arith, down, up) in
                rw (full, good, sum)
                  (elim (range_covered user_va_base s.areas start (start + size) v.0) [
                    | inr (no_cover, a, low', high', nobody) ↦
                        rw no_cover (hole a (ground (arith, low', high')) nobody)
                    | inl (cover, covered) ↦
                        let range =
                          vma_split_range_locked-RangeSplit granted granted_end user_va_base start
                            (start + size) s.areas v.0 some_page small from to covered in
                        rw cover (
                          range-ProtectOutcome p q laws marks granted granted_end s start size perm
                            how (Translated-fits start size t high) v small some_page from to
                            covered
                            (vma_split_range_locked granted granted_end s.areas start
                              (start + size)).0
                            (vma_split_range_locked granted granted_end s.areas start
                              (start + size)).1
                            range)
                  ])
          ]
    ]

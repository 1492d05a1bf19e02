-- ===== src/Vma/Unmap.antt =====
-- `vmm_unmap_user` of na/mm/vma.cc: the areas that are left, and the pages that are given back.
use lume.Common.{
  einval, enomem, ℕ, ◌+◌, ◌%◌, ◌^◌, ◌≤◌, ◌<◌, ◌≡◌, refl, Bool, false, ◌&&◌, List, none, ◌==◌,
  ==_iff, if◌then◌else◌, arith, Bool-cases, inl, inr, ◌⊎◌, ℤ, pos,
}
use lume.Addr.{page_align_up, page_align_down}
use lume.Addr.Align.{page_align_down_lem, page_align_up_lem}
use lume.Vma.{Area, Pages, VmSpace, unmap_walk, vmm_unmap_user, user_va_base, user_va_limit}
use lume.Vma.Areas.{perm_at, IsValid}
use lume.Vma.Map.{bad_range_lem}
use lume.Vma.Release.{va_span, PagesLaws, within, is_some}
use lume.Vma.Walk.{Walked, unmap_walk-Walked}

module _ {M : Type 0} (p : Pages M) where
  -- The addresses of the range are gone from the space, and their pages from the page tables.
  pub record Unmapped (s : VmSpace M) (start size : ℕ) (s' : VmSpace M) : Type 0 where
    pub valid : IsValid s'.areas
    pub perms :
        (a : ℕ)
        → perm_at s'.areas a ≡ (if within start (start + size) a then none else perm_at s.areas a)
    pub pages :
        (b : ℕ)
        → b % 4096 ≡ 0
        → b < va_span
        → p.lookup s'.pages b ≡ (
            if within start (start + size) b && is_some (perm_at s.areas b)
            then none
            else p.lookup s.pages b)
    pub heap : (s'.brk_start ≡ s.brk_start) × (s'.brk_end ≡ s.brk_end)

  -- What `vmm_unmap_user` may answer for the whole pages from `start` on.
  pub data UnmapOutcome (granted : Bool) (s : VmSpace M) (start size : ℕ)
      : ℤ × VmSpace M → Type 0 where
    nothing : size ≡ 0 → UnmapOutcome granted s start size (pos 0, s)
    outside :
        (start < user_va_base) ⊎ (user_va_limit < start + size)
        → UnmapOutcome granted s start size (einval, s)
    exhausted :
        (m : M)
        → granted ≡ false
        → UnmapOutcome granted s start size (enomem, record s { pages = m })
    unmapped :
        (s' : VmSpace M) → Unmapped s start size s' → UnmapOutcome granted s start size (pos 0, s')

-- The range lies among the addresses that the page tables tell apart, or outside the user's.
abbrev pub Translated : ℕ → ℕ → Type 0
Translated start size = (start + size ≤ va_span) ⊎ (user_va_limit < start + size)

pub Translated-fits :
    (start size : ℕ) → Translated start size → start + size ≤ user_va_limit → start + size ≤ va_span
Translated-fits start size (inl h) high = h
Translated-fits start size (inr h) high = absurd (omega arith)

module _ {M : Type 0} (p : Pages M) (laws : PagesLaws p) (granted : Bool) (s : VmSpace M) where
  UnmapOutcome-Walked :
      (start size : ℕ) (from_page : start % 4096 ≡ 0) (to_page : (start + size) % 4096 ≡ 0)
      (some_page : start < start + size) (high : start + size ≤ va_span) (r : ℤ × M × List Area)
      → Walked p laws granted start
          (start + size)
          from_page
          to_page
          some_page
          high
          4096
          s.pages
          s.areas
          r
      → UnmapOutcome p granted s start size (r.0, record s { areas = r.2; pages = r.1 })
  UnmapOutcome-Walked start size from_page to_page some_page high r (inl c) =
      let s' : VmSpace M = record s { areas = r.2; pages = r.1 } in
      rw c.answer (
        unmapped s' (record {
          valid = (c.order, c.fits);
          perms = c.perms;
          pages = c.pages;
          heap = (refl, refl);
        }))
  UnmapOutcome-Walked start size from_page to_page some_page high r (inr c) =
      rw (c.answer, c.areas) (exhausted r.1 c.denied)

  -- On a valid space, and for a range that the page tables tell apart or that is refused,
  -- `vmm_unmap_user` does one of four things: nothing for an empty range, refuse a
  -- range outside the user's addresses, report that memory for the second half of a split area is
  -- out, with the areas as they were, or remove exactly the addresses of the range, their pages
  -- included.
  pub vmm_unmap_user-UnmapOutcome :
      (va len : ℕ)
      → IsValid s.areas
      → va < 2 ^ 64
      → len < 2 ^ 64
      → Translated (page_align_down va) (page_align_up len)
      → UnmapOutcome p granted s
          (page_align_down va)
          (page_align_up len)
          (vmm_unmap_user p granted s va len)
  unfolding vmm_unmap_user
  vmm_unmap_user-UnmapOutcome va len v h k t =
      let start = page_align_down va in
      let size = page_align_up len in
      let down = page_align_down_lem va h in
      let up = page_align_up_lem len k in
      elim (Bool-cases (size == 0)) [
        | inl empty ↦ rw empty (nothing ((==_iff size 0).0 empty))
        | inr full ↦
            let some_size : 0 < size = ground (arith, full) in
            elim (bad_range_lem start size (omega (arith, down)) (omega (arith, up)) some_size) [
              | inl (bad, why) ↦ rw (full, bad) (outside why)
              | inr (good, low, high, sum) ↦
                  let within_span : start + size ≤ va_span = Translated-fits start size t high in
                  let from_page : start % 4096 ≡ 0 = omega (arith, down) in
                  let to_page : (start + size) % 4096 ≡ 0 = omega (arith, down, up) in
                  let some_page : start < start + size = omega arith in
                  rw (full, good, sum)
                    (UnmapOutcome-Walked start size from_page to_page some_page within_span
                      (unmap_walk p granted start (start + size) s.pages s.areas)
                      (unmap_walk-Walked p laws granted start (start + size) from_page to_page
                        some_page within_span 4096 s.pages s.areas v.0 v.1))
            ]
      ]

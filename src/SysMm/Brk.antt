-- ===== src/SysMm/Brk.antt =====
-- `sys_brk` of na/kernel/sys_mm.cc.
use lume.Common.{
  einval, enomem, ℕ, ◌+◌, ◌-◌, ◌/◌, ◌*◌, ◌%◌, ◌^◌, ◌≤◌, ◌<◌, ◌≡◌, refl, Bool, true, false, none,
  some, ◌==◌, ltb, if◌then◌else◌, arith, Bool-cases, inl, inr, ℤ,
}
use lume.Word.{sub64}
use lume.Addr.{page_align_up, page_align_down}
use lume.Addr.Align.{page_align_down_lem, page_align_up-fits}
use lume.Vma.{Pages, VmSpace, vmm_map_user, vmm_unmap_user, user_va_limit}
use lume.Vma.Areas.{perm_at, IsValid}
use lume.Vma.Map.{MapOutcome, vmm_map_user-MapOutcome}
use lume.Vma.Release.{PagesLaws, va_span, within}
use lume.Vma.Unmap.{UnmapOutcome, vmm_unmap_user-UnmapOutcome}
use lume.SysMm.{to_int64, or_fail, start_heap, move_brk, brk_of, sys_brk}

-- A heap that has been set up: whole pages in the user's addresses.
pub record Heap {M : Type 0} (mm : VmSpace M) : Type 0 where
  pub areas : IsValid mm.areas
  pub start : (0 < mm.brk_start) × (mm.brk_start % 4096 ≡ 0)
  pub order : mm.brk_start ≤ mm.brk_end
  pub end : (mm.brk_end % 4096 ≡ 0) × (mm.brk_end ≤ user_va_limit)

-- The heap ends at the page boundary behind the break: what it gained can be read and written by the
-- user, what it lost is gone, and all other addresses are as they were.
pub record Moved {M : Type 0} (mm : VmSpace M) (new_end : ℕ) (mm' : VmSpace M) : Type 0 where
  pub heap : Heap mm'
  pub end : (mm'.brk_start ≡ mm.brk_start) × (mm'.brk_end ≡ new_end)
  pub perms :
      (a : ℕ)
      → perm_at mm'.areas a ≡ (
          if within mm.brk_end new_end a
          then some 11
          else (if within new_end mm.brk_end a then none else perm_at mm.areas a))

pub data BrkOutcome {M : Type 0} (granted : Bool) (mm : VmSpace M) (new_brk : ℕ)
    : ℤ × VmSpace M → Type 0 where
  below : new_brk < mm.brk_start → BrkOutcome granted mm new_brk (einval, mm)
  beyond : user_va_limit < page_align_up new_brk → BrkOutcome granted mm new_brk (einval, mm)
  occupied :
      (a perm : ℕ)
      → within mm.brk_end (page_align_up new_brk) a ≡ true
      → perm_at mm.areas a ≡ some perm
      → BrkOutcome granted mm new_brk (einval, mm)
  exhausted :
      (m : M) → granted ≡ false → BrkOutcome granted mm new_brk (enomem, record mm { pages = m })
  moved :
      (mm' : VmSpace M)
      → Moved mm (page_align_up new_brk) mm'
      → BrkOutcome granted mm new_brk (to_int64 new_brk, mm')

module _ {M : Type 0} (mm : VmSpace M) (h : Heap mm) (new_brk new_end : ℕ)
    (rounded : page_align_up new_brk ≡ new_end) (page : new_end % 4096 ≡ 0)
    (low : mm.brk_start ≤ new_end) where
  abbrev finish : VmSpace M → ℤ × VmSpace M
  finish mm' = (to_int64 new_brk, record mm' { brk_end = new_end })

  grown :
      (granted : Bool) (size : ℕ) (r : ℤ × VmSpace M)
      → mm.brk_end + size ≡ new_end
      → 0 < size
      → MapOutcome granted mm mm.brk_end size 3 r
      → BrkOutcome granted mm new_brk (or_fail r finish)
  grown granted size r sum some_size (MapOutcome.nothing e) = absurd (omega arith)
  grown granted size r sum some_size (MapOutcome.outside why) = beyond (
      rw rounded (elim why [
        | inl under ↦ absurd (omega (arith, h.start, h.order))
        | inr over ↦ omega (arith, sum, over)
      ]))
  grown granted size r sum some_size (MapOutcome.exhausted e) = exhausted mm.pages e
  grown granted size r sum some_size (MapOutcome.occupied a from to (k, e)) =
      occupied a k (rw rounded (ground (arith, sum))) e
  grown granted size r sum some_size (MapOutcome.mapped mm' m) =
      moved (record mm' { brk_end = new_end })
        (rw rounded (record {
          heap = record {
            areas = m.valid;
            start = omega (arith, m.heap, h.start);
            order = omega (arith, m.heap, low);
            end = (page, omega (arith, m.inside));
          };
          end = (m.heap.0, refl);
          perms = λ a. ground (arith, m.perms a);
        }))

  shrunk :
      (p : Pages M) (granted : Bool) (size : ℕ) (r : ℤ × VmSpace M)
      → new_end + size ≡ mm.brk_end
      → 0 < size
      → UnmapOutcome p granted mm new_end size r
      → BrkOutcome granted mm new_brk (or_fail r finish)
  shrunk p granted size r sum some_size (UnmapOutcome.nothing e) = absurd (omega arith)
  shrunk p granted size r sum some_size (UnmapOutcome.outside why) = absurd (elim why [
    | inl under ↦ omega (arith, under, low, h.start)
    | inr over ↦ omega (arith, over, sum, h.end)
  ])
  shrunk p granted size r sum some_size (UnmapOutcome.exhausted m e) = exhausted m e
  shrunk p granted size r sum some_size (UnmapOutcome.unmapped mm' u) =
      moved (record mm' { brk_end = new_end })
        (rw rounded (record {
          heap = record {
            areas = u.valid;
            start = omega (arith, u.heap, h.start);
            order = omega (arith, u.heap, low);
            end = (page, omega (arith, h.end));
          };
          end = (u.heap.0, refl);
          perms = λ a. ground (arith, u.perms a);
        }))

  unmoved : (granted : Bool) → mm.brk_end ≡ new_end → BrkOutcome granted mm new_brk (finish mm)
  unmoved granted same =
      moved (record mm { brk_end = new_end })
        (rw rounded (record {
          heap = record {
            areas = h.areas;
            start = h.start;
            order = low;
            end = (page, omega (arith, h.end));
          };
          end = (refl, refl);
          perms = λ a. ground arith;
        }))

move_brk-BrkOutcome :
    {M : Type 0} (p : Pages M) (laws : PagesLaws p) (granted : Bool) (mm : VmSpace M) (new_brk : ℕ)
    → Heap mm
    → mm.brk_end ≤ va_span
    → mm.brk_start ≤ new_brk
    → new_brk + 4095 < 2 ^ 64
    → BrkOutcome granted mm new_brk (move_brk p granted mm new_brk)
unfolding move_brk
move_brk-BrkOutcome p laws granted mm new_brk h narrow low room =
    let new_end = (new_brk + 4095) / 4096 * 4096 in
    let rounded = page_align_up-fits new_brk room in
    let page : new_end % 4096 ≡ 0 = omega arith in
    let above : mm.brk_start ≤ new_end = omega arith in
    let old_page = page_align_down_lem mm.brk_end (omega (arith, h.end)) in
    let new_page = page_align_down_lem new_end (omega arith) in
    rw rounded (elim (Bool-cases (ltb mm.brk_end new_end)) [
      | inl grow ↦
          let size = new_end - mm.brk_end in
          let diff : sub64 new_end mm.brk_end ≡ size = ground (arith, grow) in
          let whole : page_align_up size ≡ size =
            omega (arith, page_align_up-fits size (ground arith), h.end) in
          let from : page_align_down mm.brk_end ≡ mm.brk_end = omega (arith, old_page, h.end) in
          let out =
            vmm_map_user-MapOutcome granted mm mm.brk_end size 3 h.areas (omega (arith, h.end))
              (ground arith) in
          rw (grow, diff)
            (grown mm h new_brk new_end rounded page above granted size
              (vmm_map_user granted mm mm.brk_end size 3) (ground (arith, grow))
              (ground (arith, grow)) (rw (from, whole) at out))
      | inr no_growth ↦ elim (Bool-cases (ltb new_end mm.brk_end)) [
        | inl shrink ↦
            let size = mm.brk_end - new_end in
            let diff : sub64 mm.brk_end new_end ≡ size = ground (arith, shrink, h.end) in
            let whole : page_align_up size ≡ size =
              omega (arith, page_align_up-fits size (omega (arith, h.end)), h.end) in
            let from : page_align_down new_end ≡ new_end = omega (arith, new_page) in
            let out =
              vmm_unmap_user-UnmapOutcome p laws granted mm new_end size h.areas (omega arith)
                (omega (arith, h.end)) (rw (from, whole) (inl (ground (arith, shrink)))) in
            rw (no_growth, shrink, diff)
              (shrunk mm h new_brk new_end rounded page above p granted size
                (vmm_unmap_user p granted mm new_end size) (ground (arith, shrink))
                (ground (arith, shrink)) (rw (from, whole) at out))
        | inr same ↦
            rw (no_growth, same)
              (unmoved mm h new_brk new_end rounded page above granted
                (ground (arith, no_growth, same)))
      ]
    ])

-- Once the heap is set up, among the first 2 ^ 39 addresses, brk with an address other than 0 does
-- one of four things. It answers -EINVAL and changes nothing, since the address lies below the heap, the
-- page boundary behind it beyond the user's addresses, or an area where the heap would grow; or -ENOMEM,
-- the areas and the heap as they were, since memory for an area is out; or it answers with the address,
-- and the heap ends at the page boundary behind it with exactly the addresses in between added or removed. The address lies below
-- the last page of the address space.
pub sys_brk-BrkOutcome :
    {M : Type 0} (p : Pages M) (laws : PagesLaws p) (granted : Bool) (mm : VmSpace M) (new_brk : ℕ)
    → Heap mm
    → mm.brk_end ≤ va_span
    → 0 < new_brk
    → new_brk + 4095 < 2 ^ 64
    → (r : ℤ × VmSpace M) × (sys_brk p granted (some mm) new_brk ≡ (r.0, some r.1))
      × BrkOutcome granted mm new_brk r
unfolding sys_brk brk_of start_heap
sys_brk-BrkOutcome p laws granted mm new_brk h narrow some_brk room =
    let set_up : (mm.brk_start == 0) ≡ false = ground (arith, h.start) in
    let given : (new_brk == 0) ≡ false = ground arith in
    (
      brk_of p granted mm new_brk,
      refl,
      rw (set_up, given)
          (elim (Bool-cases (ltb new_brk mm.brk_start)) [
            | inl under ↦ rw under (BrkOutcome.below (ground (arith, under)))
            | inr above ↦ rw above (
                move_brk-BrkOutcome p laws granted mm new_brk h narrow (ground (arith, above)) room)
          ]),
    )

-- The first brk of a space fails if its address is not a page boundary, and sets the heap up all the
-- same. The address lies below the last page of the address space.
pub first_brk_unaligned :
    {M : Type 0} (p : Pages M) (granted : Bool) (mm : VmSpace M) (new_brk : ℕ)
    → mm.brk_start ≡ 0
    → new_brk + 4095 < 2 ^ 64
    → 0 < new_brk % 4096
    → (mm' : VmSpace M) × (sys_brk p granted (some mm) new_brk ≡ (einval, some mm'))
      × (new_brk < mm'.brk_start)
unfolding sys_brk brk_of start_heap
first_brk_unaligned p granted mm new_brk fresh room odd =
    let up = page_align_up-fits new_brk room in
    let given : (new_brk == 0) ≡ false = ground arith in
    let unset : (mm.brk_start == 0) ≡ true = ground arith in
    let below : ltb new_brk (page_align_up new_brk) ≡ true = ground (arith, up) in
    (
      record mm { brk_start = page_align_up new_brk; brk_end = page_align_up new_brk },
      rw (given, unset, below) refl,
      ground (arith, up),
    )

-- ===== src/SysMm/Mmap.antt =====
-- `sys_mmap` of na/kernel/sys_mm.cc for private anonymous memory.
use lume.Common.{
  enomem, ℕ, ◌+◌, ◌-◌, ◌/◌, ◌*◌, ◌%◌, ◌^◌, ◌≤◌, ◌<◌, ◌≡◌, refl, sym, Bool, true, false, some, ◌==◌,
  if◌then◌else◌, arith, inl, inr, ℤ,
}
use lume.Addr.{page_align_up, page_align_down}
use lume.Addr.Align.{page_align_down_lem, page_align_up_lem, page_align_up-fits}
use lume.Vma.{Pages, VmSpace, vmm_map_user, mm_find_free_va, user_va_base, user_va_limit}
use lume.Vma.Areas.{IsValid, perm_at-Apart}
use lume.Vma.Map.{Mapped, MapOutcome, vmm_map_user-MapOutcome}
use lume.Vma.Find.{Slot, mm_find_free_va-Found}
use lume.SysMm.{
  to_int64, is_negative, has, map_shared, map_private, map_fixed, map_anonymous, prot_to_perm,
  map_at, place, sys_mmap,
}

-- A request for private anonymous memory at no fixed place.
pub record Private (flags : ℕ) : Type 0 where
  pub private : has flags map_private ≡ true
  pub shared : has flags map_shared ≡ false
  pub anonymous : has flags map_anonymous ≡ true
  pub fixed : has flags map_fixed ≡ false

pub data MmapOutcome {M : Type 0} (granted : Bool) (mm : VmSpace M) (size perm : ℕ)
    : ℤ × VmSpace M → Type 0 where
  full :
      ((a : ℕ) → user_va_base ≤ a → Slot mm.areas size 4096 a → ⊥)
      → MmapOutcome granted mm size perm (enomem, mm)
  exhausted : granted ≡ false → MmapOutcome granted mm size perm (enomem, mm)
  placed :
      (va : ℕ) (mm' : VmSpace M)
      → Slot mm.areas size 4096 va
      → ((a : ℕ) → user_va_base ≤ a → Slot mm.areas size 4096 a → va ≤ a)
      → Mapped mm va size perm mm'
      → MmapOutcome granted mm size perm (to_int64 va, mm')

module _ {M : Type 0} (granted : Bool) (mm : VmSpace M) (size perm : ℕ) where
  MmapOutcome-map :
      (va : ℕ) (r : ℤ × VmSpace M)
      → 0 < size
      → user_va_base ≤ va
      → Slot mm.areas size 4096 va
      → ((a : ℕ) → user_va_base ≤ a → Slot mm.areas size 4096 a → va ≤ a)
      → MapOutcome granted mm va size perm r
      → MmapOutcome granted mm size perm (if is_negative r.0 then r else (to_int64 va, r.1))
  MmapOutcome-map va r some_size low slot first (MapOutcome.nothing e) = absurd (omega arith)
  MmapOutcome-map va r some_size low slot first (MapOutcome.outside (inl under)) =
      absurd (omega arith)
  MmapOutcome-map va r some_size low slot first (MapOutcome.outside (inr over)) =
      absurd (omega (arith, slot.within))
  MmapOutcome-map va r some_size low slot first (MapOutcome.exhausted e) = exhausted e
  MmapOutcome-map va r some_size low slot first (MapOutcome.occupied a from to (p, e)) =
      absurd (cc (e, perm_at-Apart va (va + size) a mm.areas slot.free from to))
  MmapOutcome-map va r some_size low slot first (MapOutcome.mapped mm' m) =
      placed va mm' slot first m

-- The permissions that a request grants to the user: each kind of access just if its PROT bit is set.
pub record Requested (prot perm : ℕ) : Type 0 where
  pub read : has perm 1 ≡ has prot 1
  pub write : has perm 2 ≡ has prot 2
  pub execute : has perm 4 ≡ has prot 4
  pub user : has perm 8 ≡ true
  pub nothing_else : perm < 16

prot_to_perm-Requested : (prot : ℕ) → Requested prot (prot_to_perm prot)
unfolding prot_to_perm
prot_to_perm-Requested prot = granted_bits (has prot 1) (has prot 2) (has prot 4) refl refl refl
  where
    granted_bits :
        (r w x : Bool)
        → has prot 1 ≡ r
        → has prot 2 ≡ w
        → has prot 4 ≡ x
        → Requested prot (prot_to_perm prot)
    granted_bits true true true a b c =
        rw (a, b, c)
          (record {
            read = sym a;
            write = sym b;
            execute = sym c;
            user = refl;
            nothing_else = omega arith;
          })
    granted_bits true true false a b c =
        rw (a, b, c)
          (record {
            read = sym a;
            write = sym b;
            execute = sym c;
            user = refl;
            nothing_else = omega arith;
          })
    granted_bits true false true a b c =
        rw (a, b, c)
          (record {
            read = sym a;
            write = sym b;
            execute = sym c;
            user = refl;
            nothing_else = omega arith;
          })
    granted_bits true false false a b c =
        rw (a, b, c)
          (record {
            read = sym a;
            write = sym b;
            execute = sym c;
            user = refl;
            nothing_else = omega arith;
          })
    granted_bits false true true a b c =
        rw (a, b, c)
          (record {
            read = sym a;
            write = sym b;
            execute = sym c;
            user = refl;
            nothing_else = omega arith;
          })
    granted_bits false true false a b c =
        rw (a, b, c)
          (record {
            read = sym a;
            write = sym b;
            execute = sym c;
            user = refl;
            nothing_else = omega arith;
          })
    granted_bits false false true a b c =
        rw (a, b, c)
          (record {
            read = sym a;
            write = sym b;
            execute = sym c;
            user = refl;
            nothing_else = omega arith;
          })
    granted_bits false false false a b c =
        rw (a, b, c)
          (record {
            read = sym a;
            write = sym b;
            execute = sym c;
            user = refl;
            nothing_else = omega arith;
          })

-- mmap of private anonymous memory without an address: the lowest free whole pages get the
-- permissions that the request asks for, or the answer is -ENOMEM, nothing changes, and there is no room or no memory for the
-- area. The length is not 0 and at most the limit of the user's addresses.
pub sys_mmap-MmapOutcome :
    {M : Type 0} (p : Pages M) (cleared granted again : Bool) (mm : VmSpace M)
    (length prot flags offset : ℕ)
    → IsValid mm.areas
    → Private flags
    → offset % 4096 ≡ 0
    → 0 < length
    → length ≤ user_va_limit
    → (r : ℤ × VmSpace M) × (sys_mmap p cleared granted again (some mm) 0 length prot flags offset
        ≡ (r.0, some r.1))
      × (perm : ℕ) × Requested prot perm
      × MmapOutcome granted mm ((length + 4095) / 4096 * 4096) perm r
unfolding sys_mmap place map_at
sys_mmap-MmapOutcome p cleared granted again mm length prot flags offset v private aligned
      some_length small =
    let size = (length + 4095) / 4096 * 4096 in
    let perm = prot_to_perm prot in
    let rounded = page_align_up-fits length (omega arith) in
    let stays : (size + 4095) / 4096 * 4096 ≡ size = omega arith in
    let whole : page_align_up size ≡ size = omega (arith, page_align_up-fits size (omega arith)) in
    let full_length : (length == 0) ≡ false = ground arith in
    let whole_offset : (offset % 4096 == 0) ≡ true = ground arith in
    let found =
      mm_find_free_va-Found mm size 4096 v (omega arith) (omega arith) (omega arith)
        (omega arith) in
    (
      place p cleared granted again mm 0 size flags perm,
      rw (full_length, whole_offset, private.private, private.shared, private.anonymous, rounded)
          refl,
      perm,
      prot_to_perm-Requested prot,
      rw private.fixed (elim (rw stays at found) [
        | inr (none_found, fails) ↦ rw none_found (full fails)
        | inl (slot, low, first) ↦
            let va = mm_find_free_va mm size 4096 in
            let some_va : (va == 0) ≡ false = ground arith in
            let from : page_align_down va ≡ va =
              omega (arith, page_align_down_lem va (omega (arith, slot.within)), slot.multiple) in
            let out =
              vmm_map_user-MapOutcome granted mm va size perm v (omega (arith, slot.within))
                (omega arith) in
            rw some_va (
              MmapOutcome-map granted mm size perm va (vmm_map_user granted mm va size perm)
                (omega arith) low slot first (rw (from, whole) at out))
      ]),
    )

-- A length in the last page of the address space is rounded to 0: mmap with an address then answers
-- with the page of the address, as if it had succeeded, and nothing is mapped.
pub sys_mmap_wraps :
    {M : Type 0} (p : Pages M) (cleared granted again : Bool) (mm : VmSpace M)
    (addr length prot flags offset : ℕ)
    → Private flags
    → offset % 4096 ≡ 0
    → 2 ^ 64 - 4096 < length
    → length < 2 ^ 64
    → 4096 ≤ addr
    → addr < 2 ^ 64
    → sys_mmap p cleared granted again (some mm) addr length prot flags offset
      ≡ (to_int64 (addr / 4096 * 4096), some mm)
unfolding sys_mmap place map_at vmm_map_user
sys_mmap_wraps p cleared granted again mm addr length prot flags offset private aligned top limit
      low high =
    let rounded : page_align_up length ≡ 0 = omega (arith, page_align_up_lem length limit) in
    let nothing : page_align_up 0 ≡ 0 = omega (arith, page_align_up_lem 0 (omega arith)) in
    let from = page_align_down_lem addr high in
    let full_length : (length == 0) ≡ false = ground arith in
    let whole_offset : (offset % 4096 == 0) ≡ true = ground arith in
    let some_addr : (addr == 0) ≡ false = ground arith in
    let some_page : (addr / 4096 * 4096 == 0) ≡ false = ground arith in
    rw
      (
        full_length, whole_offset, private.private, private.shared, private.anonymous,
        private.fixed, rounded, some_addr, from, nothing,
      )
      (ground (arith, some_page))

-- ===== src/SysMm.antt =====
-- na/kernel/sys_mm.cc: the system calls brk, mmap, munmap and mprotect on the space of the current task, which
-- a kernel thread does not have. Each call of the areas that may need memory has a Boolean of its own.
pub mod Brk
pub mod Mmap
mod Tests
use lume.Common.{
  einval, enomem, ℕ, ◌+◌, ◌-◌, ◌%◌, ◌^◌, Bool, true, false, ◌&&◌, ◌||◌, not, Option, none, some,
  bit_and, bit_or, ◌==◌, ltb, if◌then◌else◌, ℤ, pos, negsuc,
}
use lume.Word.{sub64}
use lume.Addr.{page_size, page_align_up, page_align_down}
use lume.Vma.Protect.{Protection, vmm_protect_user}
use lume.Vma.{Pages, VmSpace, vm_user, vmm_map_user, vmm_unmap_user, mm_find_free_va}

abbrev pub enosys : ℤ
enosys = negsuc 37

-- `static_cast<int64>`
abbrev pub to_int64 : ℕ → ℤ
to_int64 n = if ltb n (2 ^ 63) then pos n else negsuc (2 ^ 64 - 1 - n)

abbrev pub has : ℕ → ℕ → Bool
has flags mask = not (bit_and flags mask == 0)

abbrev pub map_shared : ℕ
map_shared = 0x01

abbrev pub map_private : ℕ
map_private = 0x02

abbrev pub map_fixed : ℕ
map_fixed = 0x10

abbrev pub map_anonymous : ℕ
map_anonymous = 0x20

-- PROT_READ, PROT_WRITE and PROT_EXEC have the values of VM_READ, VM_WRITE and VM_EXEC.
unfoldable pub prot_to_perm : ℕ → ℕ
prot_to_perm prot =
    let r = if has prot 1 then bit_or 0 1 else 0 in
    let w = if has prot 2 then bit_or r 2 else r in
    let x = if has prot 4 then bit_or w 4 else w in bit_or x vm_user

abbrev pub is_negative : ℤ → Bool
is_negative (pos n) = false
is_negative (negsuc n) = true

module _ {M : Type 0} where
  -- After a step that answers less than 0 the call ends with that answer.
  abbrev pub or_fail : ℤ × VmSpace M → (VmSpace M → ℤ × VmSpace M) → ℤ × VmSpace M
  or_fail (r, mm) next = if is_negative r then (r, mm) else next mm

  -- The first call with an address sets the heap up, empty.
  unfoldable pub start_heap : VmSpace M → ℕ → VmSpace M
  start_heap mm new_brk =
      if mm.brk_start == 0
      then record mm { brk_start = page_align_up new_brk; brk_end = page_align_up new_brk }
      else mm

  unfoldable pub move_brk : Pages M → Bool → VmSpace M → ℕ → ℤ × VmSpace M
  move_brk p granted mm new_brk =
      let new_end = page_align_up new_brk in
      let finish : VmSpace M → ℤ × VmSpace M =
        λ mm. (to_int64 new_brk, record mm { brk_end = new_end }) in
      if ltb mm.brk_end new_end
      then or_fail (vmm_map_user granted mm mm.brk_end (sub64 new_end mm.brk_end) 3) finish
      else (if ltb new_end mm.brk_end
          then or_fail (vmm_unmap_user p granted mm new_end (sub64 mm.brk_end new_end)) finish
          else finish mm)

  unfoldable pub brk_of : Pages M → Bool → VmSpace M → ℕ → ℤ × VmSpace M
  brk_of p granted mm new_brk =
      let started = start_heap mm new_brk in
      if new_brk == 0
      then (to_int64 mm.brk_end, mm)
      else (if ltb new_brk started.brk_start
          then (einval, started)
          else move_brk p granted started new_brk)

  abbrev on_space : ℤ → Option (VmSpace M) → (VmSpace M → ℤ × VmSpace M) → ℤ × Option (VmSpace M)
  on_space missing none f = (missing, none)
  on_space missing (some mm) f = let (r, mm') = f mm in (r, some mm')

  unfoldable pub sys_brk : Pages M → Bool → Option (VmSpace M) → ℕ → ℤ × Option (VmSpace M)
  sys_brk p granted mm new_brk = on_space enomem mm (λ mm. brk_of p granted mm new_brk)

  -- The second attempt, at an address of the kernel's choice.
  unfoldable pub map_fallback : Bool → ℤ → VmSpace M → ℕ → ℕ → ℤ × VmSpace M
  map_fallback granted ret mm length vm_perm =
      let fallback = mm_find_free_va mm length page_size in
      if fallback == 0
      then (ret, mm)
      else or_fail (vmm_map_user granted mm fallback length vm_perm) (λ mm. (to_int64 fallback, mm))

  unfoldable pub map_at : Bool → Bool → VmSpace M → ℕ → ℕ → ℕ → ℕ → ℕ → ℤ × VmSpace M
  map_at granted again mm addr va length flags vm_perm =
      let (ret, mapped) = vmm_map_user granted mm va length vm_perm in
      if is_negative ret
      then (if not (has flags map_fixed) && not (addr == 0)
          then map_fallback again ret mapped length vm_perm
          else (ret, mapped))
      else (to_int64 va, mapped)

  -- From the choice of the address on; the length is rounded already.
  unfoldable pub place : Pages M → Bool → Bool → Bool → VmSpace M → ℕ → ℕ → ℕ → ℕ → ℤ × VmSpace M
  place p cleared granted again mm addr length flags vm_perm =
      let wanted =
        if has flags map_fixed then addr else (if addr == 0 then addr else page_align_down addr) in
      let va = if wanted == 0 then mm_find_free_va mm length page_size else wanted in
      if has flags map_fixed && not (addr % page_size == 0)
      then (einval, mm)
      else (if va == 0
          then (enomem, mm)
          else (if has flags map_fixed
              then or_fail (vmm_unmap_user p cleared mm va length)
                  (λ mm. map_at granted again mm addr va length flags vm_perm)
              else map_at granted again mm addr va length flags vm_perm))

  unfoldable pub sys_mmap :
      Pages M → Bool → Bool → Bool → Option (VmSpace M) → ℕ → ℕ → ℕ → ℕ → ℕ → ℤ × Option (VmSpace M)
  sys_mmap p cleared granted again mm addr length prot flags offset =
      if length == 0
      then (einval, mm)
      else (if not (offset % page_size == 0)
          then (einval, mm)
          else (if has flags map_private && has flags map_shared
              then (einval, mm)
              else (if not (has flags map_private) && not (has flags map_shared)
                  then (einval, mm)
                  else on_space enomem mm (λ mm.
                    if not (has flags map_anonymous)
                    then (enosys, mm)
                    else (if has flags map_shared
                        then (enosys, mm)
                        else place p cleared granted again mm addr (page_align_up length) flags
                            (prot_to_perm prot))))))

  unfoldable pub sys_munmap : Pages M → Bool → Option (VmSpace M) → ℕ → ℕ → ℤ × Option (VmSpace M)
  sys_munmap p granted mm addr length =
      if length == 0
      then (einval, mm)
      else (if not (addr % page_size == 0)
          then (einval, mm)
          else on_space einval mm (λ mm. vmm_unmap_user p granted mm addr (page_align_up length)))

  unfoldable pub sys_mprotect :
      Pages M → Protection M → Bool → Bool → Option (VmSpace M) → ℕ → ℕ → ℕ → ℤ × Option (VmSpace M)
  sys_mprotect p q granted granted_end mm addr len prot =
      let r = if has prot 1 then bit_or 0 1 else 0 in
      let w = if has prot 2 then bit_or r 2 else r in
      let vm_perm = if has prot 4 then bit_or w 4 else w in
      if len == 0
      then (einval, mm)
      else (if not (addr % page_size == 0)
          then (einval, mm)
          else on_space enomem mm
              (λ mm. vmm_protect_user p q granted granted_end mm addr len vm_perm))

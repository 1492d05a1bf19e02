-- ===== src/Pmap/Perm.antt =====
-- `vm_perm_to_pte` of na/arch/riscv/mm/pmap.cc, and the leaf that `map` writes with it.
use lume.Common.{ℕ, ◌%◌, ◌^◌, ◌<◌, ◌≡◌, ap, ◌∙◌, Bool, true, false, ◌&&◌, ◌||◌, some, arith, bit_or}
use lume.Pmap.{
  has, pa_to_pte, pte_v, pte_r, pte_w, pte_x, pte_u, pte_a, pte_d, pte_cow, pte_rwx, leaf_pte, when,
  vm_perm_to_pte,
}
use lume.Pmap.Bits.{has-bit_or, bit_or-lt, has-pa_to_pte, pte_to_pa-pa_to_pte}
use lume.Pmap.Shape.{decode}
use lume.Pmap.Leaf.{address}

has-when : (b : Bool) (pte flag m : ℕ) → has (when b pte flag) m ≡ (has pte m || (b && has flag m))
has-when true pte flag m = has-bit_or pte flag m
has-when false pte flag m = ground arith

when-lt : (b : Bool) (pte flag : ℕ) → pte < 2 ^ 10 → flag < 2 ^ 10 → when b pte flag < 2 ^ 10
when-lt true pte flag h g = bit_or-lt 10 pte flag h g
when-lt false pte flag h g = h

-- What the flags for a permission are.
pub record Grants (perm pte : ℕ) : Type 0 where
  pub valid : has pte pte_v ≡ true
  pub read : has pte pte_r ≡ has perm 1
  pub write : has pte pte_w ≡ has perm 2
  pub exec : has pte pte_x ≡ has perm 4
  pub user : has pte pte_u ≡ has perm 8
  pub leaf : has pte pte_rwx ≡ (has perm 1 || has perm 2 || has perm 4)
  pub unshared : has pte pte_cow ≡ false
  pub flags : pte < 2 ^ 10

has-vm_perm_to_pte :
    (perm m : ℕ)
    → has (vm_perm_to_pte perm) m ≡ (
        (((has 193 m || (has perm 1 && has pte_r m)) || (has perm 2 && has pte_w m))
          || (has perm 4 && has pte_x m))
        || (has perm 8 && has pte_u m))
unfolding vm_perm_to_pte
has-vm_perm_to_pte perm m =
    let a = when (has perm 1) 193 pte_r in
    let b = when (has perm 2) a pte_w in
    let c = when (has perm 4) b pte_x in
    has-when (has perm 8) c pte_u m
    ∙ ap (λ x. x || (has perm 8 && has pte_u m))
        (has-when (has perm 4) b pte_x m
          ∙ ap (λ x. x || (has perm 4 && has pte_x m))
              (has-when (has perm 2) a pte_w m
                ∙ ap (λ x. x || (has perm 2 && has pte_w m)) (has-when (has perm 1) 193 pte_r m)))

flags_small : (perm : ℕ) → vm_perm_to_pte perm < 2 ^ 10
unfolding vm_perm_to_pte
flags_small perm =
    let a = when-lt (has perm 1) 193 pte_r (omega arith) (omega arith) in
    let b = when-lt (has perm 2) (when (has perm 1) 193 pte_r) pte_w a (omega arith) in
    let c =
      when-lt (has perm 4) (when (has perm 2) (when (has perm 1) 193 pte_r) pte_w) pte_x b
        (omega arith) in
    when-lt (has perm 8)
      (when (has perm 4) (when (has perm 2) (when (has perm 1) 193 pte_r) pte_w) pte_x) pte_u c
      (omega arith)

-- `vm_perm_to_pte` gives flags that are valid and not copy-on-write, with the bits to read, write and
-- execute and the one for user mode each exactly when the permission has it; they make a leaf exactly
-- when the permission allows an access.
pub vm_perm_to_pte-Grants : (perm : ℕ) → Grants perm (vm_perm_to_pte perm)
vm_perm_to_pte-Grants perm = record {
  valid = has-vm_perm_to_pte perm pte_v ∙ ground arith;
  read = has-vm_perm_to_pte perm pte_r ∙ ground arith;
  write = has-vm_perm_to_pte perm pte_w ∙ ground arith;
  exec = has-vm_perm_to_pte perm pte_x ∙ ground arith;
  user = has-vm_perm_to_pte perm pte_u ∙ ground arith;
  leaf = has-vm_perm_to_pte perm pte_rwx ∙ ground arith;
  unshared = has-vm_perm_to_pte perm pte_cow ∙ ground arith;
  flags = flags_small perm;
}

-- The leaf that `map` writes for a permission that allows an access is one that `lookup` reads back.
pub address-leaf_pte :
    (pa perm : ℕ)
    → pa < 2 ^ 56
    → pa % 4096 ≡ 0
    → (has perm 1 || has perm 2 || has perm 4) ≡ true
    → address (decode (leaf_pte pa (vm_perm_to_pte perm))) ≡ some pa
address-leaf_pte pa perm small page access =
    let g = vm_perm_to_pte-Grants perm in
    let f = bit_or (bit_or (bit_or (vm_perm_to_pte perm) pte_v) pte_a) pte_d in
    let flags : f < 2 ^ 10 =
      bit_or-lt 10 (bit_or (bit_or (vm_perm_to_pte perm) pte_v) pte_a) pte_d
        (bit_or-lt 10 (bit_or (vm_perm_to_pte perm) pte_v) pte_a
          (bit_or-lt 10 (vm_perm_to_pte perm) pte_v g.flags (omega arith)) (omega arith))
        (omega arith) in
    let bits = λ (m : ℕ).
      has-bit_or (bit_or (bit_or (vm_perm_to_pte perm) pte_v) pte_a) pte_d m
      ∙ ap (λ x. x || has pte_d m)
          (has-bit_or (bit_or (vm_perm_to_pte perm) pte_v) pte_a m
            ∙ ap (λ x. x || has pte_a m) (has-bit_or (vm_perm_to_pte perm) pte_v m)) in
    let valid : has (pa_to_pte pa f) pte_v ≡ true =
      has-pa_to_pte pa f pte_v small flags (omega arith) ∙ bits pte_v ∙ ground (arith, g.valid) in
    let whole : has (pa_to_pte pa f) pte_rwx ≡ true =
      has-pa_to_pte pa f pte_rwx small flags (omega arith)
      ∙ bits pte_rwx
      ∙ ground (arith, g.leaf, access) in
    rw (valid, whole) (ap some (pte_to_pa-pa_to_pte pa f small page flags))

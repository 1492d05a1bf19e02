-- ===== src/Vma/Protect/Flags.antt =====
-- The flags that `vmm_protect_user` of na/mm/vma.cc gives to a page.
use lume.Common.{
  ℕ, ◌^◌, ◌<◌, ◌≡◌, refl, ◌∙◌, sym, subst, Bool, true, false, ◌&&◌, ◌||◌, not, ◌==◌, ==_iff, inl,
  inr, ◌⊎◌, arith, bit_or, bit_and, if◌then◌else◌,
}
use lume.Word.{not64}
use lume.Pmap.{has, when, pte_r, pte_w, pte_x, pte_u, pte_cow, pte_rwx, vm_perm_to_pte}
use lume.Pmap.Bits.{has-bit_or}
use lume.Vma.{vm_user}
use lume.Vma.Protect.{Protection, page_flags}
use lume.Vma.Protect.Laws.{LeafFlags}

-- What the bits of an entry allow: what the permissions say, but a page that is shared by a fork is
-- not written; it keeps its mark if the permissions allow writing.
pub record Access (r w x shared : Bool) (bit : ℕ → Bool) : Type 0 where
  pub read : bit pte_r ≡ r
  pub write : bit pte_w ≡ (w && not shared)
  pub exec : bit pte_x ≡ x
  pub user : bit pte_u ≡ true
  pub cow : bit pte_cow ≡ (w && shared)

abbrev flag_bits : Bool → Bool → Bool → Bool → ℕ
flag_bits r w x shared =
    let pte = when true (when x (when w (when r 193 pte_r) pte_w) pte_x) pte_u in
    if w && shared then bit_or (bit_and pte (not64 pte_w)) pte_cow else pte

record FlagBits (r w x shared : Bool) (flags : ℕ) : Type 0 where
  access : Access r w x shared (λ mask. has flags mask)
  small : flags < 2 ^ 10
  leaf : has flags pte_rwx ≡ (r || x || (w && not shared))

flag_bits-FlagBits : (r w x shared : Bool) → FlagBits r w x shared (flag_bits r w x shared)
flag_bits-FlagBits true true true true = record {
  access = record { read = refl; write = refl; exec = refl; user = refl; cow = refl };
  small = omega arith;
  leaf = refl;
}
flag_bits-FlagBits true true true false = record {
  access = record { read = refl; write = refl; exec = refl; user = refl; cow = refl };
  small = omega arith;
  leaf = refl;
}
flag_bits-FlagBits true true false true = record {
  access = record { read = refl; write = refl; exec = refl; user = refl; cow = refl };
  small = omega arith;
  leaf = refl;
}
flag_bits-FlagBits true true false false = record {
  access = record { read = refl; write = refl; exec = refl; user = refl; cow = refl };
  small = omega arith;
  leaf = refl;
}
flag_bits-FlagBits true false true true = record {
  access = record { read = refl; write = refl; exec = refl; user = refl; cow = refl };
  small = omega arith;
  leaf = refl;
}
flag_bits-FlagBits true false true false = record {
  access = record { read = refl; write = refl; exec = refl; user = refl; cow = refl };
  small = omega arith;
  leaf = refl;
}
flag_bits-FlagBits true false false true = record {
  access = record { read = refl; write = refl; exec = refl; user = refl; cow = refl };
  small = omega arith;
  leaf = refl;
}
flag_bits-FlagBits true false false false = record {
  access = record { read = refl; write = refl; exec = refl; user = refl; cow = refl };
  small = omega arith;
  leaf = refl;
}
flag_bits-FlagBits false true true true = record {
  access = record { read = refl; write = refl; exec = refl; user = refl; cow = refl };
  small = omega arith;
  leaf = refl;
}
flag_bits-FlagBits false true true false = record {
  access = record { read = refl; write = refl; exec = refl; user = refl; cow = refl };
  small = omega arith;
  leaf = refl;
}
flag_bits-FlagBits false true false true = record {
  access = record { read = refl; write = refl; exec = refl; user = refl; cow = refl };
  small = omega arith;
  leaf = refl;
}
flag_bits-FlagBits false true false false = record {
  access = record { read = refl; write = refl; exec = refl; user = refl; cow = refl };
  small = omega arith;
  leaf = refl;
}
flag_bits-FlagBits false false true true = record {
  access = record { read = refl; write = refl; exec = refl; user = refl; cow = refl };
  small = omega arith;
  leaf = refl;
}
flag_bits-FlagBits false false true false = record {
  access = record { read = refl; write = refl; exec = refl; user = refl; cow = refl };
  small = omega arith;
  leaf = refl;
}
flag_bits-FlagBits false false false true = record {
  access = record { read = refl; write = refl; exec = refl; user = refl; cow = refl };
  small = omega arith;
  leaf = refl;
}
flag_bits-FlagBits false false false false = record {
  access = record { read = refl; write = refl; exec = refl; user = refl; cow = refl };
  small = omega arith;
  leaf = refl;
}

page_flags_lem :
    {M : Type 0} (q : Protection M) (m : M) (perm addr : ℕ)
    → page_flags q m (bit_or perm vm_user) addr
      ≡ flag_bits (has perm 1) (has perm 2) (has perm 4) (q.is_cow m addr)
unfolding vm_perm_to_pte
page_flags_lem q m perm addr =
    let r : has (bit_or perm vm_user) 1 ≡ has perm 1 = has-bit_or perm vm_user 1 ∙ ground arith in
    let w : has (bit_or perm vm_user) 2 ≡ has perm 2 = has-bit_or perm vm_user 2 ∙ ground arith in
    let x : has (bit_or perm vm_user) 4 ≡ has perm 4 = has-bit_or perm vm_user 4 ∙ ground arith in
    let u : has (bit_or perm vm_user) 8 ≡ true = has-bit_or perm vm_user 8 ∙ ground arith in
    rw (r, w, x, u) refl

pub page_flags-Access :
    {M : Type 0} (q : Protection M) (m : M) (perm addr : ℕ)
    → Access
        (has perm 1)
        (has perm 2)
        (has perm 4)
        (q.is_cow m addr)
        (λ mask. has (page_flags q m (bit_or perm vm_user) addr) mask)
page_flags-Access q m perm addr =
    let r = has perm 1 in
    let w = has perm 2 in
    let x = has perm 4 in
    let c = q.is_cow m addr in
    subst (λ flags. Access r w x c (λ mask. has flags mask)) (sym (page_flags_lem q m perm addr))
      ((flag_bits-FlagBits r w x c).access)

-- Permissions under which a page that is shared still has a leaf: it can be read or executed. Without
-- any the page goes.
abbrev pub Mappable : ℕ → Type 0
Mappable perm = (perm ≡ 0) ⊎ (has perm 1 ≡ true) ⊎ (has perm 4 ≡ true)

pub page_flags-LeafFlags :
    {M : Type 0} (q : Protection M) (perm : ℕ)
    → Mappable perm
    → (m : M) (addr : ℕ) → (perm == 0) ≡ false
    → LeafFlags (page_flags q m (bit_or perm vm_user) addr)
page_flags-LeafFlags q perm how m addr some_perm =
    let e = page_flags_lem q m perm addr in
    let b = flag_bits-FlagBits (has perm 1) (has perm 2) (has perm 4) (q.is_cow m addr) in
    subst LeafFlags (sym e) (record {
      small = b.small;
      access = b.leaf ∙ elim how [
        | inl none_at_all ↦ cc ((==_iff perm 0).1 none_at_all, some_perm)
        | inr (inl read) ↦ rw read refl
        | inr (inr exec) ↦ rw exec (ground arith)
      ];
    })

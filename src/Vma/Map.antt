-- ===== src/Vma/Map.antt =====
-- `vmm_map_user` of na/mm/vma.cc, with the merging of neighbours.
use lume.Common.{
  einval, enomem, ℕ, ◌+◌, ◌%◌, ◌^◌, ◌≤◌, ◌<◌, ◌≡◌, refl, ◌∙◌, Bool, true, false, ◌&&◌, List, [],
  ◌∷◌, some, ◌==◌, ==_iff, leb, ltb, if◌then◌else◌, arith, Bool-cases, inl, inr, ◌⊎◌, All, bit_or,
  ℤ, pos,
}
use lume.Word.{add64}
use lume.Addr.{page_align_up, page_align_down}
use lume.Addr.Align.{page_align_down_lem, page_align_up_lem}
use lume.Vma.{
  Area, VmSpace, rb_add, joins, merge_next, merge_from, vma_try_merge_neighbors_locked,
  user_va_base, user_va_limit, vm_user, bad_range, vmm_map_user,
}
use lume.Vma.Areas.{
  perm_at, Ascends, Fits, IsValid, Apart, vma_overlaps_locked_lem, rb_add-Ascends, perm_at-rb_add,
  All-rb_add,
}

-- The lists give the same permissions everywhere, and the second is as valid as the first.
pub record Alike (lo : ℕ) (xs ys : List Area) : Type 0 where
  pub order : Ascends lo ys
  pub perms : (a : ℕ) → perm_at ys a ≡ perm_at xs a
  pub fits : All Fits xs → All Fits ys

merge_next-Alike :
    (lo : ℕ) (v : Area) (xs : List Area) → Ascends lo (v ∷ xs) → Alike lo (v ∷ xs) (merge_next v xs)
unfolding merge_next
merge_next-Alike lo v [] o = record { order = o; perms = λ a. refl; fits = λ h. h }
merge_next-Alike lo v (x ∷ xs) o = elim (Bool-cases (joins v x)) [
  | inr apart ↦ rw apart (record { order = o; perms = λ a. refl; fits = λ h. h })
  | inl joined ↦ rw joined (record {
    order = (o.0, ground (arith, o.1, o.2), o.2.2);
    perms = λ a. ground (arith, joined, o.1, o.2.1);
    fits = λ h.
        (record { below = h.1.0.below; from_page = h.0.from_page; to_page = h.1.0.to_page }, h.1.1);
  })
]

cons-Alike :
    (lo : ℕ) (x : Area) (xs ys : List Area)
    → lo ≤ x.start
    → x.start < x.end
    → Alike x.end xs ys
    → Alike lo (x ∷ xs) (x ∷ ys)
cons-Alike lo x xs ys low solid h = record {
  order = (low, solid, h.order);
  perms = λ a. ground (arith, h.perms a);
  fits = λ f. (f.0, h.fits f.1);
}

trans-Alike : (lo : ℕ) (xs ys zs : List Area) → Alike lo xs ys → Alike lo ys zs → Alike lo xs zs
trans-Alike lo xs ys zs f g = record {
  order = g.order;
  perms = λ a. g.perms a ∙ f.perms a;
  fits = λ h. g.fits (f.fits h);
}

joined-Alike :
    (lo : ℕ) (v x : Area) (xs : List Area)
    → Ascends lo (v ∷ x ∷ xs)
    → joins v x ≡ true
    → Alike lo (v ∷ x ∷ xs) (record v { end = x.end } ∷ xs)
unfolding merge_next
joined-Alike lo v x xs o joined = rw joined at (merge_next-Alike lo v (x ∷ xs) o)

merge_from-Alike :
    (lo key : ℕ) (prev : Area) (xs : List Area)
    → Ascends lo (prev ∷ xs)
    → Alike lo (prev ∷ xs) (merge_from key prev xs)
unfolding merge_from
merge_from-Alike lo key prev [] o = record { order = o; perms = λ a. refl; fits = λ h. h }
merge_from-Alike lo key prev (x ∷ xs) o = elim (Bool-cases (x.start == key)) [
  | inr other ↦ rw other (
      cons-Alike lo prev (x ∷ xs) (merge_from key x xs) o.0 o.1
        (merge_from-Alike prev.end key x xs o.2))
  | inl here ↦ elim (Bool-cases (joins prev x)) [
    | inr apart ↦
        rw (here, apart)
          (cons-Alike lo prev (x ∷ xs) (merge_next x xs) o.0 o.1
            (merge_next-Alike prev.end x xs o.2))
    | inl joined ↦
        let both : Area = record prev { end = x.end } in
        let one : Alike lo (prev ∷ x ∷ xs) (both ∷ xs) = joined-Alike lo prev x xs o joined in
        rw (here, joined)
          (trans-Alike lo (prev ∷ x ∷ xs) (both ∷ xs) (merge_next both xs) one
            (merge_next-Alike lo both xs one.order))
  ]
]

merge-Alike :
    (lo key : ℕ) (xs : List Area)
    → Ascends lo xs
    → Alike lo xs (vma_try_merge_neighbors_locked key xs)
unfolding vma_try_merge_neighbors_locked
merge-Alike lo key [] o = record { order = tt; perms = λ a. refl; fits = λ h. h }
merge-Alike lo key (x ∷ xs) o = elim (Bool-cases (x.start == key)) [
  | inl here ↦ rw here (merge_next-Alike lo x xs o)
  | inr later ↦ rw later (merge_from-Alike lo key x xs o)
]

-- A rounded range that is not empty is refused just where it leaves the user's addresses.
pub bad_range_lem :
    (va len : ℕ)
    → va < 2 ^ 64
    → len < 2 ^ 64
    → 0 < len
    → ((bad_range va len ≡ true) × ((va < user_va_base) ⊎ (user_va_limit < va + len)))
      ⊎ ((bad_range va len ≡ false)
          × (user_va_base ≤ va)
          × (va + len ≤ user_va_limit)
          × (add64 va len ≡ va + len))
unfolding bad_range
bad_range_lem va len h k some_page = elim (Bool-cases (ltb va user_va_base)) [
  | inl low ↦ inl (ground (arith, low), inl (ground (arith, low)))
  | inr fine ↦ elim (Bool-cases (ltb user_va_limit (va + len))) [
    | inl high ↦ inl (ground (arith, high), inr (ground (arith, high)))
    | inr within ↦ inr (
      ground (arith, fine, within),
      ground (arith, fine),
      ground (arith, within),
      ground (arith, within),
    )
  ]
]

module _ {M : Type 0} where
  pub record Mapped (s : VmSpace M) (start size perm : ℕ) (s' : VmSpace M) : Type 0 where
    pub valid : IsValid s'.areas
    pub inside : (user_va_base ≤ start) × (start + size ≤ user_va_limit)
    pub perms :
        (a : ℕ)
        → perm_at s'.areas a ≡ (
            if leb start a && ltb a (start + size)
            then some (bit_or perm vm_user)
            else perm_at s.areas a)
    pub pages : s'.pages ≡ s.pages
    pub heap : (s'.brk_start ≡ s.brk_start) × (s'.brk_end ≡ s.brk_end)

  -- What `vmm_map_user` may answer for the whole pages from `start` on.
  pub data MapOutcome (granted : Bool) (s : VmSpace M) (start size perm : ℕ)
      : ℤ × VmSpace M → Type 0 where
    nothing : size ≡ 0 → MapOutcome granted s start size perm (pos 0, s)
    outside :
        (start < user_va_base) ⊎ (user_va_limit < start + size)
        → MapOutcome granted s start size perm (einval, s)
    exhausted : granted ≡ false → MapOutcome granted s start size perm (enomem, s)
    occupied :
        (a : ℕ)
        → start ≤ a
        → a < start + size
        → (p : ℕ) × (perm_at s.areas a ≡ some p)
        → MapOutcome granted s start size perm (einval, s)
    mapped :
        (s' : VmSpace M)
        → Mapped s start size perm s'
        → MapOutcome granted s start size perm (pos 0, s')

  added-Mapped :
      (s : VmSpace M) (start size perm : ℕ)
      → IsValid s.areas
      → 0 < size
      → user_va_base ≤ start
      → start + size ≤ user_va_limit
      → start % 4096 ≡ 0
      → size % 4096 ≡ 0
      → Apart start (start + size) s.areas
      → Mapped s start size perm (record s {
        areas = vma_try_merge_neighbors_locked start (
            rb_add
              (record { start = start; end = start + size; perm = bit_or perm vm_user })
              s.areas);
      })
  added-Mapped s start size perm v full low high from_page to_page apart =
      let vma : Area = record { start = start; end = start + size; perm = bit_or perm vm_user } in
      let added = rb_add vma s.areas in
      let alike =
        merge-Alike user_va_base start added
          (rb_add-Ascends user_va_base vma s.areas v.0 low (omega arith) apart) in
      record {
        valid = (
          alike.order,
          alike.fits (
              All-rb_add Fits vma s.areas
                (record { below = high; from_page = from_page; to_page = omega arith }) v.1),
        );
        perms = λ a. alike.perms a ∙ perm_at-rb_add vma s.areas a apart;
        inside = (low, high);
        pages = refl;
        heap = (refl, refl);
      }

  -- On a valid space `vmm_map_user` does one of five things: nothing for an empty range, refuse a
  -- range outside the user's addresses, report that memory is out, refuse a range some address of
  -- which is mapped, or give exactly the addresses of the range the permissions.
  pub vmm_map_user-MapOutcome :
      (granted : Bool) (s : VmSpace M) (va len perm : ℕ)
      → IsValid s.areas
      → va < 2 ^ 64
      → len < 2 ^ 64
      → MapOutcome granted s
          (page_align_down va)
          (page_align_up len)
          perm
          (vmm_map_user granted s va len perm)
  unfolding vmm_map_user
  vmm_map_user-MapOutcome granted s va len perm v h k =
      let start = page_align_down va in
      let size = page_align_up len in
      let down = page_align_down_lem va h in
      let up = page_align_up_lem len k in
      elim (Bool-cases (size == 0)) [
        | inl empty ↦ rw empty (nothing ((==_iff size 0).0 empty))
        | inr full ↦
            elim (bad_range_lem start size (omega (arith, down)) (omega (arith, up))
              (ground (arith, full))) [
                | inl (bad, why) ↦ rw (full, bad) (outside why)
                | inr (good, low, high, sum) ↦
                    rw (full, good, sum)
                      (elim (Bool-cases granted) [
                        | inr denied ↦ rw denied (exhausted refl)
                        | inl given ↦
                            elim (vma_overlaps_locked_lem user_va_base start (start + size) s.areas
                              v.0 (ground (arith, full))) [
                                | inl (clear, apart, _) ↦
                                    rw (given, clear)
                                      (mapped _ (
                                        added-Mapped s start size perm v (ground (arith, full)) low
                                          high (omega (arith, down)) (omega (arith, up)) apart))
                                | inr (met, a, from, to, p, e) ↦
                                    rw (given, met) (occupied a from to (p, e))
                              ]
                      ])
              ]
      ]

-- ===== src/Vma/Find.antt =====
-- `mm_find_free_va` of na/mm/vma.cc: the lowest aligned address with room for the range.
use native.Mathlib.Nat.{div-mul-le_self, lt-div-mul-add, div-lt_iff_lt-mul, mul-le-mul_right}
use lume.Common.{
  ℕ, suc, zero, ◌+◌, ◌-◌, ◌/◌, ◌*◌, ◌%◌, ◌^◌, ◌≤◌, ◌<◌, ◌≡◌, refl, false, List, [], ◌∷◌, ◌==◌, leb,
  ltb, if◌then◌else◌, arith, Bool-cases, inl, inr, ◌⊎◌, All,
}
use lume.Word.{add64, sub64}
use lume.Addr.{page_align_up}
use lume.Addr.Align.{page_align_up_lem}
use lume.Vma.{Area, VmSpace, align_up_any, find_from, mm_find_free_va, user_va_base, user_va_limit}
use lume.Vma.Areas.{Ascends, Fits, IsValid, Apart, Apart-Ascends}

-- A multiple of the alignment.
abbrev pub Multiple : ℕ → ℕ → Type 0
Multiple align a = (q : ℕ) × (a ≡ q * align)

record AlignedUp (value align up : ℕ) : Type 0 where
  multiple : Multiple align up
  above : value ≤ up
  close : up < value + align
  least : (a : ℕ) → Multiple align a → value ≤ a → up ≤ a

round_up_lowest : (k value a : ℕ) → Multiple (suc k) a → value ≤ a → (value + k) / suc k * suc k ≤ a
round_up_lowest k value a (n, e) h =
    let below : value + k < suc n * suc k = omega (arith, e) in
    let quotient : (value + k) / suc k ≤ n =
      omega (
        arith,
        (div-lt_iff_lt-mul {k = suc k} {x = value + k} {y = suc n} (omega arith)).1 below,
      ) in
    omega (arith, mul-le-mul_right (suc k) quotient, e)

align_up_any-AlignedUp :
    (value align : ℕ)
    → 0 < align
    → value + align ≤ 2 ^ 64
    → AlignedUp value align (align_up_any value align)
unfolding align_up_any
align_up_any-AlignedUp value zero some_align limit = absurd (omega arith)
align_up_any-AlignedUp value (suc k) some_align limit =
    let q = (value + k) / suc k in
    let low : q * suc k ≤ value + k = div-mul-le_self (value + k) (suc k) in
    let high : value + k < q * suc k + suc k = lt-div-mul-add some_align in
    let sum : sub64 (add64 value (suc k)) 1 ≡ value + k = ground arith in
    let whole : (sub64 (add64 value (suc k)) 1 / suc k * suc k) % 2 ^ 64 ≡ q * suc k =
      rw sum (omega arith) in
    rw whole (record {
      multiple = (q, refl);
      above = omega arith;
      close = omega arith;
      least = round_up_lowest k value;
    })

-- Where the range may be placed.
pub record Slot (xs : List Area) (size align a : ℕ) : Type 0 where
  pub multiple : Multiple align a
  pub within : a + size ≤ user_va_limit
  pub free : Apart a (a + size) xs

abbrev pub Found : ℕ → List Area → ℕ → ℕ → ℕ → Type 0
Found floor xs size align r =
    (Slot xs size align r × (floor ≤ r) × ((a : ℕ) → floor ≤ a → Slot xs size align a → r ≤ a))
    ⊎ ((r ≡ 0) × ((a : ℕ) → floor ≤ a → Slot xs size align a → ⊥))

module _ (size align : ℕ) (page : 4096 ≤ align) (room : align ≤ 0x2000000000) (some_size : 0 < size)
    (small : size ≤ user_va_limit) where
  left : sub64 user_va_limit size ≡ user_va_limit - size
  left = omega arith

  -- Behind an area the search goes on from the next multiple.
  skip-Found :
      (x : Area) (xs : List Area) (floor next r : ℕ)
      → x.start < x.end
      → x.start < floor + size
      → floor ≤ next
      → ((a : ℕ) → Multiple align a → floor ≤ a → x.end ≤ a → next ≤ a)
      → x.end ≤ next
      → Found next xs size align r
      → Found floor (x ∷ xs) size align r
  skip-Found x xs floor next r solid met up least beyond (inl (slot, from, first)) = inl (
    record {
      multiple = slot.multiple;
      within = slot.within;
      free = (inr (omega arith), slot.free);
    },
    omega arith,
    λ a low s. elim s.free.0 [
      | inl before ↦ absurd (omega arith)
      | inr behind ↦
          first a (least a s.multiple low behind)
            (record { multiple = s.multiple; within = s.within; free = s.free.1 })
    ],
  )
  skip-Found x xs floor next r solid met up least beyond (inr (fails, first)) = inr (
    fails,
    λ a low s. elim s.free.0 [
      | inl before ↦ omega arith
      | inr behind ↦
          first a (least a s.multiple low behind)
            (record { multiple = s.multiple; within = s.within; free = s.free.1 })
    ],
  )

  find_from-Found :
      (lo : ℕ) (xs : List Area) (cursor : ℕ)
      → Ascends lo xs
      → All Fits xs
      → Multiple align cursor
      → cursor < user_va_limit + align
      → Found cursor xs size align (find_from xs size align cursor)
  unfolding find_from
  find_from-Found lo [] cursor o f m h =
      rw left (elim (Bool-cases (ltb (user_va_limit - size) cursor)) [
        | inl high ↦ rw high (inr (refl, λ a low s. ground (arith, high, s.within)))
        | inr fits ↦ rw fits (
            inl (
              record { multiple = m; within = ground (arith, fits); free = tt },
              omega arith,
              λ a low s. low,
            ))
      ])
  find_from-Found lo (x ∷ xs) cursor o f m h =
      let raised = if ltb cursor x.end then x.end else cursor in
      let up = align_up_any-AlignedUp raised align (omega arith) (ground (arith, f.0.below, o.1)) in
      let next = align_up_any raised align in
      let rest =
        find_from-Found x.end xs next o.2 f.1 up.multiple
          (ground (arith, f.0.below, up.close, up.least cursor m)) in
      let go_on : x.start < cursor + size
          → Found cursor (x ∷ xs) size align (find_from xs size align next) =
        λ met.
          skip-Found x xs cursor next (find_from xs size align next) o.1 met
            (ground (arith, up.above)) (λ a mult low behind. up.least a mult (ground arith))
            (ground (arith, up.above)) rest in
      rw left (elim (Bool-cases (leb cursor x.start)) [
        | inr under ↦ rw under (go_on (ground (arith, under)))
        | inl ahead ↦ elim (Bool-cases (ltb (user_va_limit - size) cursor)) [
          | inl high ↦ rw (ahead, high) (inr (refl, λ a low s. ground (arith, high, s.within)))
          | inr fits ↦
              let sum : add64 cursor size ≡ cursor + size = ground (arith, fits) in
              elim (Bool-cases (leb (cursor + size) x.start)) [
                | inr tight ↦ rw (ahead, fits, sum, tight) (go_on (ground (arith, tight)))
                | inl gap ↦
                    rw (ahead, fits, sum, gap)
                      (inl (
                        record {
                          multiple = m;
                          within = ground (arith, fits);
                          free = (
                            inl (ground (arith, gap)),
                            Apart-Ascends x.end cursor (cursor + size) xs o.2
                                (ground (arith, gap, o.1)),
                          );
                        },
                        omega arith,
                        λ a low s. low,
                      ))
              ]
        ]
      ])

-- In a valid space `mm_find_free_va` finds the lowest aligned address above the null page from which
-- the rounded length is free and below the limit, or 0 if there is none. The length is not 0 and not
-- above the limit, and the alignment, at least a page, at most 2 ^ 37.
pub mm_find_free_va-Found :
    {M : Type 0} (s : VmSpace M) (length align : ℕ)
    → IsValid s.areas
    → 0 < length
    → length ≤ user_va_limit
    → 4096 ≤ align
    → align ≤ 0x2000000000
    → Found user_va_base s.areas
        ((length + 4095) / 4096 * 4096)
        align
        (mm_find_free_va s length align)
unfolding mm_find_free_va
mm_find_free_va-Found s length align v some_length small page room =
    let size = (length + 4095) / 4096 * 4096 in
    let rounded : page_align_up length ≡ size =
      omega (arith, page_align_up_lem length (omega arith)) in
    let wide : ltb align 4096 ≡ false = ground arith in
    let full : (size == 0) ≡ false = ground arith in
    let up = align_up_any-AlignedUp 4096 align (omega arith) (omega arith) in
    rw (rounded, wide, full)
      (from_base (align_up_any 4096 align) up.above up.least (
        find_from-Found size align page room (omega arith) (omega arith) 4096 s.areas
          (align_up_any 4096 align) v.0 v.1 up.multiple (omega (arith, up.close))))
  where
    from_base :
        {xs : List Area} {size r : ℕ} (base : ℕ)
        → 4096 ≤ base
        → ((a : ℕ) → Multiple align a → 4096 ≤ a → base ≤ a)
        → Found base xs size align r
        → Found 4096 xs size align r
    from_base base low least (inl (slot, from, first)) =
        inl (slot, omega arith, λ a h s. first a (least a s.multiple h) s)
    from_base base low least (inr (fails, first)) =
        inr (fails, λ a h s. first a (least a s.multiple h) s)

-- A length above the limit is not caught: the difference from the limit wraps, and in an empty space
-- the first page is the answer, from where the range does not fit.
pub find_oversized :
    {M : Type 0} (s : VmSpace M) (length : ℕ)
    → s.areas ≡ []
    → user_va_limit < length
    → length + 4095 < 2 ^ 64
    → (mm_find_free_va s length 4096 ≡ user_va_base) × (user_va_limit < user_va_base + length)
unfolding mm_find_free_va find_from align_up_any
find_oversized s length empty large room =
    let size = (length + 4095) / 4096 * 4096 in
    let rounded : page_align_up length ≡ size =
      omega (arith, page_align_up_lem length (omega arith)) in
    let full : (size == 0) ≡ false = ground arith in
    let wraps : ltb (sub64 user_va_limit size) 4096 ≡ false = ground arith in
    (rw (rounded, full, empty, wraps) refl, omega arith)

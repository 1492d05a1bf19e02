-- ===== src/Vma/Covered.antt =====
-- `vma_range_covered` of na/mm/vma.cc.
use lume.Common.{
  ℕ, ◌+◌, ◌/◌, ◌*◌, ◌^◌, ◌≤◌, ◌<◌, ◌≡◌, refl, Bool, true, false, List, [], ◌∷◌, none, some, leb,
  ltb, arith, Bool-cases, inl, inr, ◌⊎◌,
}
use lume.Addr.Align.{page_align_down_lem, page_align_up-fits}
use lume.Vma.{Area, VmSpace, covered_from, vma_range_covered_locked, vma_range_covered}
use lume.Vma.Areas.{perm_at, Ascends, IsValid, perm_at_below}

-- Either all addresses of the range have an area, or the test fails and one has none.
abbrev pub Decides : Bool → List Area → ℕ → ℕ → Type 0
Decides answer xs start end =
    ((answer ≡ true) × ((a : ℕ) → start ≤ a → a < end → (p : ℕ) × (perm_at xs a ≡ some p)))
    ⊎ ((answer ≡ false) × (a : ℕ) × (start ≤ a) × (a < end) × (perm_at xs a ≡ none))

extend :
    (x : Area) (xs : List Area) (cursor end : ℕ)
    → x.start ≤ cursor
    → ((a : ℕ) → x.end ≤ a → a < end → (p : ℕ) × (perm_at xs a ≡ some p))
    → (a : ℕ) → cursor ≤ a
    → a < end
    → (p : ℕ) × (perm_at (x ∷ xs) a ≡ some p)
extend x xs cursor end low rest a from to = elim (Bool-cases (ltb a x.end)) [
  | inl inside ↦ (x.perm, ground (arith, inside))
  | inr beyond ↦ let (p, e) = rest a (ground arith) to in (p, ground (arith, e, beyond))
]

pub covered_from-Decides :
    (lo : ℕ) (xs : List Area) (cursor end : ℕ)
    → Ascends lo xs
    → Decides (covered_from xs cursor end) xs cursor end
unfolding covered_from
covered_from-Decides lo [] cursor end o = elim (Bool-cases (leb end cursor)) [
  | inl done ↦ inl (done, λ a from to. absurd (ground (arith, done)))
  | inr short ↦ inr (short, cursor, omega arith, ground (arith, short), refl)
]
covered_from-Decides lo (x ∷ xs) cursor end o = elim (Bool-cases (ltb cursor end)) [
  | inr done ↦ inl (ground (arith, done), λ a from to. absurd (ground (arith, done)))
  | inl short ↦ elim (Bool-cases (leb x.end cursor)) [
    | inl skip ↦
        rw (short, skip)
          (elim (covered_from-Decides x.end xs cursor end o.2) [
            | inl (met, all) ↦
                inl (met, λ a from to. let (p, e) = all a from to in (p, ground (arith, e, skip)))
            | inr (fails, a, from, to, e) ↦ inr (fails, a, from, to, ground (arith, e, skip))
          ])
    | inr meets ↦ elim (Bool-cases (ltb cursor x.start)) [
      | inl gap ↦
          rw (short, meets, gap)
            (inr (
              refl,
              cursor,
              omega arith,
              ground (arith, short),
              ground (arith, gap, o.1, perm_at_below x.end xs cursor o.2),
            ))
      | inr under ↦
          rw (short, meets, under)
            (elim (covered_from-Decides x.end xs x.end end o.2) [
              | inl (met, all) ↦ inl (met, extend x xs cursor end (ground arith) all)
              | inr (fails, a, from, to, e) ↦
                  inr (fails, a, ground (arith, meets), to, ground (arith, e))
            ])
    ]
  ]
]

-- The test on a range of a valid space: it succeeds just where every address of the pages that the
-- range touches has an area. The range ends below the last page of the address space.
pub vma_range_covered-Decides :
    {M : Type 0} (s : VmSpace M) (start end : ℕ)
    → IsValid s.areas
    → start < 2 ^ 64
    → end + 4095 < 2 ^ 64
    → Decides
        (vma_range_covered s start end)
        s.areas
        (start / 4096 * 4096)
        ((end + 4095) / 4096 * 4096)
unfolding vma_range_covered vma_range_covered_locked
vma_range_covered-Decides s start end v h k =
    let from = start / 4096 * 4096 in
    let to = (end + 4095) / 4096 * 4096 in
    rw (page_align_down_lem start h, page_align_up-fits end k)
      (elim (Bool-cases (leb to from)) [
        | inl empty ↦ rw empty (inl (refl, λ a low high. absurd (ground (arith, empty))))
        | inr full ↦ rw full (covered_from-Decides 4096 s.areas from to v.0)
      ])

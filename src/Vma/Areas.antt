-- ===== src/Vma/Areas.antt =====
-- Lists of areas of na/mm/vma.cc as maps from addresses to permissions.
use lume.Common.{
  ℕ, ◌%◌, ◌≤◌, ◌<◌, ◌≡◌, refl, Bool, true, false, ◌&&◌, List, [], ◌∷◌, Option, none, some, leb, ltb,
  if◌then◌else◌, arith, Bool-cases, inl, inr, ◌⊎◌, All,
}
use lume.Vma.{Area, range_overlaps, vma_overlaps_locked, rb_add, user_va_base, user_va_limit}

abbrev pub covers : Area → ℕ → Bool
covers x a = leb x.start a && ltb a x.end

-- The permissions of the area around the address, if there is one.
abbrev pub perm_at : List Area → ℕ → Option ℕ
perm_at [] a = none
perm_at (x ∷ xs) a = if covers x a then some x.perm else perm_at xs a

-- In order from `lo` on, none empty, and no two meet.
abbrev pub Ascends : ℕ → List Area → Type 0
Ascends lo [] = Unit
Ascends lo (x ∷ xs) = (lo ≤ x.start) × (x.start < x.end) × Ascends x.end xs

-- Whole pages below the limit.
pub record Fits (x : Area) : Type 0 where
  pub below : x.end ≤ user_va_limit
  pub from_page : x.start % 4096 ≡ 0
  pub to_page : x.end % 4096 ≡ 0

abbrev pub IsValid : List Area → Type 0
IsValid xs = Ascends user_va_base xs × All Fits xs

pub Ascends-mono : (lo low : ℕ) (xs : List Area) → low ≤ lo → Ascends lo xs → Ascends low xs
Ascends-mono lo low [] h o = tt
Ascends-mono lo low (x ∷ xs) h o = (omega (arith, o.0), o.1, o.2)

pub perm_at_below : (lo : ℕ) (xs : List Area) (a : ℕ) → Ascends lo xs → a < lo → perm_at xs a ≡ none
perm_at_below lo [] a o h = refl
perm_at_below lo (x ∷ xs) a o h = ground (arith, o.0, o.1, perm_at_below x.end xs a o.2)

-- Every area lies before or behind the range.
abbrev pub Apart : ℕ → ℕ → List Area → Type 0
Apart start end = All (λ x. (end ≤ x.start) ⊎ (x.end ≤ start))

-- The test for an overlap finds an address of the range with an area, or says that none has one.
pub vma_overlaps_locked_lem :
    (lo start end : ℕ) (xs : List Area)
    → Ascends lo xs
    → start < end
    → ((vma_overlaps_locked xs start end ≡ false)
        × Apart start end xs
        × ((a : ℕ) → start ≤ a → a < end → perm_at xs a ≡ none))
      ⊎ ((vma_overlaps_locked xs start end ≡ true)
          × (a : ℕ) × (start ≤ a)
          × (a < end)
          × (p : ℕ) × (perm_at xs a ≡ some p))
unfolding vma_overlaps_locked range_overlaps
vma_overlaps_locked_lem lo start end [] o h = inl (refl, tt, λ a _ _. refl)
vma_overlaps_locked_lem lo start end (x ∷ xs) o h = elim (Bool-cases (leb end x.start)) [
  | inl before ↦ elim (vma_overlaps_locked_lem x.end start end xs o.2 h) [
    | inl (clear, apart, free) ↦ inl (
      ground (arith, clear),
      (inl (ground arith), apart),
      λ a low high. ground (arith, free a low high),
    )
    | inr (met, a, low, high, p, e) ↦ absurd (ground (arith, o.1, e, perm_at_below x.end xs a o.2))
  ]
  | inr late ↦ elim (Bool-cases (leb x.end start)) [
    | inl behind ↦ elim (vma_overlaps_locked_lem x.end start end xs o.2 h) [
      | inl (clear, apart, free) ↦ inl (
        ground (arith, clear),
        (inr (ground arith), apart),
        λ a low high. ground (arith, free a low high),
      )
      | inr (met, a, low, high, p, e) ↦
          inr (ground (arith, met), a, low, high, p, ground (arith, e))
    ]
    | inr early ↦ inr (
      ground arith,
      if leb x.start start then start else x.start,
      ground arith,
      ground (arith, o.1),
      x.perm,
      ground (arith, o.1),
    )
  ]
]

pub rb_add-Ascends :
    (lo : ℕ) (v : Area) (xs : List Area)
    → Ascends lo xs
    → lo ≤ v.start
    → v.start < v.end
    → Apart v.start v.end xs
    → Ascends lo (rb_add v xs)
unfolding rb_add
rb_add-Ascends lo v [] o low solid apart = (low, solid, tt)
rb_add-Ascends lo v (x ∷ xs) o low solid apart = elim (Bool-cases (ltb v.start x.start)) [
  | inl here ↦ rw here (low, solid, (ground (arith, apart.0, o.1), o.1, o.2))
  | inr later ↦
      rw later (o.0, o.1, rb_add-Ascends x.end v xs o.2 (ground (arith, apart.0)) solid apart.1)
]

pub perm_at-rb_add :
    (v : Area) (xs : List Area) (a : ℕ)
    → Apart v.start v.end xs
    → perm_at (rb_add v xs) a ≡ (if covers v a then some v.perm else perm_at xs a)
unfolding rb_add
perm_at-rb_add v [] a apart = refl
perm_at-rb_add v (x ∷ xs) a apart = ground (arith, apart.0, perm_at-rb_add v xs a apart.1)

pub All-rb_add :
    (P : Area → Type 0) (v : Area) (xs : List Area) → P v → All P xs → All P (rb_add v xs)
unfolding rb_add
All-rb_add P v [] p h = (p, tt)
All-rb_add P v (x ∷ xs) p h = elim (Bool-cases (ltb v.start x.start)) [
  | inl here ↦ rw here (p, h)
  | inr later ↦ rw later (h.0, All-rb_add P v xs p h.1)
]

pub Apart-Ascends :
    (lo start end : ℕ) (xs : List Area) → Ascends lo xs → end ≤ lo → Apart start end xs
Apart-Ascends lo start end [] o h = tt
Apart-Ascends lo start end (x ∷ xs) o h =
    (inl (omega (arith, o.0)), Apart-Ascends x.end start end xs o.2 (omega (arith, o.0, o.1)))

pub perm_at-Apart :
    (start end a : ℕ) (xs : List Area)
    → Apart start end xs
    → start ≤ a
    → a < end
    → perm_at xs a ≡ none
perm_at-Apart start end a [] apart low high = refl
perm_at-Apart start end a (x ∷ xs) apart low high =
    ground (arith, apart.0, perm_at-Apart start end a xs apart.1 low high)

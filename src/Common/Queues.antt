-- ===== src/Common/Queues.antt =====
-- Intrusive lists as the lists of their members: a node is taken out of whichever list holds it.
use Prim.Native.Nat.{ℕ}
use mathlib.Core.Path.{◌≡◌, refl}
use mathlib.Core.Bool.{Bool, true, false, not, ◌&&◌, ◌||◌}
use mathlib.Core.List.{List, [], ◌∷◌, ◌++◌}
use native.Mathlib.Omega.{arith}
use lume.Common.Tests.{◌==◌, if◌then◌else◌}

abbrev pub unlink : ℕ → List ℕ → List ℕ
unlink t [] = []
unlink t (x ∷ xs) = let rest = unlink t xs in if x == t then rest else x ∷ rest

abbrev pub is_empty : List ℕ → Bool
is_empty [] = true
is_empty (_ ∷ _) = false

abbrev pub mem : ℕ → List ℕ → Bool
mem t [] = false
mem t (x ∷ xs) = (x == t) || mem t xs

abbrev pub Distinct : List ℕ → Type 0
Distinct [] = Unit
Distinct (x ∷ xs) = (mem x xs ≡ false) × Distinct xs

-- 1 for a list with an item.
abbrev pub flag : List ℕ → ℕ
flag [] = 0
flag (_ ∷ _) = 1

pub mem-snoc : (u t : ℕ) (xs : List ℕ) → mem u (xs ++ (t ∷ [])) ≡ (mem u xs || (t == u))
mem-snoc u t [] = ground arith
mem-snoc u t (x ∷ xs) = ground (arith, mem-snoc u t xs)

pub Distinct-snoc :
    (t : ℕ) (xs : List ℕ) → Distinct xs → mem t xs ≡ false → Distinct (xs ++ (t ∷ []))
Distinct-snoc t [] d h = (refl, tt)
Distinct-snoc t (x ∷ xs) d h = ground (arith, Distinct-snoc t xs d.1, mem-snoc x t xs)

pub flag-snoc : (t : ℕ) (xs : List ℕ) → flag (xs ++ (t ∷ [])) ≡ 1
flag-snoc t [] = refl
flag-snoc t (x ∷ xs) = refl

pub mem-unlink : (u t : ℕ) (xs : List ℕ) → mem u (unlink t xs) ≡ (not (u == t) && mem u xs)
mem-unlink u t [] = ground arith
mem-unlink u t (x ∷ xs) = ground (arith, mem-unlink u t xs)

pub Distinct-unlink : (t : ℕ) (xs : List ℕ) → Distinct xs → Distinct (unlink t xs)
Distinct-unlink t [] d = tt
Distinct-unlink t (x ∷ xs) d = ground (arith, Distinct-unlink t xs d.1, mem-unlink x t xs)

pub unlink_absent : (t : ℕ) (xs : List ℕ) → mem t xs ≡ false → unlink t xs ≡ xs
unlink_absent t [] h = refl
unlink_absent t (x ∷ xs) h = ground (arith, unlink_absent t xs)

-- A list from which a task can be taken and another is left was not empty.
pub flag-unlink :
    (t : ℕ) (xs : List ℕ)
    → is_empty (unlink t xs) ≡ false
    → (flag xs ≡ 1) × (flag (unlink t xs) ≡ 1)
flag-unlink t [] h = cc
flag-unlink t (x ∷ xs) h = (refl, flag_of_some (unlink t (x ∷ xs)) h)
  where
    flag_of_some : (ys : List ℕ) → is_empty ys ≡ false → flag ys ≡ 1
    flag_of_some [] h = cc
    flag_of_some (y ∷ ys) h = refl

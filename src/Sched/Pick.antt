-- ===== src/Sched/Pick.antt =====
-- `O1RunQueue::pick_next` against a scan of the lists: the bitmap finds what the scan finds.
use lume.Common.{
  flag, mem, ℕ, zero, suc, ◌+◌, ◌≤◌, ◌<◌, ◌≡◌, refl, sym, ap, ◌∙◌, true, List, [], ◌∷◌, Option,
  none, some, ◌==◌, ==_iff, arith, Bool-cases, inl, inr,
}
use lume.Word.Digits.{bit, bit-zero}
use lume.Bitops.{ctz32}
use lume.Bitops.Lowest.{Trails-bit, Trails-below}
use lume.Bitops.Trailing.{ctz32-Trails, Trails-lt}
use lume.Sched.{Tasks, O1RunQueue, front, pick_next, num_priorities}
use lume.Sched.Queue.{IsValid}

abbrev pub first_of : List ℕ → Option ℕ → Option ℕ
first_of [] rest = rest
first_of (t ∷ _) rest = some t

-- The first task of the first list with one, from list p on, among k lists.
abbrev pub scan : ℕ → ℕ → (ℕ → List ℕ) → Option ℕ
scan zero p queues = none
scan (suc k) p queues = first_of (queues p) (scan k (suc p) queues)

first_of_empty : (xs : List ℕ) (rest : Option ℕ) → flag xs ≡ 0 → first_of xs rest ≡ rest
first_of_empty [] rest e = refl
first_of_empty (x ∷ xs) rest e = absurd (omega arith)

front_of_some : (xs : List ℕ) (rest : Option ℕ) → flag xs ≡ 1 → front xs ≡ some (first_of xs rest)
unfolding front
front_of_some [] rest e = absurd (omega arith)
front_of_some (x ∷ xs) rest e = refl

-- All lists empty.
scan-none :
    (k p : ℕ) (queues : ℕ → List ℕ)
    → ((i : ℕ) → p ≤ i → i < p + k → flag (queues i) ≡ 0)
    → scan k p queues ≡ none
scan-none zero p queues h = refl
scan-none (suc k) p queues h =
    first_of_empty (queues p) (scan k (suc p) queues) (h p (omega arith) (omega arith))
    ∙ scan-none k (suc p) queues (λ i lo hi. h i (omega arith) (omega arith))

-- Lists before n empty, list n not.
front-scan :
    (k p n : ℕ) (queues : ℕ → List ℕ)
    → p ≤ n
    → n < p + k
    → ((i : ℕ) → p ≤ i → i < n → flag (queues i) ≡ 0)
    → flag (queues n) ≡ 1
    → front (queues n) ≡ some (scan k p queues)
front-scan zero p n queues lo hi before here = absurd (omega arith)
front-scan (suc k) p n queues lo hi before here = elim (Bool-cases (p == n)) [
  | inl same ↦
      let eq : n ≡ p = sym ((==_iff p n).0 same) in
      rw eq (front_of_some (queues p) (scan k (suc p) queues) (rw eq at here))
  | inr other ↦
      let after : p < n = ground arith in
      front-scan k (suc p) n queues after (omega arith) (λ i lo hi. before i (omega arith) hi) here
      ∙ ap some
          (sym (first_of_empty (queues p) (scan k (suc p) queues) (before p (omega arith) after)))
]

-- `pick_next` never reads an empty list, and finds the task that has waited longest among those of
-- the most urgent priority that has one, or none if all lists are empty.
pub pick_next-scan :
    (q : O1RunQueue) (tasks : Tasks)
    → IsValid q tasks
    → pick_next q ≡ some (scan num_priorities 0 q.queues)
unfolding pick_next
pick_next-scan q tasks v = elim (Bool-cases (q.bitmap == 0)) [
  | inl clear ↦
      let none_set : q.bitmap ≡ 0 = (==_iff q.bitmap 0).0 clear in
      rw clear (
        ap some (
          sym (
            scan-none 32 0 q.queues
              (λ i lo hi. sym (v.bits i hi) ∙ ap (λ t. bit t i) none_set ∙ bit-zero i))))
  | inr set ↦
      let trails = ctz32-Trails q.bitmap (ground arith) v.word in
      let n = ctz32 q.bitmap in
      let small = Trails-lt q.bitmap n 32 v.word trails in
      rw set (
        front-scan 32 0 n q.queues (omega arith) small
          (λ i lo hi. sym (v.bits i (omega arith)) ∙ Trails-below q.bitmap n i trails hi)
          (sym (v.bits n small) ∙ Trails-bit q.bitmap n trails))
]

head_or_rest :
    (xs : List ℕ) (t : ℕ) (rest : Option ℕ)
    → first_of xs rest ≡ some t
    → (P : ℕ → Type 0) → (mem t xs ≡ true → (n : ℕ) × P n)
    → (rest ≡ some t → (n : ℕ) × P n)
    → (n : ℕ) × P n
head_or_rest [] t rest e P here later = later e
head_or_rest (x ∷ xs) t rest e P here later = here (ground arith)

-- What the scan finds is in a list.
pub scan-mem :
    (k p : ℕ) (queues : ℕ → List ℕ) (t : ℕ)
    → scan k p queues ≡ some t
    → (n : ℕ) × (mem t (queues n) ≡ true)
scan-mem zero p queues t e = cc
scan-mem (suc k) p queues t e =
    head_or_rest (queues p) t (scan k (suc p) queues) e (λ n. mem t (queues n) ≡ true) (λ m. (p, m))
      (scan-mem k (suc p) queues t)

-- ===== src/Vma/Protect/Areas.antt =====
-- The loop of `vmm_protect_user` of na/mm/vma.cc over the areas: their permissions.
use lume.Common.{
  ℕ, ◌≤◌, ◌≡◌, refl, true, false, List, [], ◌∷◌, Option, none, some, leb, if◌then◌else◌, arith,
  Bool-cases, inl, inr, ◌⊎◌, All, ℤ, pos, bit_or,
}
use lume.Vma.{Area, Pages, vm_user, page_count}
use lume.Vma.Areas.{covers, perm_at, Ascends, Fits, perm_at_below}
use lume.Vma.Release.{within}
use lume.Vma.Protect.{Protection, is_negative, protect_area, protect_walk}
use lume.Vma.Protect.Splits.{Cut}

abbrev pub renewed : ℕ → Option ℕ → Option ℕ
renewed new none = none
renewed new (some _) = some new

-- What the walk over the areas does to their permissions.
pub record Protected (lo va end new : ℕ) (xs : List Area) (r : ℤ) (ys : List Area) : Type 0 where
  pub order : Ascends lo ys
  pub fits : All Fits xs → All Fits ys
  pub answer :
      ((r ≡ pos 0)
        × ((a : ℕ)
            → perm_at ys a
              ≡ (if within va end a then renewed new (perm_at xs a) else perm_at xs a)))
      ⊎ (is_negative r ≡ true)

keep-Protected :
    (lo va end new : ℕ) (x : Area) (xs ys : List Area) (r : ℤ)
    → Ascends lo (x ∷ xs)
    → x.end ≤ va
    → Protected x.end va end new xs r ys
    → Protected lo va end new (x ∷ xs) r (x ∷ ys)
keep-Protected lo va end new x xs ys r o before h = record {
  order = (o.0, o.1, h.order);
  fits = λ f. (f.0, h.fits f.1);
  answer = elim h.answer [
    | inr negative ↦ inr negative
    | inl (e, perms) ↦ inl (
      e,
      λ a. elim (Bool-cases (covers x a)) [
        | inl here ↦
            let outside : within va end a ≡ false = ground (arith, here, before) in
            rw (here, outside) refl
        | inr other ↦ rw other (perms a)
      ],
    )
  ];
}

renew-Protected :
    (lo va end new : ℕ) (x : Area) (xs ys : List Area) (r : ℤ)
    → Ascends lo (x ∷ xs)
    → va ≤ x.start
    → x.end ≤ end
    → Protected x.end va end new xs r ys
    → Protected lo va end new (x ∷ xs) r (record x { perm = new } ∷ ys)
renew-Protected lo va end new x xs ys r o from to h = record {
  order = (o.0, o.1, h.order);
  fits = λ f.
      (record { below = f.0.below; from_page = f.0.from_page; to_page = f.0.to_page }, h.fits f.1);
  answer = elim h.answer [
    | inr negative ↦ inr negative
    | inl (e, perms) ↦ inl (
      e,
      λ a. elim (Bool-cases (covers x a)) [
        | inl here ↦
            let inside : within va end a ≡ true = ground (arith, here, from, to) in
            rw (here, inside) refl
        | inr other ↦ rw other (perms a)
      ],
    )
  ];
}

same-Protected :
    (lo va end new : ℕ) (xs : List Area) (r : ℤ)
    → Ascends lo xs
    → ((r ≡ pos 0) × (end ≤ lo)) ⊎ (is_negative r ≡ true)
    → Protected lo va end new xs r xs
same-Protected lo va end new xs r o how = record {
  order = o;
  fits = λ f. f;
  answer = elim how [
    | inr negative ↦ inr negative
    | inl (e, beyond) ↦ inl (
      e,
      λ a. elim (Bool-cases (within va end a)) [
        | inr outside ↦ rw outside refl
        | inl inside ↦
            let nobody = perm_at_below lo xs a o (ground (arith, inside, beyond)) in
            rw (inside, nobody) refl
      ],
    )
  ];
}

module _ {M : Type 0} (p : Pages M) (q : Protection M) (va end perm : ℕ) where
  pub protect_walk-Protected :
      (lo : ℕ) (m : M) (xs : List Area)
      → Ascends lo xs
      → Cut va xs
      → Cut end xs
      → Protected lo va end
          (bit_or perm vm_user)
          xs
          (protect_walk p q va end perm m xs).0
          (protect_walk p q va end perm m xs).2
  unfolding protect_walk
  protect_walk-Protected lo m [] o c d = record {
    order = tt;
    fits = λ f. f;
    answer =
        inl (
          refl,
          λ a. elim (Bool-cases (within va end a)) [ inl e ↦ rw e refl | inr e ↦ rw e refl ],
        );
  }
  protect_walk-Protected lo m (x ∷ xs) o c d = elim (Bool-cases (leb end x.start)) [
    | inl beyond ↦
        let h =
          same-Protected x.start va end (bit_or perm vm_user) (x ∷ xs) (pos 0)
            (omega arith, o.1, o.2) (inl (refl, ground (arith, beyond))) in
        rw beyond (record { order = o; fits = h.fits; answer = h.answer })
    | inr meets ↦ elim (Bool-cases (leb x.end va)) [
      | inl before ↦
          rw (meets, before)
            (keep-Protected lo va end (bit_or perm vm_user) x xs
              (protect_walk p q va end perm m xs).2 (protect_walk p q va end perm m xs).0 o
              (ground (arith, before)) (protect_walk-Protected x.end m xs o.2 c.1 d.1))
      | inr behind ↦
          let from : va ≤ x.start = elim c.0 [
            | inl h ↦ h
            | inr h ↦ absurd (ground (arith, h, behind))
          ] in
          let to : x.end ≤ end = elim d.0 [
            | inl h ↦ absurd (ground (arith, h, meets))
            | inr h ↦ h
          ] in
          let one =
            protect_area p q perm (bit_or perm vm_user) (page_count x.start x.end) m x.start in
          elim (Bool-cases (is_negative one.0)) [
            | inl negative ↦
                rw (meets, behind, negative)
                  (renew-Protected lo va end (bit_or perm vm_user) x xs xs one.0 o from to
                    (same-Protected x.end va end (bit_or perm vm_user) xs one.0 o.2 (inr negative)))
            | inr fine ↦
                rw (meets, behind, fine)
                  (renew-Protected lo va end (bit_or perm vm_user) x xs
                    (protect_walk p q va end perm one.1 xs).2
                    (protect_walk p q va end perm one.1 xs).0 o from to
                    (protect_walk-Protected x.end one.1 xs o.2 c.1 d.1))
          ]
    ]
  ]

-- ===== src/Vma/Protect/Splits.antt =====
-- `vma_split_range_locked` of na/mm/vma.cc: the permissions stay, and no area straddles the ends.
use lume.Common.{
  ℕ, ◌+◌, ◌-◌, ◌%◌, ◌^◌, ◌≤◌, ◌<◌, ◌≡◌, refl, ap, ◌∙◌, Bool, true, false, ◌&&◌, ◌||◌, List, [], ◌∷◌,
  some, leb, if◌then◌else◌, arith, Bool-cases, inl, inr, ◌⊎◌, All, ℤ, pos, enomem,
}
use lume.Word.{sub64}
use lume.Vma.{Area, rb_add}
use lume.Vma.Areas.{
  covers, perm_at, Ascends, Ascends-mono, Fits, rb_add-Ascends, perm_at-rb_add, All-rb_add,
  Apart-Ascends, perm_at_below,
}
use lume.Vma.Protect.{vma_split_locked, split_found, vma_split_range_locked, is_negative}

-- No area has the address inside: it ends before, or starts behind or there.
abbrev pub Cut : ℕ → List Area → Type 0
Cut a = All (λ x. (a ≤ x.start) ⊎ (x.end ≤ a))

-- What a split may answer.
pub record Split (granted : Bool) (lo split : ℕ) (xs : List Area) (r : ℤ) (ys : List Area)
    : Type 0 where
  pub order : Ascends lo ys
  pub perms : (a : ℕ) → perm_at ys a ≡ perm_at xs a
  pub fits : All Fits xs → All Fits ys
  pub keeps : (c : ℕ) → Cut c xs → Cut c ys
  pub answer : ((r ≡ pos 0) × Cut split ys) ⊎ ((r ≡ enomem) × (granted ≡ false))

pub Cut-Ascends : (lo a : ℕ) (xs : List Area) → Ascends lo xs → a ≤ lo → Cut a xs
Cut-Ascends lo a [] o h = tt
Cut-Ascends lo a (x ∷ xs) o h =
    (inl (omega (arith, o.0, h)), Cut-Ascends x.end a xs o.2 (omega (arith, o.0, o.1, h)))

-- The area is split in two.
halves-Split :
    (granted : Bool) (lo split : ℕ) (v : Area) (xs : List Area)
    → Ascends lo (v ∷ xs)
    → split % 4096 ≡ 0
    → v.start < split
    → split < v.end
    → Split granted lo split
        (v ∷ xs)
        (pos 0)
        (record v { end = split } ∷ rb_add (record v { start = split }) xs)
halves-Split granted lo split v xs o page low high =
    let left : Area = record v { end = split } in
    let right : Area = record v { start = split } in
    let apart = Apart-Ascends v.end split v.end xs o.2 (omega arith) in
    record {
      order = (
        o.0,
        low,
        rb_add-Ascends split right xs (Ascends-mono v.end split xs (omega (arith, high)) o.2)
            (omega arith) high apart,
      );
      perms = λ a. ground (arith, perm_at-rb_add right xs a apart, low, high);
      fits = λ f. (
        record {
          below = omega (arith, f.0.below, high);
          from_page = f.0.from_page;
          to_page = page;
        },
        All-rb_add Fits right xs
            (record { below = f.0.below; from_page = page; to_page = f.0.to_page }) f.1,
      );
      keeps = λ c h. (
        elim h.0 [ inl before ↦ inl before | inr behind ↦ inr (omega (arith, behind, high)) ],
        All-rb_add (λ x. (c ≤ x.start) ⊎ (x.end ≤ c)) right xs
            (elim h.0 [ inl before ↦ inl (omega (arith, before, low)) | inr behind ↦ inr behind ])
            h.1,
      );
      answer = inl (
        refl,
        (
          inr (omega arith),
          All-rb_add (λ x. (split ≤ x.start) ⊎ (x.end ≤ split)) right xs (inl (omega arith))
              (Cut-Ascends v.end split xs o.2 (omega (arith, high))),
        ),
      );
    }

vma_split_locked-Split :
    (granted : Bool) (lo split : ℕ) (v : Area) (xs : List Area)
    → Ascends lo (v ∷ xs)
    → split % 4096 ≡ 0
    → v.start ≤ split
    → split ≤ v.end
    → Split granted lo split
        (v ∷ xs)
        (vma_split_locked granted v xs split).0
        (vma_split_locked granted v xs split).1
unfolding vma_split_locked
vma_split_locked-Split granted lo split v xs o page low high =
    elim (Bool-cases (leb split v.start || leb v.end split)) [
      | inl whole ↦ rw whole (record {
        order = o;
        perms = λ a. refl;
        fits = λ f. f;
        keeps = λ c h. h;
        answer = inl (
          refl,
          (
            elim (Bool-cases (leb split v.start)) [
              | inl first ↦ inl (ground (arith, first))
              | inr later ↦ inr (ground (arith, whole, later))
            ],
            Cut-Ascends v.end split xs o.2 high,
          ),
        );
      })
      | inr inside ↦ elim (Bool-cases granted) [
        | inl yes_memory ↦
            rw (inside, yes_memory)
              (halves-Split true lo split v xs o page (ground (arith, inside))
                (ground (arith, inside)))
        | inr out_of ↦
            rw (inside, out_of)
              (record {
                order = o;
                perms = λ a. refl;
                fits = λ f. f;
                keeps = λ c h. h;
                answer = inr (refl, refl);
              })
      ]
    ]

pub split_found-Split :
    (granted : Bool) (lo key split : ℕ) (xs : List Area) (p : ℕ)
    → Ascends lo xs
    → split % 4096 ≡ 0
    → key ≤ split
    → split ≤ key + 1
    → perm_at xs key ≡ some p
    → Split granted lo split xs
        (split_found granted key split xs).0
        (split_found granted key split xs).1
unfolding split_found
split_found-Split granted lo key split [] p o page low high found = cc found
split_found-Split granted lo key split (v ∷ xs) p o page low high found =
    elim (Bool-cases (covers v key)) [
      | inl here ↦ rw here (
          vma_split_locked-Split granted lo split v xs o page (ground (arith, here, low))
            (ground (arith, here, high)))
      | inr other ↦
          let later : perm_at xs key ≡ some p = rw other at found in
          let rest = split_found-Split granted v.end key split xs p o.2 page low high later in
          let passed : v.end ≤ key = elim (Bool-cases (leb v.end key)) [
            | inl behind ↦ ground (arith, behind)
            | inr early ↦ cc (later, perm_at_below v.end xs key o.2 (ground (arith, early)))
          ] in
          rw other (record {
            order = (o.0, o.1, rest.order);
            perms = λ a. ap (λ x. if covers v a then some v.perm else x) (rest.perms a);
            fits = λ f. (f.0, rest.fits f.1);
            keeps = λ c h. (h.0, rest.keeps c h.1);
            answer = elim rest.answer [
              | inl (e, cut) ↦ inl (e, (inr (omega (arith, passed, low)), cut))
              | inr denied ↦ inr denied
            ];
          })
    ]

pub record RangeSplit (granted granted_end : Bool) (lo start end : ℕ) (xs : List Area) (r : ℤ)
    (ys : List Area) : Type 0 where
  pub order : Ascends lo ys
  pub perms : (a : ℕ) → perm_at ys a ≡ perm_at xs a
  pub fits : All Fits xs → All Fits ys
  pub answer :
      ((r ≡ pos 0) × Cut start ys × Cut end ys)
      ⊎ ((r ≡ enomem) × ((granted && granted_end) ≡ false))

range_found :
    (granted granted_end : Bool) (lo start end : ℕ) (xs : List Area) (r : ℤ) (ys : List Area)
    → start < end
    → end < 2 ^ 64
    → end % 4096 ≡ 0
    → ((a : ℕ) → start ≤ a → a < end → (p : ℕ) × (perm_at xs a ≡ some p))
    → Split granted lo start xs r ys
    → RangeSplit granted granted_end lo start end xs
        (if is_negative r then (r, ys) else split_found granted_end (sub64 end 1) end ys).0
        (if is_negative r then (r, ys) else split_found granted_end (sub64 end 1) end ys).1
range_found granted granted_end lo start end xs r ys some_page small page covered first =
    elim first.answer [
      | inr (e, denied) ↦
          let negative : is_negative r ≡ true = ap is_negative e in
          rw negative (record {
            order = first.order;
            perms = first.perms;
            fits = first.fits;
            answer = inr (e, ground (arith, denied));
          })
      | inl (e, cut) ↦
          let fine : is_negative r ≡ false = ap is_negative e in
          let key : sub64 end 1 ≡ end - 1 = omega (arith, some_page, small) in
          let (p, found) =
            covered (sub64 end 1) (omega (arith, key, some_page)) (omega (arith, key, some_page)) in
          let last =
            split_found-Split granted_end lo (sub64 end 1) end ys p first.order page
              (omega (arith, key)) (omega (arith, key, some_page))
              (first.perms (sub64 end 1) ∙ found) in
          rw fine (record {
            order = last.order;
            perms = λ a. last.perms a ∙ first.perms a;
            fits = λ f. last.fits (first.fits f);
            answer = elim last.answer [
              | inl (f, cut_end) ↦ inl (f, last.keeps start cut, cut_end)
              | inr (f, denied) ↦ inr (f, ground (arith, denied))
            ];
          })
    ]

pub vma_split_range_locked-RangeSplit :
    (granted granted_end : Bool) (lo start end : ℕ) (xs : List Area)
    → Ascends lo xs
    → start < end
    → end < 2 ^ 64
    → start % 4096 ≡ 0
    → end % 4096 ≡ 0
    → ((a : ℕ) → start ≤ a → a < end → (p : ℕ) × (perm_at xs a ≡ some p))
    → RangeSplit granted granted_end lo start end xs
        (vma_split_range_locked granted granted_end xs start end).0
        (vma_split_range_locked granted granted_end xs start end).1
unfolding vma_split_range_locked
vma_split_range_locked-RangeSplit granted granted_end lo start end xs o some_page small from to
      covered =
    let full : leb end start ≡ false = ground (arith, some_page) in
    let (p, found) = covered start (omega arith) some_page in
    let first =
      split_found-Split granted lo start start xs p o from (omega arith) (omega arith) found in
    rw full (
      range_found granted granted_end lo start end xs (split_found granted start start xs).0
        (split_found granted start start xs).1 some_page small to covered first)

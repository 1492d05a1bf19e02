-- ===== src/Vma/Walk.antt =====
-- The loop of `vmm_unmap_user` of na/mm/vma.cc over the areas: what is left of each one.
use lume.Common.{
  enomem, ℕ, ◌+◌, ◌*◌, ◌%◌, ◌≤◌, ◌<◌, ◌≡◌, refl, ap, ◌∙◌, Bool, true, false, ◌&&◌, List, [], ◌∷◌,
  none, ◌==◌, leb, ltb, if◌then◌else◌, arith, Bool-cases, inl, inr, ◌⊎◌, All, ℤ, pos,
}
use lume.Vma.{Area, Pages, rb_add, release_pages, page_count, unmap_walk}
use lume.Vma.Areas.{
  covers, perm_at, Ascends, Fits, Ascends-mono, perm_at_below, rb_add-Ascends, perm_at-rb_add,
  All-rb_add, Apart-Ascends,
}
use lume.Vma.Release.{va_span, PagesLaws, within, is_some, lookup-release_pages}

module _ {M : Type 0} (p : Pages M) (laws : PagesLaws p) where
  module _ (granted : Bool) (va end : ℕ) (from_page : va % 4096 ≡ 0) (to_page : end % 4096 ≡ 0)
      (some_page : va < end) (high : end ≤ va_span) where
    abbrev hit : ℕ → Bool
    hit a = within va end a

    -- The areas of the range are gone, and so are their pages.
    pub record Cleared (lo : ℕ) (m : M) (xs : List Area) (r : ℤ × M × List Area) : Type 0 where
      pub answer : r.0 ≡ pos 0
      pub order : Ascends lo r.2
      pub fits : All Fits r.2
      pub perms : (a : ℕ) → perm_at r.2 a ≡ (if hit a then none else perm_at xs a)
      pub pages :
          (b : ℕ)
          → b % 4096 ≡ 0
          → b < va_span
          → p.lookup r.1 b ≡ (if hit b && is_some (perm_at xs b) then none else p.lookup m b)

    -- An area has to be split, and there is no room for its second half.
    pub record Stuck (lo : ℕ) (xs : List Area) (r : ℤ × M × List Area) : Type 0 where
      pub answer : r.0 ≡ enomem
      pub denied : granted ≡ false
      pub areas : r.2 ≡ xs
      inside : lo < va

    abbrev pub Walked : ℕ → M → List Area → ℤ × M × List Area → Type 0
    Walked lo m xs r = Cleared lo m xs r ⊎ Stuck lo xs r

    module _ (lo : ℕ) (m : M) (x : Area) (xs : List Area) (o : Ascends lo (x ∷ xs))
        (f : All Fits (x ∷ xs)) where
      keep :
          (r : ℤ × M × List Area)
          → x.end ≤ va
          → Walked x.end m xs r
          → Walked lo m (x ∷ xs) (r.0, r.1, x ∷ r.2)
      keep r h (inl c) = inl (record {
        answer = c.answer;
        order = (o.0, o.1, c.order);
        fits = (f.0, c.fits);
        perms = λ a. ground (arith, c.perms a);
        pages = λ b k q. ground (arith, c.pages b k q);
      })
      keep r h (inr c) = inr (record {
        answer = c.answer;
        denied = c.denied;
        areas = ap (λ ys. x ∷ ys) c.areas;
        inside = omega (arith, o.0, o.1);
      })

      stop : end ≤ x.start → Cleared lo m (x ∷ xs) (pos 0, m, x ∷ xs)
      stop h = record {
        answer = refl;
        order = o;
        fits = f;
        perms = λ a. ground (arith, o.1, perm_at_below x.end xs a o.2);
        pages = λ b k q. ground (arith, o.1, perm_at_below x.end xs b o.2);
      }

      -- The range meets the area: the pages between `from` and `to` go, whatever is left of it.
      module _ (early : va < x.end) (late : x.start < end) where
        abbrev from : ℕ
        from = if ltb va x.start then x.start else va

        abbrev to : ℕ
        to = if ltb x.end end then x.end else end

        abbrev released : M
        released = release_pages p (page_count from to) m from

        released_lem :
            (b : ℕ)
            → b % 4096 ≡ 0
            → b < va_span
            → p.lookup released b ≡ (if hit b && covers x b then none else p.lookup m b)
        released_lem b k q =
            let count : from + page_count from to * 4096 ≡ to =
              ground (arith, f.0.from_page, f.0.to_page) in
            let aligned : from % 4096 ≡ 0 = ground (arith, f.0.from_page) in
            let low : to ≤ va_span = ground arith in
            lookup-release_pages p laws (page_count from to) m from b aligned k q
              (omega (arith, count))
            ∙ ground (arith, count)

        pages_left :
            (n : M) (b : ℕ)
            → b % 4096 ≡ 0
            → b < va_span
            → p.lookup n b ≡ (if hit b && is_some (perm_at xs b) then none else p.lookup released b)
            → p.lookup n b ≡ (if hit b && is_some (perm_at (x ∷ xs) b) then none else p.lookup m b)
        pages_left n b k q e = e ∙ ground (arith, released_lem b k q)

        piece-Fits :
            (a b : ℕ)
            → a % 4096 ≡ 0
            → b % 4096 ≡ 0
            → b ≤ x.end
            → Fits (record x { start = a; end = b })
        piece-Fits a b h k below = record {
          below = omega (arith, f.0.below);
          from_page = h;
          to_page = k;
        }

        module _ (r : ℤ × M × List Area) (c : Cleared x.end released xs r) where
          -- Nothing of the area is left.
          whole : from ≡ x.start → to ≡ x.end → Cleared lo m (x ∷ xs) r
          whole h k = record {
            answer = c.answer;
            order = Ascends-mono x.end lo r.2 (omega (arith, o.0, o.1)) c.order;
            fits = c.fits;
            perms = λ a. ground (arith, c.perms a, h, k, perm_at_below x.end xs a o.2);
            pages = λ b g q. pages_left r.1 b g q (c.pages b g q);
          }

          -- Its end is left.
          end_left :
              from ≡ x.start
              → to < x.end
              → Cleared lo m (x ∷ xs) (r.0, r.1, rb_add (record x { start = to }) r.2)
          end_left h k =
              let behind : Area = record x { start = to } in
              let apart = Apart-Ascends x.end to x.end r.2 c.order (omega arith) in
              record {
                answer = c.answer;
                order =
                    rb_add-Ascends lo behind r.2
                      (Ascends-mono x.end lo r.2 (omega (arith, o.0, o.1)) c.order)
                      (ground (arith, o.0)) k apart;
                fits =
                    All-rb_add Fits behind r.2
                      (piece-Fits to x.end (ground (arith, f.0.to_page)) f.0.to_page (omega arith))
                      c.fits;
                perms = λ a.
                    perm_at-rb_add behind r.2 a apart
                    ∙ ground (arith, c.perms a, h, k, perm_at_below x.end xs a o.2);
                pages = λ b g q. pages_left r.1 b g q (c.pages b g q);
              }

          -- Its start is left.
          start_left :
              x.start < from
              → to ≡ x.end
              → Cleared lo m (x ∷ xs) (r.0, r.1, record x { end = from } ∷ r.2)
          start_left h k = record {
            answer = c.answer;
            order = (o.0, h, Ascends-mono x.end from r.2 (ground arith) c.order);
            fits = (
              piece-Fits x.start from f.0.from_page (ground (arith, f.0.from_page)) (ground arith),
              c.fits,
            );
            perms = λ a. ground (arith, c.perms a, h, k, perm_at_below x.end xs a o.2);
            pages = λ b g q. pages_left r.1 b g q (c.pages b g q);
          }

        -- Both are left, and no other area meets the range.
        both_left :
            x.start < from
            → to < x.end
            → Cleared lo m
                (x ∷ xs)
                (pos 0, released, record x { end = from } ∷ rb_add (record x { start = to }) xs)
        both_left h k =
            let behind : Area = record x { start = to } in
            let apart = Apart-Ascends x.end to x.end xs o.2 (omega arith) in
            record {
              answer = refl;
              order = (
                o.0,
                h,
                rb_add-Ascends from behind xs (Ascends-mono x.end from xs (ground arith) o.2)
                    (ground arith) k apart,
              );
              fits = (
                piece-Fits x.start from f.0.from_page (ground (arith, f.0.from_page))
                    (ground arith),
                All-rb_add Fits behind xs
                    (piece-Fits to x.end (ground (arith, f.0.to_page)) f.0.to_page (omega arith))
                    f.1,
              );
              perms = λ a.
                  ground
                    (arith, perm_at-rb_add behind xs a apart, h, k, perm_at_below x.end xs a o.2);
              pages =
                  λ b g q. ground (arith, released_lem b g q, h, k, perm_at_below x.end xs b o.2);
            }

        split_or_stuck :
            x.start < from
            → to < x.end
            → (g : Bool) → granted ≡ g
            → Walked lo m (x ∷ xs) (
                if g
                then (
                  pos 0,
                  released,
                  record x { end = from } ∷ rb_add (record x { start = to }) xs,
                )
                else (enomem, released, x ∷ xs))
        split_or_stuck h k true e = inl (both_left h k)
        split_or_stuck h k false e =
            inr
              (record { answer = refl; denied = e; areas = refl; inside = ground (arith, h, o.0) })

        unmap_touched :
            Cleared x.end released xs (unmap_walk p granted va end released xs)
            → Walked lo m (x ∷ xs) (unmap_walk p granted va end m (x ∷ xs))
        unfolding unmap_walk
        unmap_touched c =
            let r = unmap_walk p granted va end released xs in
            let a : leb x.end va ≡ false = ground arith in
            let b : leb end x.start ≡ false = ground arith in
            elim (Bool-cases (from == x.start)) [
              | inl h ↦ elim (Bool-cases (to == x.end)) [
                | inl k ↦ rw (a, b, h, k) (inl (whole r c (ground (arith, h)) (ground (arith, k))))
                | inr k ↦
                    rw (a, b, h, k) (inl (end_left r c (ground (arith, h)) (ground (arith, k))))
              ]
              | inr h ↦ elim (Bool-cases (to == x.end)) [
                | inl k ↦
                    rw (a, b, h, k) (inl (start_left r c (ground (arith, h)) (ground (arith, k))))
                | inr k ↦
                    rw (a, b, h, k)
                      (split_or_stuck (ground (arith, h)) (ground (arith, k)) granted refl)
              ]
            ]

    pub unmap_walk-Walked :
        (lo : ℕ) (m : M) (xs : List Area)
        → Ascends lo xs
        → All Fits xs
        → Walked lo m xs (unmap_walk p granted va end m xs)
    unfolding unmap_walk
    unmap_walk-Walked lo m [] o f = inl (record {
      answer = refl;
      order = tt;
      fits = tt;
      perms = λ a. ground arith;
      pages = λ b k q. ground arith;
    })
    unmap_walk-Walked lo m (x ∷ xs) o f = elim (Bool-cases (leb x.end va)) [
      | inl before ↦ rw before (
          keep lo m x xs o f (unmap_walk p granted va end m xs) (ground (arith, before))
            (unmap_walk-Walked x.end m xs o.2 f.1))
      | inr early ↦ elim (Bool-cases (leb end x.start)) [
        | inl behind ↦ rw (early, behind) (inl (stop lo m x xs o f (ground (arith, behind))))
        | inr late ↦
            let e : va < x.end = ground (arith, early) in
            let l : x.start < end = ground (arith, late) in
            let n = released lo m x xs o f e l in
            unmap_touched lo m x xs o f e l (elim (unmap_walk-Walked x.end n xs o.2 f.1) [
              | inl c ↦ c
              | inr c ↦ absurd (omega (arith, c.inside))
            ])
      ]
    ]

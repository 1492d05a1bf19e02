-- ===== src/Memblock/Free.antt =====
-- `memblock_for_each_free` of na/mm/memblock.cc: the regions that it reports.
use mathlib.Core.List.{append-nil, append_assoc}
use lume.Common.{
  ℕ, ◌+◌, ◌≤◌, ◌<◌, ◌≡◌, refl, false, ◌&&◌, not, List, [], ◌∷◌, ◌++◌, ltb, leb, All, arith,
  if◌then◌else◌, ◌∙◌,
}
use lume.Word.{add64, sub64}
use lume.Memblock.{Region, Memblock, walk_free, memblock_for_each_free}
use lume.Memblock.Regions.{IsValid, InLimit, phys_limit, IsSorted, covered}

-- The regions that the walk hands out, as a list.
unfoldable pub gaps : ℕ → ℕ → List Region → List Region
gaps mem_end pos [] =
    if ltb pos mem_end then record { base = pos; size = sub64 mem_end pos } ∷ [] else []
gaps mem_end pos (r ∷ rs) =
    let end = add64 r.base r.size in
    let skipped = gaps mem_end (if ltb pos end then end else pos) rs in
    let after = gaps mem_end end rs in
    if ltb pos mem_end
    then (if ltb r.base pos
        then skipped
        else (if ltb pos r.base
            then record { base = pos; size = sub64 r.base pos } ∷ after
            else after))
    else []

uncovered_before :
    (x : ℕ) (b : ℕ) (rs : List Region) → All (λ r. b ≤ r.base) rs → x < b → covered x rs ≡ false
uncovered_before x b [] h l = refl
uncovered_before x b (r ∷ rs) h l = ground (arith, uncovered_before x b rs h.1)

gaps_cover :
    (x mem_end pos : ℕ) (rs : List Region)
    → mem_end ≤ phys_limit
    → pos ≤ phys_limit
    → IsSorted rs
    → All InLimit rs
    → All (λ r. r.base ≤ mem_end) rs
    → covered x (gaps mem_end pos rs) ≡ (leb pos x && ltb x mem_end && not (covered x rs))
unfolding gaps
gaps_cover x mem_end pos [] m p s l b = ground arith
gaps_cover x mem_end pos (r ∷ rs) m p s l b = ground (
  arith,
  uncovered_before x r.base rs s.0,
  gaps_cover x mem_end (r.base + r.size) rs m l.0 s.1 l.1 b.1,
  gaps_cover x mem_end pos rs m p s.1 l.1 b.1,
)

abbrev pub for_each : {S : Type 0} → (ℕ → ℕ → S → S) → List Region → S → S
for_each callback [] ctx = ctx
for_each callback (r ∷ rs) ctx = for_each callback rs (callback r.base r.size ctx)

walk_free_lem :
    {S : Type 0} (callback : ℕ → ℕ → S → S) (mem_end pos : ℕ) (rs : List Region) (ctx : S)
    → walk_free callback mem_end pos rs ctx ≡ for_each callback (gaps mem_end pos rs) ctx
unfolding walk_free gaps
walk_free_lem callback mem_end pos [] ctx = ground arith
walk_free_lem callback mem_end pos (r ∷ rs) ctx =
    let end = add64 r.base r.size in
    ground (
      arith,
      walk_free_lem callback mem_end end rs ctx,
      walk_free_lem callback mem_end pos rs ctx,
      walk_free_lem callback mem_end end rs (callback pos (sub64 r.base pos) ctx),
    )

-- A callback that writes the regions down.
abbrev record_region : ℕ → ℕ → List Region → List Region
record_region base size seen = seen ++ (record { base = base; size = size } ∷ [])

abbrev pub recorded : Memblock → List Region
recorded mb = memblock_for_each_free mb record_region []

for_each_recorded : (rs seen : List Region) → for_each record_region rs seen ≡ seen ++ rs
for_each_recorded [] seen = rw append-nil
for_each_recorded (r ∷ rs) seen =
    for_each_recorded rs (seen ++ (r ∷ [])) ∙ append_assoc seen (r ∷ []) rs

pub recorded_lem :
    (mb : Memblock) → recorded mb ≡ gaps (add64 mb.mem_base mb.mem_size) mb.mem_base mb.reserved
unfolding memblock_for_each_free
recorded_lem mb =
    walk_free_lem record_region (add64 mb.mem_base mb.mem_size) mb.mem_base mb.reserved []
    ∙ for_each_recorded (gaps (add64 mb.mem_base mb.mem_size) mb.mem_base mb.reserved) []

-- If no reserved region begins beyond the end of RAM, an address is in a reported region exactly
-- when it is in RAM and in no reserved region.
pub recorded_exact :
    (mb : Memblock) (x : ℕ)
    → IsValid mb
    → All (λ r. r.base ≤ mb.mem_base + mb.mem_size) mb.reserved
    → covered x (recorded mb)
      ≡ ((leb mb.mem_base x && ltb x (mb.mem_base + mb.mem_size)) && not (covered x mb.reserved))
recorded_exact mb x v inside = rw (recorded_lem mb) (
    ground (
      arith,
      gaps_cover x (mb.mem_base + mb.mem_size) mb.mem_base mb.reserved v.ram (omega (arith, v.ram))
          v.sorted v.limits inside,
      v.ram,
    ))

-- What any callback makes of the regions is what it makes of the recorded list, in order.
pub for_each_free-recorded :
    {S : Type 0} (mb : Memblock) (callback : ℕ → ℕ → S → S) (ctx : S)
    → memblock_for_each_free mb callback ctx ≡ for_each callback (recorded mb) ctx
unfolding memblock_for_each_free
for_each_free-recorded mb callback ctx =
    rw (recorded_lem mb)
      (walk_free_lem callback (add64 mb.mem_base mb.mem_size) mb.mem_base mb.reserved ctx)

-- From `pos` on, each region is positive and begins where the one before it ends, or later.
abbrev pub Ascends : ℕ → List Region → Type 0
Ascends pos [] = Unit
Ascends pos (r ∷ rs) = (pos ≤ r.base) × (0 < r.size) × Ascends (r.base + r.size) rs

Ascends-mono : (a b : ℕ) (rs : List Region) → a ≤ b → Ascends b rs → Ascends a rs
Ascends-mono a b [] h k = tt
Ascends-mono a b (r ∷ rs) h k = (omega arith, k.1, k.2)

gaps-Ascends :
    (mem_end pos : ℕ) (rs : List Region)
    → mem_end ≤ phys_limit
    → pos ≤ phys_limit
    → All InLimit rs
    → Ascends pos (gaps mem_end pos rs)
unfolding gaps
gaps-Ascends mem_end pos [] m p l = ground arith
gaps-Ascends mem_end pos (r ∷ rs) m p l = ground (
  arith,
  gaps-Ascends mem_end (r.base + r.size) rs m l.0 l.1,
  gaps-Ascends mem_end pos rs m p l.1,
  Ascends-mono pos (r.base + r.size) (gaps mem_end (r.base + r.size) rs),
  Ascends-mono r.base (r.base + r.size) (gaps mem_end (r.base + r.size) rs),
)

-- The reported regions are positive, ascend from the start of RAM and do not meet.
pub recorded-Ascends : (mb : Memblock) → IsValid mb → Ascends mb.mem_base (recorded mb)
recorded-Ascends mb v = rw (recorded_lem mb) (
    gaps-Ascends (add64 mb.mem_base mb.mem_size) mb.mem_base mb.reserved (omega (arith, v.ram))
      (omega (arith, v.ram)) v.limits)

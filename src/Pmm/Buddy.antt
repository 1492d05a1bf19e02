-- ===== src/Pmm/Buddy.antt =====
-- The state of the buddy system of na/mm/pmm.cc: what ties the free lists, the page descriptors and
-- the blocks that are handed out together.
use lume.Common.{ℕ, ◌<◌, ◌≡◌, Bool, true, false, ◌||◌, ◌⊎◌, mem, Distinct}
use lume.Pmm.{PageState, Pmm, is_free}
use lume.Pmm.Blocks.{Blocks, Aligned, In, Tiling}

-- The free blocks and those that are handed out.
abbrev pub blocks : Pmm → Blocks → Blocks
blocks s H o p = mem p (s.free_areas o) || H o p

abbrev pub state_of : Pmm → ℕ → PageState
state_of s a = (s.page_map a).state

abbrev pub order_of : Pmm → ℕ → ℕ
order_of s a = (s.page_map a).order

-- A page that is marked free heads a free block, or lies in a longer block, with a mark from before.
abbrev pub MarkedAt : Pmm → Blocks → ℕ → ℕ → Type 0
MarkedAt s H o a =
    (mem a (s.free_areas o) ≡ true)
    ⊎ ((k : ℕ) × (q : ℕ) × (o < k) × (blocks s H k q ≡ true) × In k q a)

abbrev pub Marked : Pmm → Blocks → ℕ → Type 0
Marked s H a = MarkedAt s H (order_of s a) a

-- H are the blocks that are handed out; the marks of the pages in `exempt` are not to be read.
pub record Buddies (s : Pmm) (H : Blocks) (exempt : ℕ → Bool) : Type 0 where
  pub tiling : Tiling s.num_pages (blocks s H)
  pub once : (o : ℕ) → Distinct (s.free_areas o)
  pub apart : (o p : ℕ) → mem p (s.free_areas o) ≡ true → H o p ≡ false
  pub listed :
      (o p : ℕ)
      → mem p (s.free_areas o) ≡ true
      → (is_free (state_of s p) ≡ true) × (order_of s p ≡ o)
  pub marks :
      (a : ℕ)
      → a < s.num_pages
      → is_free (state_of s a) ≡ true
      → exempt a ≡ false
      → Aligned (order_of s a) a × Marked s H a

abbrev pub nothing : ℕ → Bool
nothing a = false

-- A page of a free block.
abbrev pub Free : Pmm → ℕ → Type 0
Free s a = (o : ℕ) × (p : ℕ) × (mem p (s.free_areas o) ≡ true) × In o p a

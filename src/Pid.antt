-- ===== src/Pid.antt =====
-- na/kernel/pid.cc and na/include/lume/pid.h: the PID allocator. Its array `bitmap_` is a function
-- of the index; the lock makes each operation one step.
pub mod Scan
pub mod Alloc
pub mod Free
mod Tests
use lume.Common.{
  ℕ, zero, suc, ◌+◌, ◌*◌, ◌/◌, ◌%◌, ◌^◌, Bool, bit_and, bit_or, ◌==◌, leb, if◌then◌else◌, update, ℤ,
  pos, negsuc,
}
use lume.Word.{not64}

abbrev pub max_pid : ℕ
max_pid = 32768

abbrev pub bitmap_words : ℕ
bitmap_words = 512

pub record PidAllocator : Type 0 where
  pub bitmap : ℕ → ℕ
  pub next_hint : ℕ

-- PIDs 0 and 1 are reserved.
unfoldable pub init : PidAllocator
init = record { bitmap = update (λ w. 0) 0 (bit_or 0 3); next_hint = 2 }

-- `while ((v & 1) == 0) { v >>= 1; bit++; }`, for at most the given number of rounds.
unfoldable pub trailing_zeros : ℕ → ℕ → ℕ
trailing_zeros zero v = 0
trailing_zeros (suc fuel) v =
    let rest = trailing_zeros fuel (v / 2) in if bit_and v 1 == 0 then suc rest else 0

-- Hands out bit `b` of word `w`.
unfoldable pub take : PidAllocator → ℕ → ℕ → PidAllocator
take a w b =
    let hint = w * 64 + b + 1 in
    record {
      bitmap = update a.bitmap w (bit_or (a.bitmap w) (2 ^ b));
      next_hint = if leb max_pid hint then 2 else hint;
    }

-- The loop over the words, with the passes that are left and the one that is next.
unfoldable pub scan_words : ℕ → ℕ → PidAllocator → ℤ × PidAllocator
scan_words zero passes a = (negsuc 0, a)
scan_words (suc left) passes a =
    let rest = scan_words left (suc passes) a in
    let w = (a.next_hint / 64 + passes) % bitmap_words in
    let b = trailing_zeros 64 (not64 (a.bitmap w)) in
    if not64 (a.bitmap w) == 0
    then rest
    else (if leb max_pid (w * 64 + b) then rest else (pos (w * 64 + b), take a w b))

unfoldable pub alloc : PidAllocator → ℤ × PidAllocator
alloc a = scan_words bitmap_words 0 a

unfoldable pub free : PidAllocator → ℤ → PidAllocator
free a (negsuc n) = a
free a (pos pid) = if leb max_pid pid then a else record a {
  bitmap = update a.bitmap (pid / 64) (bit_and (a.bitmap (pid / 64)) (not64 (2 ^ (pid % 64))));
}

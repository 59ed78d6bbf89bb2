-- ===== src/Common/Words.antt =====
-- Fixed-width words and the conversions between them.
use safety_autonomy_core.Common.{ℕ, ◌+◌, ◌-◌, ◌%◌, ◌^◌, ◌≡◌, arith, ltb, if◌then◌else◌, ◌<◌}
use safety_autonomy_core.Common.Int.{ℤ, pos, negsuc, pos_part, neg_part}

abbrev pub u8 : ℕ → ℕ
u8 n = n % 2 ^ 8

abbrev pub u16 : ℕ → ℕ
u16 n = n % 2 ^ 16

abbrev pub u64 : ℕ → ℕ
u64 n = n % 2 ^ 64

-- `a - b` on `std::uint64_t`.
abbrev pub sub64 : ℕ → ℕ → ℕ
sub64 a b = (a + 2 ^ 64 - b) % 2 ^ 64

-- `static_cast<std::uint64_t>` of a signed 64-bit value.
abbrev pub u64_of_i64 : ℤ → ℕ
u64_of_i64 a = (pos_part a + 2 ^ 64 - neg_part a) % 2 ^ 64

-- The signed 64-bit value of an unsigned one.
abbrev pub i64_of_u64 : ℕ → ℤ
i64_of_u64 n = if ltb n (2 ^ 63) then pos n else negsuc (2 ^ 64 - n - 1)

-- The range of a signed 64-bit value.
pub record IsInt64 (a : ℤ) : Type 0 where
  pub upper : pos_part a < 2 ^ 63
  pub lower : neg_part a < 2 ^ 63 + 1

pub i64_of_u64-u64_of_i64 : (a : ℤ) → IsInt64 a → i64_of_u64 (u64_of_i64 a) ≡ a
i64_of_u64-u64_of_i64 (pos n) h = ground (arith, h.upper)
i64_of_u64-u64_of_i64 (negsuc n) h = ground (arith, h.lower)

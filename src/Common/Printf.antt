-- ===== src/Common/Printf.antt =====
-- What the sources use of `snprintf`: `%u`, `%d`, `%s` and the truncation to the buffer.
use Prim.Native.Char.{code}
use safety_autonomy_core.Common.{
  ℕ, zero, suc, ◌+◌, ◌-◌, ◌/◌, ◌%◌, String, List, [], ◌∷◌, ltb, if◌then◌else◌, take,
}
use safety_autonomy_core.Common.Int.{ℤ, pos, negsuc}

-- The codes of a text.
abbrev pub codes : String → List ℕ
codes String.[] = []
codes (String.◌∷◌ c s) = code c ∷ codes s

-- The decimal digits of a number, before those already printed.
unfoldable pub digits_before : ℕ → ℕ → List ℕ → List ℕ
digits_before zero n out = out
digits_before (suc fuel) n out =
    let rest = digits_before fuel (n / 10) ((b'0' + n % 10) ∷ out) in
    if ltb n 10 then (b'0' + n % 10) ∷ out else rest

-- `%u`, `%llu`; 20 digits are enough for 64 bits.
unfoldable pub print_unsigned : ℕ → List ℕ
unfolding digits_before
print_unsigned n = digits_before 20 n []

-- `%d`, `%lld`
unfoldable pub print_signed : ℤ → List ℕ
unfolding print_unsigned
print_signed (pos n) = print_unsigned n
print_signed (negsuc n) = b'-' ∷ print_unsigned (suc n)

-- `snprintf` into a zeroed buffer: what is left of the text with its terminator.
abbrev pub snprintf : ℕ → List ℕ → List ℕ
snprintf size text = take (size - 1) text

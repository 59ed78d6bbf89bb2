-- ===== src/Common/Double/Micro.antt =====
-- A type of numbers that meets the laws, for the examples: whole millionths, two infinities and NaN.
use native.Mathlib.Nat.{mul-le-mul, le-div_iff_mul-le, mul-div-le, mul-div-mul_right, pow-suc}
use safety_autonomy_core.Common.{
  ℕ, zero, suc, ◌+◌, ◌*◌, ◌/◌, ◌^◌, ◌≤◌, ◌≡◌, refl, ap, ◌∙◌, Bool, true, false, not, ◌&&◌, ◌-◌,
  Option, none, some, List, [], ◌∷◌, arith, leb, ◌==◌, if◌then◌else◌,
}
use safety_autonomy_core.Common.Int.{ℤ, pos, negsuc, pos_part, neg_part, sub_ℕ, leb_ℤ, ltb_ℤ, ◌+ℤ◌}
use safety_autonomy_core.Common.Printf.{print_signed}
use safety_autonomy_core.Common.Double.{Double}
use safety_autonomy_core.Common.Double.Laws.{IsOrdered, IsMonotone}

pub data Micro : Type 0 where
  nan minus_inf plus_inf : Micro
  fin : ℤ → Micro

abbrev unit : ℕ
unit = 1000000

abbrev pub micros : ℕ → Micro
micros n = fin (pos n)

abbrev lt : Micro → Micro → Bool
lt minus_inf plus_inf = true
lt minus_inf (fin b) = true
lt (fin a) plus_inf = true
lt (fin a) (fin b) = ltb_ℤ a b
lt _ _ = false

abbrev le : Micro → Micro → Bool
le minus_inf minus_inf = true
le minus_inf plus_inf = true
le minus_inf (fin b) = true
le plus_inf plus_inf = true
le (fin a) plus_inf = true
le (fin a) (fin b) = leb_ℤ a b
le _ _ = false

abbrev is_finite : Micro → Bool
is_finite (fin a) = true
is_finite _ = false

abbrev opposite : ℤ → ℤ
opposite a = sub_ℕ (neg_part a) (pos_part a)

abbrev neg : Micro → Micro
neg nan = nan
neg minus_inf = plus_inf
neg plus_inf = minus_inf
neg (fin a) = fin (opposite a)

abbrev add : Micro → Micro → Micro
add (fin a) (fin b) = fin (a +ℤ b)
add (fin a) minus_inf = minus_inf
add (fin a) plus_inf = plus_inf
add minus_inf (fin b) = minus_inf
add minus_inf minus_inf = minus_inf
add plus_inf (fin b) = plus_inf
add plus_inf plus_inf = plus_inf
add _ _ = nan

abbrev sub : Micro → Micro → Micro
sub x y = add x (neg y)

-- The sign and the size of a value apart; the size of an infinity is `none`.
abbrev negative : Micro → Bool
negative minus_inf = true
negative (fin (negsuc n)) = true
negative _ = false

abbrev magnitude : ℤ → ℕ
magnitude a = pos_part a + neg_part a

abbrev signed : Bool → ℕ → Micro
signed true n = fin (sub_ℕ 0 n)
signed false n = fin (pos n)

abbrev signed_inf : Bool → Micro
signed_inf true = minus_inf
signed_inf false = plus_inf

abbrev same : Bool → Bool → Bool
same true b = b
same false b = not b

mul : Micro → Micro → Micro
mul nan y = nan
mul (fin a) nan = nan
mul minus_inf nan = nan
mul plus_inf nan = nan
mul (fin a) (fin b) =
    signed (not (same (negative (fin a)) (negative (fin b)))) (magnitude a * magnitude b / unit)
mul (fin a) y =
    if magnitude a == 0 then nan else signed_inf (not (same (negative (fin a)) (negative y)))
mul x (fin b) =
    if magnitude b == 0 then nan else signed_inf (not (same (negative x) (negative (fin b))))
mul x y = signed_inf (not (same (negative x) (negative y)))

div : Micro → Micro → Micro
div nan y = nan
div (fin a) nan = nan
div minus_inf nan = nan
div plus_inf nan = nan
div (fin a) (fin b) =
    if magnitude b == 0
    then (if magnitude a == 0 then nan else signed_inf (negative (fin a)))
    else signed (not (same (negative (fin a)) (negative (fin b))))
        (magnitude a * unit / magnitude b)
div (fin a) y = fin (pos 0)
div x (fin b) = signed_inf (not (same (negative x) (negative (fin b))))
div x y = nan

-- The largest root that fits, bit by bit.
root_from : ℕ → ℕ → ℕ → ℕ
root_from zero n r = r
root_from (suc k) n r = root_from k n (if leb ((r + 2 ^ k) * (r + 2 ^ k)) n then r + 2 ^ k else r)

sqrt : Micro → Micro
unfolding root_from
sqrt (fin (pos n)) = fin (pos (root_from 48 (n * unit) 0))
sqrt plus_inf = plus_inf
sqrt _ = nan

print : Micro → List ℕ
print (fin a) = print_signed a
print _ = []

-- A text of decimal digits, as a whole number.
read_digits : ℕ → List ℕ → Option Micro
read_digits n [] = some (micros (n * unit))
read_digits n (c ∷ cs) =
    let later = read_digits (n * 10 + (c - 48)) cs in if leb 48 c && leb c 57 then later else none

read : List ℕ → Option Micro
unfolding read_digits
read [] = none
read (c ∷ cs) = read_digits 0 (c ∷ cs)

instance unfoldable pub micro_double : Double Micro
unfolding mul div sqrt print read
micro_double = record {
  dec = λ m k. fin (pos (m * unit / 10 ^ k));
  infinity = plus_inf;
  lt = lt;
  le = le;
  is_finite = is_finite;
  add = add;
  sub = sub;
  mul = mul;
  div = div;
  neg = neg;
  abs = λ x. if lt x (fin (pos 0)) then neg x else x;
  sqrt = sqrt;
  of_nat = λ n. fin (pos (n * unit));
  to_nat = λ x. elim x [ fin a ↦ pos_part a / unit | _ ↦ 0 ];
  print = print;
  read = read;
}

div_mono : (x y k : ℕ) → x ≤ y → x / k ≤ y / k
div_mono x y zero h = omega arith
div_mono x y (suc k) h = (le-div_iff_mul-le (omega arith)).1 (omega (arith, mul-div-le x (suc k)))

dec_mono : (m n k : ℕ) → m ≤ n → le (micros (m * unit / 10 ^ k)) (micros (n * unit / 10 ^ k)) ≡ true
dec_mono m n k h = ground (arith, div_mono (m * unit) (n * unit) (10 ^ k))

dec_scale : (m k : ℕ) → m * 10 * unit / 10 ^ suc k ≡ m * unit / 10 ^ k
dec_scale m k =
    ap (λ a. a / 10 ^ suc k) same_digits
    ∙ rw (pow-suc 10 k) (mul-div-mul_right (m * unit) (10 ^ k) (omega arith))
  where
    same_digits : m * 10 * unit ≡ m * unit * 10
    same_digits = omega arith

pub Micro-IsOrdered : IsOrdered Micro
unfolding micro_double
Micro-IsOrdered = record {
  refl_of_le = λ x y h. ground arith;
  le_trans = λ x y z h k. ground arith;
  lt-eq-not-le = λ x y h k. ground arith;
  le_of_lt = λ x y h. ground arith;
  le_total = λ x y h k. ground arith;
  refl_of_finite = λ x h. ground arith;
  finite_between = λ x y z h k l m. ground arith;
  literal_finite = λ m k h. refl;
  literal_scale = λ m k. ap micros (dec_scale m k);
  literal_mono = λ m n k h l. dec_mono m n k h;
  neg_finite = λ x h. ground arith;
  neg_le = λ x h. ground arith;
  neg_anti = λ x y h. ground arith;
}

product_mono : (x y a b : ℕ) → x ≤ y → a ≤ b → x * a / unit ≤ y * b / unit
product_mono x y a b h k = div_mono (x * a) (y * b) unit (mul-le-mul h k)

quotient_mono : (x y c : ℕ) → x ≤ y → x * unit / c ≤ y * unit / c
quotient_mono x y c h = div_mono (x * unit) (y * unit) c (omega arith)

abbrev size : Micro → ℕ
size (fin a) = magnitude a
size _ = 0

pub Micro-IsMonotone : IsMonotone Micro
unfolding micro_double mul div ◌+ℤ◌
Micro-IsMonotone = record {
  add_nonneg = λ a b h k. ground arith;
  add_mono = λ a b x y h k l m. ground arith;
  mul_nonneg = λ a b h f k g. ground arith;
  mul_mono =
      λ a b x y h k f l m g. ground (arith, product_mono (size a) (size b) (size x) (size y));
  half_more_mono = λ a b h k. ground (arith, product_mono (size a) (size b) 1500000 1500000);
  div_nonneg = λ a c h k f. ground arith;
  div_mono = λ a b c h k l f. ground (arith, quotient_mono (size a) (size b) (size c));
  twice_pos = λ a h. ground arith;
  infinity_nonneg = refl;
  infinity_not_finite = refl;
}

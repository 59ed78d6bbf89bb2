-- ===== src/Common/Double/Laws.antt =====
-- What the theorems rely on of IEEE 754 comparisons: NaN is the value that is not `<=` itself, and
-- away from it the order is total; finite values are not NaN.
use native.Mathlib.Nat.{pow-suc}
use safety_autonomy_core.Common.{
  ℕ, zero, suc, ◌+◌, ◌*◌, ◌≤◌, ◌^◌, ap₂, ◌∙◌, ◌≡◌, ◌⊎◌, true, false, not, arith,
}
use safety_autonomy_core.Common.Double.{Double, nought, clamp, fmax, fmin}

infix 4 ◌≼◌ ◌≺◌
abbrev pub ◌≼◌ : {W : Type 0} ⦃d : Double W⦄ → W → W → Type 0
◌≼◌ ⦃d⦄ x y = d.le x y ≡ true

abbrev pub ◌≺◌ : {W : Type 0} ⦃d : Double W⦄ → W → W → Type 0
◌≺◌ ⦃d⦄ x y = d.lt x y ≡ true

pub record IsOrdered (W : Type 0) ⦃d : Double W⦄ : Type 0 where
  pub refl_of_finite : (a : W) → d.is_finite a ≡ true → a ≼ a
  pub refl_of_le : (a b : W) → a ≼ b → (a ≼ a) × (b ≼ b)
  pub le_of_lt : (a b : W) → a ≺ b → a ≼ b
  pub lt-eq-not-le : (a b : W) → a ≼ a → b ≼ b → d.lt a b ≡ not (d.le b a)
  pub le_total : (a b : W) → a ≼ a → b ≼ b → (a ≼ b) ⊎ (b ≼ a)
  pub finite_between :
      (a b c : W)
      → d.is_finite a ≡ true
      → d.is_finite c ≡ true
      → a ≼ b
      → b ≼ c
      → d.is_finite b ≡ true
  pub le_trans : (a b c : W) → a ≼ b → b ≼ c → a ≼ c
  -- A literal of up to 17 digits is finite, and rounding keeps the order of literals.
  pub literal_finite : (m k : ℕ) → m ≤ 10 ^ 17 → d.is_finite (d.dec m k) ≡ true
  pub literal_mono : (m n k : ℕ) → m ≤ n → n ≤ 10 ^ 17 → d.dec m k ≼ d.dec n k
  -- The same decimal value has one literal.
  pub literal_scale : (m k : ℕ) → d.dec (m * 10) (suc k) ≡ d.dec m k
  pub neg_finite : (x : W) → d.is_finite x ≡ true → d.is_finite (d.neg x) ≡ true
  pub neg_le : (x : W) → nought ≼ x → d.neg x ≼ nought
  pub neg_anti : (x y : W) → x ≼ y → d.neg y ≼ d.neg x

-- Rounding to nearest keeps the order of sums, products and quotients of values that are not negative.
pub record IsMonotone (W : Type 0) ⦃d : Double W⦄ : Type 0 where
  pub add_nonneg : (a b : W) → nought ≼ a → nought ≼ b → nought ≼ d.add a b
  pub add_mono : (a b x y : W) → nought ≼ a → a ≼ b → nought ≼ x → x ≼ y → d.add a x ≼ d.add b y
  pub mul_nonneg :
      (a b : W)
      → nought ≼ a
      → d.is_finite a ≡ true
      → nought ≼ b
      → d.is_finite b ≡ true
      → nought ≼ d.mul a b
  pub mul_mono :
      (a b x y : W)
      → nought ≼ a
      → a ≼ b
      → d.is_finite b ≡ true
      → nought ≼ x
      → x ≼ y
      → d.is_finite y ≡ true
      → d.mul a x ≼ d.mul b y
  pub half_more_mono : (a b : W) → nought ≼ a → a ≼ b → d.mul a (d.dec 15 1) ≼ d.mul b (d.dec 15 1)
  pub div_nonneg : (a c : W) → nought ≼ a → nought ≺ c → d.is_finite c ≡ true → nought ≼ d.div a c
  pub div_mono :
      (a b c : W) → nought ≼ a → a ≼ b → nought ≺ c → d.is_finite c ≡ true → d.div a c ≼ d.div b c
  pub twice_pos : (a : W) → nought ≺ a → nought ≺ d.mul (d.dec 2 0) a
  pub infinity_nonneg : nought ≼ d.infinity
  pub infinity_not_finite : d.is_finite d.infinity ≡ false

module _ {W : Type 0} ⦃d : Double W⦄ (laws : IsOrdered W) where
  open laws use {
    refl_of_le, lt-eq-not-le, le_total, le_trans, le_of_lt, refl_of_finite, literal_finite,
    literal_scale,
  }

  pub literal_shift : (j m k : ℕ) → d.dec (m * 10 ^ j) (j + k) ≡ d.dec m k
  literal_shift zero m k = ap₂ d.dec (omega arith) (omega arith)
  literal_shift (suc j) m k =
      ap₂ d.dec (rw (pow-suc 10 j) (omega arith)) (omega arith)
      ∙ (literal_scale (m * 10 ^ j) (j + k) ∙ literal_shift j m k)

  -- A literal is comparable.
  pub literal_refl : (m k : ℕ) → m ≤ 10 ^ 17 → d.dec m k ≼ d.dec m k
  literal_refl m k h = refl_of_finite (d.dec m k) (literal_finite m k h)

  -- Two comparable values stand in one of the two orders.
  pub lt_or_le : (x y : W) → x ≼ x → y ≼ y → (x ≺ y) ⊎ (y ≼ x)
  lt_or_le x y hx hy = ground (arith, lt-eq-not-le x y hx hy)

  -- `std::clamp` of a value that is not NaN stays between its bounds.
  pub clamp_bounds : (v lo hi : W) → v ≼ v → lo ≼ hi → (lo ≼ clamp v lo hi) × (clamp v lo hi ≼ hi)
  clamp_bounds v lo hi hv h =
      let (hlo, hhi) = refl_of_le lo hi h in
      ground (
        arith,
        lt-eq-not-le v lo hv hlo,
        lt-eq-not-le hi v hhi hv,
        le_total v lo hv hlo,
        le_total hi v hhi hv,
      )

  pub le-fmax_right : (x y : W) → x ≼ x → y ≼ y → (y ≼ fmax x y) × (x ≼ fmax x y)
  le-fmax_right x y hx hy = ground (arith, lt-eq-not-le x y hx hy, le_total x y hx hy)

  pub fmin_le : (x y : W) → x ≼ x → y ≼ y → (fmin x y ≼ x) × (fmin x y ≼ y)
  fmin_le x y hx hy = ground (arith, lt-eq-not-le y x hy hx, le_total x y hx hy)

  pub lt_of_le-lt : (a b c : W) → a ≼ b → b ≺ c → a ≺ c
  lt_of_le-lt a b c h k =
      let (ha, hb) = refl_of_le a b h in
      let (_, hc) = refl_of_le b c (le_of_lt b c k) in
      ground (arith, lt-eq-not-le a c ha hc, lt-eq-not-le b c hb hc, le_trans c a b)

  pub lt_of_lt-le : (a b c : W) → a ≺ b → b ≼ c → a ≺ c
  lt_of_lt-le a b c h k =
      let (ha, hb) = refl_of_le a b (le_of_lt a b h) in
      let (_, hc) = refl_of_le b c k in
      ground (arith, lt-eq-not-le a c ha hc, lt-eq-not-le a b ha hb, le_trans b c a)

  pub nought_refl : d.dec 0 0 ≼ d.dec 0 0
  nought_refl = literal_refl 0 0 (omega arith)

  -- `std::max(0.0, x)` is at least 0 even where `x` is NaN.
  pub nought-le-fmax : (x : W) → nought ≼ fmax nought x
  nought-le-fmax x = ground (arith, nought_refl, le_of_lt nought x)

  pub fmax_nought_mono : (x y : W) → x ≼ y → fmax nought x ≼ fmax nought y
  fmax_nought_mono x y h = ground (arith, nought_refl, le_of_lt nought y, h, lt_of_lt-le nought x y)

  pub fmax-nought_finite : (x : W) → d.is_finite x ≡ true → d.is_finite (fmax nought x) ≡ true
  fmax-nought_finite x h = ground (arith, literal_finite 0 0 (omega arith))

  -- A value that is not a number is in no order.
  pub lt_not_a_number :
      (a b : W) → d.le a a ≡ false → (d.lt a b ≡ false) × (d.lt b a ≡ false) × (d.le b a ≡ false)
  lt_not_a_number a b h = ground (arith, le_of_lt a b, le_of_lt b a, refl_of_le a b, refl_of_le b a)

  pub fmax_finite :
      (x y : W) → d.is_finite x ≡ true → d.is_finite y ≡ true → d.is_finite (fmax x y) ≡ true
  fmax_finite x y h k = ground arith

  pub le_of_not-lt :
      (x y : W) → d.is_finite x ≡ true → d.is_finite y ≡ true → d.lt x y ≡ false → y ≼ x
  le_of_not-lt x y hx hy h =
      ground (arith, lt-eq-not-le x y (refl_of_finite x hx) (refl_of_finite y hy))

  pub not-lt_of_le : (x y : W) → y ≼ x → d.lt x y ≡ false
  not-lt_of_le x y h = ground (arith, refl_of_le y x h, lt-eq-not-le x y)

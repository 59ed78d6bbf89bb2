-- ===== src/Common/Double.antt =====
-- `double` is a parameter: a type with the operations that the sources use on it.
pub mod Laws
pub mod Micro
use safety_autonomy_core.Common.{ℕ, Bool, List, Option, if◌then◌else◌}

pub record Double (W : Type 0) : Type 0 where
  pub dec : ℕ → ℕ → W  -- `dec m k` is the literal m * 10^-k
  pub infinity : W
  pub lt : W → W → Bool  -- `a < b`, false on NaN
  pub le : W → W → Bool  -- `a <= b`, false on NaN
  pub is_finite : W → Bool
  pub add : W → W → W
  pub sub : W → W → W
  pub mul : W → W → W
  pub div : W → W → W
  pub neg : W → W
  pub abs : W → W
  pub sqrt : W → W
  pub of_nat : ℕ → W  -- from `std::uint64_t`
  pub to_nat : W → ℕ  -- to `std::uint64_t`
  pub print : W → List ℕ  -- `%.6f`
  pub read : List ℕ → Option W  -- `strtod`, of the whole text and without ERANGE

module _ {W : Type 0} ⦃d : Double W⦄ where
  abbrev pub nought : W
  nought = d.dec 0 0

  -- `std::max(a, b)`, `std::min(a, b)` and `std::clamp(v, lo, hi)`, as the standard states them.
  abbrev pub fmax : W → W → W
  fmax a b = if d.lt a b then b else a

  abbrev pub fmin : W → W → W
  fmin a b = if d.lt b a then b else a

  abbrev pub clamp : W → W → W → W
  clamp v lo hi = if d.lt v lo then lo else if d.lt hi v then hi else v

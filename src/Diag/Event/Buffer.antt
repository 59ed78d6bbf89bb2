-- ===== src/Diag/Event/Buffer.antt =====
-- The copying loops of `set_topic` and `set_payload`, and the reading of a NUL-terminated array.
use safety_autonomy_core.Common.{
  ℕ, zero, suc, ◌≤◌, ◌≡◌, ◌≢◌, refl, ap, List, [], ◌∷◌, arith, ◌==◌, if◌then◌else◌, length, take,
  replicate, All,
}

-- `for (i = 0; i < n; ++i) array[i] = value[i]`
unfoldable pub copy_prefix : ℕ → List ℕ → List ℕ → List ℕ
copy_prefix (suc n) (v ∷ vs) (a ∷ old) = v ∷ copy_prefix n vs old
copy_prefix _ _ old = old

-- `std::string_view(const char*)`
unfoldable pub until_nul : List ℕ → List ℕ
until_nul [] = []
until_nul (c ∷ cs) = let rest = until_nul cs in if c == 0 then [] else c ∷ rest

-- A text holds no NUL.
abbrev pub IsText : List ℕ → Type 0
IsText = All (λ c. c ≢ 0)

pub length-copy_prefix : (n : ℕ) (vs old : List ℕ) → length (copy_prefix n vs old) ≡ length old
unfolding copy_prefix
length-copy_prefix (suc n) (v ∷ vs) (a ∷ old) = ap suc (length-copy_prefix n vs old)
length-copy_prefix (suc n) (v ∷ vs) [] = refl
length-copy_prefix (suc n) [] old = refl
length-copy_prefix zero vs old = refl

until_nul-replicate : (k : ℕ) → until_nul (replicate k 0) ≡ []
unfolding until_nul
until_nul-replicate zero = refl
until_nul-replicate (suc k) = refl

pub until_nul-copy_prefix :
    (n k : ℕ) (vs : List ℕ)
    → n ≤ k
    → until_nul (copy_prefix n vs (replicate k 0)) ≡ until_nul (take n vs)
unfolding copy_prefix until_nul
until_nul-copy_prefix zero k vs h = until_nul-replicate k
until_nul-copy_prefix (suc n) k [] h = until_nul-replicate k
until_nul-copy_prefix (suc n) zero (v ∷ vs) h = elim h [ ]
until_nul-copy_prefix (suc n) (suc k) (v ∷ vs) h =
    rw (until_nul-copy_prefix n k vs (omega arith)) refl

pub until_nul-text : (vs : List ℕ) → IsText vs → until_nul vs ≡ vs
unfolding until_nul
until_nul-text [] h = refl
until_nul-text (v ∷ vs) h = ground (arith, until_nul-text vs h.1)

pub length-until_nul-le : (vs : List ℕ) → length (until_nul vs) ≤ length vs
unfolding until_nul
length-until_nul-le [] = omega arith
length-until_nul-le (v ∷ vs) = ground (arith, length-until_nul-le vs)

pub length-take-le : (n : ℕ) (vs : List ℕ) → length (take n vs) ≤ n
length-take-le zero vs = omega arith
length-take-le (suc n) [] = omega arith
length-take-le (suc n) (v ∷ vs) = omega (arith, length-take-le n vs)

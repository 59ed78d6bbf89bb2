-- ===== src/EnvelopeNode/Nearest.antt =====
-- ros2/src/safety_core_ros/src/safety_envelope_node.cpp: the nearest obstacle of a scan.
use safety_autonomy_core.Common.{
  IsOneOf, ℕ, ◌+◌, ◌≡◌, ◌⊎◌, inl, inr, refl, subst⁻¹, false, List, [], ◌∷◌, none, some, All, arith,
  Option-cases,
}
use safety_autonomy_core.Common.Double.{Double, nought, fmin}
use safety_autonomy_core.Common.Double.Laws.{◌≼◌, ◌≺◌, IsOrdered, IsMonotone, fmin_le}
use safety_autonomy_core.EnvelopeNode.{
  Params, LaserScan, point_ahead, is_point_in_forward_corridor, nearest_from, nearest_obstacle,
}

module _ {W : Type 0} ⦃d : Double W⦄ where
  -- Not greater than any of some values, and one of them or else a given one.
  abbrev pub IsLeast : W → List W → W → Type 0
  IsLeast y xs other = All (λ x. y ≼ x) xs × ((y ≡ other) ⊎ IsOneOf y xs)

module _ {W : Type 0} ⦃d : Double W⦄ (sin cos : W → W) where
  open d use {lt, infinity}

  -- The distances of the returns that are not skipped, from an index on.
  abbrev pub obstacles_from : Params W → LaserScan W → ℕ → List W → List W
  obstacles_from p scan i [] = []
  obstacles_from p scan i (r ∷ ranges) = elim (point_ahead sin cos p scan i r) [
    | none ↦ obstacles_from p scan (i + 1) ranges
    | some x ↦ x ∷ obstacles_from p scan (i + 1) ranges
  ]

  abbrev pub obstacles : Params W → LaserScan W → List W
  obstacles p scan = obstacles_from p scan 0 scan.ranges

  -- A return that is not skipped lies ahead, and not nearer than the range that is ignored.
  point_ahead_lem :
      (p : Params W) (scan : LaserScan W) (i : ℕ) (r x : W)
      → point_ahead sin cos p scan i r ≡ some x
      → (nought ≺ x) × (lt x p.scan_ignore_min_range_m ≡ false)
  unfolding point_ahead is_point_in_forward_corridor
  point_ahead_lem p scan i r x h = ground arith

  module _ (p : Params W) (scan : LaserScan W) (i : ℕ) (r : W) where
    obstacles_skipped :
        (ranges : List W)
        → point_ahead sin cos p scan i r ≡ none
        → obstacles_from p scan i (r ∷ ranges) ≡ obstacles_from p scan (i + 1) ranges
    obstacles_skipped ranges e = rw (e, obstacles_from) refl

    obstacles_met :
        (x : W) (ranges : List W)
        → point_ahead sin cos p scan i r ≡ some x
        → obstacles_from p scan i (r ∷ ranges) ≡ x ∷ obstacles_from p scan (i + 1) ranges
    obstacles_met x ranges e = rw (e, obstacles_from) refl

    nearest_skipped :
        (ranges : List W) (m : W)
        → point_ahead sin cos p scan i r ≡ none
        → nearest_from sin cos p scan i (r ∷ ranges) m
          ≡ nearest_from sin cos p scan (i + 1) ranges m
    unfolding nearest_from
    nearest_skipped ranges m e = rw e refl

    nearest_met :
        (x : W) (ranges : List W) (m : W)
        → point_ahead sin cos p scan i r ≡ some x
        → nearest_from sin cos p scan i (r ∷ ranges) m
          ≡ nearest_from sin cos p scan (i + 1) ranges (fmin x m)
    unfolding nearest_from
    nearest_met x ranges m e = rw e refl

  module _ (laws : IsOrdered W) (mono : IsMonotone W) where
    open laws use {refl_of_le, le_of_lt, le_trans}
    open mono use {infinity_nonneg}

    IsLeast-further :
        (x m y : W) (xs : List W)
        → (fmin x m ≼ x) × (fmin x m ≼ m)
        → (y ≼ fmin x m) × IsLeast y xs (fmin x m)
        → (y ≼ m) × IsLeast y (x ∷ xs) m
    IsLeast-further x m y xs (le_x, le_m) (le_min, (below, found)) =
        (le_trans _ _ _ le_min le_m, ((le_trans _ _ _ le_min le_x, below), ground arith))

    nearest_from-IsLeast :
        (p : Params W) (scan : LaserScan W) (i : ℕ) (ranges : List W) (m : W)
        → nought ≼ m
        → (nearest_from sin cos p scan i ranges m ≼ m)
          × IsLeast (nearest_from sin cos p scan i ranges m) (obstacles_from p scan i ranges) m
    unfolding nearest_from
    nearest_from-IsLeast p scan i [] m h = ((refl_of_le _ _ h).1, (tt, inl refl))
    nearest_from-IsLeast p scan i (r ∷ ranges) m h =
        let P : List W → W → Type 0 = λ xs y. (y ≼ m) × IsLeast y xs m in
        elim (Option-cases (point_ahead sin cos p scan i r)) [
          | inl e ↦
              subst⁻¹ (λ xs. P xs (nearest_from sin cos p scan i (r ∷ ranges) m))
                (obstacles_skipped p scan i r ranges e)
                (subst⁻¹ (P (obstacles_from p scan (i + 1) ranges))
                  (nearest_skipped p scan i r ranges m e)
                  (nearest_from-IsLeast p scan (i + 1) ranges m h))
          | inr (x, e) ↦
              let ahead = le_of_lt nought x (point_ahead_lem p scan i r x e).0 in
              let nonneg : nought ≼ fmin x m = ground (arith, h, ahead) in
              subst⁻¹ (λ xs. P xs (nearest_from sin cos p scan i (r ∷ ranges) m))
                (obstacles_met p scan i r x ranges e)
                (subst⁻¹ (P (x ∷ obstacles_from p scan (i + 1) ranges))
                  (nearest_met p scan i r x ranges m e)
                  (IsLeast-further x m _ _
                    (fmin_le laws x m (refl_of_le _ _ ahead).1 (refl_of_le _ _ h).1)
                    (nearest_from-IsLeast p scan (i + 1) ranges (fmin x m) nonneg)))
        ]

    obstacles-IsFar :
        (p : Params W) (scan : LaserScan W) (i : ℕ) (ranges : List W)
        → All
            (λ x. (nought ≺ x) × (lt x p.scan_ignore_min_range_m ≡ false))
            (obstacles_from p scan i ranges)
    obstacles-IsFar p scan i [] = tt
    obstacles-IsFar p scan i (r ∷ ranges) =
        let P : List W → Type 0 =
          All (λ x. (nought ≺ x) × (lt x p.scan_ignore_min_range_m ≡ false)) in
        elim (Option-cases (point_ahead sin cos p scan i r)) [
          | inl e ↦
              subst⁻¹ P (obstacles_skipped p scan i r ranges e)
                (obstacles-IsFar p scan (i + 1) ranges)
          | inr (x, e) ↦
              subst⁻¹ P (obstacles_met p scan i r x ranges e)
                (point_ahead_lem p scan i r x e, obstacles-IsFar p scan (i + 1) ranges)
        ]

    -- The distance that the node takes from a scan is not greater than that of any return in the corridor
    -- ahead that it does not skip, and is that of one of them, or infinite. The returns that it does not
    -- skip are ahead and not nearer than the range that it is set to ignore.
    pub nearest_obstacle-IsLeast :
        (p : Params W) (scan : LaserScan W)
        → IsLeast (nearest_obstacle sin cos p scan) (obstacles p scan) infinity
          × All (λ x. (nought ≺ x) × (lt x p.scan_ignore_min_range_m ≡ false)) (obstacles p scan)
    unfolding nearest_obstacle
    nearest_obstacle-IsLeast p scan = (
      (nearest_from-IsLeast p scan 0 scan.ranges infinity infinity_nonneg).1,
      obstacles-IsFar p scan 0 scan.ranges,
    )

-- ===== src/Platform/Seqlock/Writing.antt =====
-- include/safety_core/platform/sensors/imu_sensor.hpp, odometry_sensor.hpp: the memory and the places of
-- the threads between two accesses of a sequence lock, and the steps of its writer.
use safety_autonomy_core.Common.{
  IsOneOf, ℕ, ◌+◌, ◌%◌, ◌^◌, ◌≤◌, ◌<◌, ◌≡◌, ◌⊎◌, inl, inr, refl, sym, ap, ◌∙◌, subst⁻¹, List, [],
  ◌∷◌, ◌++◌, All, length, arith,
}
use mathlib.Core.List.{append_assoc}
use safety_autonomy_core.Platform.Seqlock.{
  Memory, WriterPc, ReaderPc, idle, storing, ahead, start, copying, checking, late, returned,
  set_at, writer_step,
}

module _ {A : Type 0} (written : List (List A)) where
  -- The writer is outside `write` with a whole sample in memory and an even counter, or inside, with an
  -- odd one and the first fields of the new sample in memory; in program order it is never ahead.
  abbrev pub IsWriting : Memory A → WriterPc A → Type 0
  IsWriting m idle = (m.seq % 2 ≡ 0) × IsOneOf m.sample written
  IsWriting m (storing done todo) =
      (m.seq % 2 ≡ 1)
      × IsOneOf (done ++ todo) written
      × ((old : List A) × (length old ≡ length todo) × (m.sample ≡ done ++ old))
  IsWriting m (ahead done todo) = ⊥

  -- What was copied since the counter was `seq0`: perhaps of different samples where the counter has
  -- moved since or is odd, else the first fields of the sample in memory.
  abbrev pub IsCopy : Memory A → ℕ → List A → Type 0
  IsCopy m seq0 copied =
      (seq0 ≤ m.seq)
      × ((seq0 < m.seq) ⊎ ((m.seq % 2 ≡ 1) ⊎ ((rest : List A) × (m.sample ≡ copied ++ rest))))

  abbrev pub IsReading : Memory A → ReaderPc A → Type 0
  IsReading m start = Unit
  IsReading m (copying seq0 copied) = IsCopy m seq0 copied
  IsReading m (checking seq0 copied) =
      (seq0 ≤ m.seq) × ((seq0 < m.seq) ⊎ ((m.seq % 2 ≡ 1) ⊎ (m.sample ≡ copied)))
  IsReading m (late seq0 seq1 copied) = ⊥
  IsReading m (returned result) = IsOneOf result written

set_at-append :
    {A : Type 0} (done old : List A) (y x : A)
    → set_at (done ++ (y ∷ old)) (length done) x ≡ done ++ (x ∷ old)
unfolding set_at
set_at-append [] old y x = refl
set_at-append (z ∷ done) old y x = ap (◌∷◌ z) (set_at-append done old y x)

module _ {A : Type 0} (written : List (List A)) where
  -- How a step of the writer may change the memory.
  abbrev pub IsLater : Memory A → Memory A → Type 0
  IsLater m m' = (m' ≡ m) ⊎ ((m.seq < m'.seq) ⊎ ((m'.seq ≡ m.seq) × (m.seq % 2 ≡ 1)))

  pub IsReading-later :
      (m m' : Memory A) (r : ReaderPc A)
      → IsLater m m'
      → IsReading written m r
      → IsReading written m' r
  IsReading-later m m' r (inl e) h = subst⁻¹ (λ k. IsReading written k r) e h
  IsReading-later m m' start (inr l) h = tt
  IsReading-later m m' (late seq0 seq1 copied) (inr l) h = absurd h
  IsReading-later m m' (returned result) (inr l) h = h
  IsReading-later m m' (copying seq0 copied) (inr (inl l)) (le, h) =
      (omega arith, inl (omega arith))
  IsReading-later m m' (checking seq0 copied) (inr (inl l)) (le, h) =
      (omega arith, inl (omega arith))
  IsReading-later m m' (copying seq0 copied) (inr (inr (e, odd))) (le, h) =
      (omega arith, inr (inl (omega arith)))
  IsReading-later m m' (checking seq0 copied) (inr (inr (e, odd))) (le, h) =
      (omega arith, inr (inl (omega arith)))

  module _ (width : ℕ)
      (uniform : (sample : List A) → IsOneOf sample written → length sample ≡ width) where
    -- What a step of the writer leaves.
    abbrev pub IsWritten : Memory A → Memory A × WriterPc A × List (List A) → Type 0
    IsWritten m (m', w', pending') =
        IsWriting written m' w'
        × All (λ sample. IsOneOf sample written) pending'
        × IsLater m m'
        × (m'.seq ≤ m.seq + 1)

    store-IsWritten :
        (m : Memory A) (done old : List A) (x : A) (todo : List A) (pending : List (List A))
        → m.seq % 2 ≡ 1
        → IsOneOf (done ++ (x ∷ todo)) written
        → length old ≡ length (x ∷ todo)
        → m.sample ≡ done ++ old
        → All (λ sample. IsOneOf sample written) pending
        → IsWritten m (writer_step (storing done (x ∷ todo)) pending m)
    unfolding writer_step
    store-IsWritten m done [] x todo pending odd new l e p = absurd (omega arith)
    store-IsWritten m done (y ∷ old) x todo pending odd new l e p = (
      (
        odd,
        subst⁻¹ (λ sample. IsOneOf sample written) (append_assoc done (x ∷ []) todo) new,
        (
          old,
          omega arith,
          ap (λ sample. set_at sample (length done) x) e
              ∙ (set_at-append done old y x ∙ sym (append_assoc done (x ∷ []) old)),
        ),
      ),
      p,
      inr (inr (refl, odd)),
      omega arith,
    )

    pub writer_step-IsWritten :
        (w : WriterPc A) (pending : List (List A)) (m : Memory A)
        → IsWriting written m w
        → All (λ sample. IsOneOf sample written) pending
        → m.seq + 1 < 2 ^ 32
        → IsWritten m (writer_step w pending m)
    unfolding writer_step
    writer_step-IsWritten idle [] m h p b = (h, tt, inl refl, omega arith)
    writer_step-IsWritten idle (sample ∷ pending) m (even, old) (new, p) b = (
      (omega arith, new, (m.sample, uniform m.sample old ∙ sym (uniform sample new), refl)),
      p,
      inr (inl (omega arith)),
      omega arith,
    )
    writer_step-IsWritten (ahead done todo) pending m h p b = absurd h
    writer_step-IsWritten (storing done (x ∷ todo)) pending m (odd, new, (old, l, e)) p b =
        store-IsWritten m done old x todo pending odd new l e p
    writer_step-IsWritten (storing done []) pending m (odd, new, (old, l, e)) p b = (
      (omega arith, subst⁻¹ (λ sample. IsOneOf sample written) (ended old l e) new),
      p,
      inr (inl (omega arith)),
      omega arith,
    )
      where
        ended : (old : List A) → length old ≡ 0 → m.sample ≡ done ++ old → m.sample ≡ done ++ []
        ended [] l e = e
        ended (y ∷ old) l e = absurd (omega arith)

-- ===== src/Platform/Seqlock/Whole.antt =====
-- include/safety_core/platform/sensors/imu_sensor.hpp, odometry_sensor.hpp: what a read returns while
-- samples are written.
use safety_autonomy_core.Common.{
  IsOneOf, true, ℕ, suc, ◌+◌, ◌^◌, ◌≤◌, ◌<◌, ◌≡◌, inl, inr, refl, ◌∙◌, subst⁻¹, List, [], ◌∷◌, All,
  replicate, length, arith,
}
use safety_autonomy_core.Platform.Seqlock.{
  Memory, System, ReaderPc, Thread, idle, start, copying, checking, late, returned, writes, reads,
  stores_early, loads_early, is_in_order, set_at, early_store, early_load, writer_step, reader_step,
  step, run,
}
use safety_autonomy_core.Platform.Seqlock.Writing.{
  IsWriting, IsReading, IsReading-later, writer_step-IsWritten,
}
use safety_autonomy_core.Platform.Seqlock.Reading.{
  reader_step-IsReading, reads_from, run_reads, copy_returns, late_returns,
}

module _ {A : Type 0} (written : List (List A)) where
  record IsSound (s : System A) : Type 0 where
    writing : IsWriting written s.memory s.writer
    pending : All (λ sample. IsOneOf sample written) s.pending
    reading : IsReading written s.memory s.reader

  module _ (width : ℕ)
      (uniform : (sample : List A) → IsOneOf sample written → length sample ≡ width) where
    step-IsSound :
        (t : Thread) (s : System A)
        → IsSound s
        → is_in_order t ≡ true
        → s.memory.seq + 1 < 2 ^ 32
        → IsSound (step t s) × ((step t s).memory.seq ≤ s.memory.seq + 1)
    unfolding step
    step-IsSound writes s h o b =
        let (writing, pending, later, bound) =
          writer_step-IsWritten written width uniform s.writer s.pending s.memory h.writing
            h.pending b in
        (
          record {
            writing = writing;
            pending = pending;
            reading = IsReading-later written s.memory _ s.reader later h.reading;
          },
          bound,
        )
    step-IsSound stores_early s h o b = absurd (ground (arith, o))
    step-IsSound loads_early s h o b = absurd (ground (arith, o))
    step-IsSound reads s h o b = (
      record {
        writing = h.writing;
        pending = h.pending;
        reading = reader_step-IsReading written s.reader s.writer s.memory h.writing h.reading;
      },
      omega arith,
    )

    run-IsSound :
        (threads : List Thread) (s : System A)
        → IsSound s
        → All (λ t. is_in_order t ≡ true) threads
        → s.memory.seq + length threads < 2 ^ 32
        → IsSound (run threads s)
    unfolding run
    run-IsSound [] s h o b = h
    run-IsSound (t ∷ threads) s h (o, os) b =
        let (h', bound) = step-IsSound t s h o (omega arith) in
        run-IsSound threads (step t s) h' os (omega arith)

-- The system before anything is read: a whole sample in memory and samples of its size to be written.
abbrev pub fresh : {A : Type 0} → List A → List (List A) → System A
fresh sample pending = record {
  memory = record { sample = sample; seq = 0 };
  writer = idle;
  pending = pending;
  reader = start;
}

-- What a reader has returned, if it has returned.
abbrev pub IsAnyOf : {A : Type 0} → List (List A) → ReaderPc A → Type 0
IsAnyOf samples (returned result) = IsOneOf result samples
IsAnyOf samples _ = Unit

IsOneOf-All : {A : Type 0} (P : A → Type 0) (xs : List A) (x : A) → IsOneOf x xs → All P xs → P x
IsOneOf-All P [] x h p = absurd h
IsOneOf-All P (y ∷ xs) x (inl e) (p, _) = subst⁻¹ P e p
IsOneOf-All P (y ∷ xs) x (inr h) (_, p) = IsOneOf-All P xs x h p

All-IsOneOf :
    {A : Type 0} (xs ys : List A)
    → ((x : A) → IsOneOf x xs → IsOneOf x ys)
    → All (λ x. IsOneOf x ys) xs
All-IsOneOf [] ys f = tt
All-IsOneOf (x ∷ xs) ys f = (f x (inl refl), All-IsOneOf xs ys (λ y h. f y (inr h)))

fresh-IsSound :
    {A : Type 0} (sample : List A) (pending : List (List A))
    → IsSound (sample ∷ pending) (fresh sample pending)
fresh-IsSound sample pending = record {
  writing = (refl, inl refl);
  pending = All-IsOneOf pending (sample ∷ pending) (λ x h. inr h);
  reading = tt;
}

sound-IsAnyOf :
    {A : Type 0} (samples : List (List A)) (m : Memory A) (r : ReaderPc A)
    → IsReading samples m r
    → IsAnyOf samples r
sound-IsAnyOf samples m start h = tt
sound-IsAnyOf samples m (copying seq0 copied) h = tt
sound-IsAnyOf samples m (checking seq0 copied) h = tt
sound-IsAnyOf samples m (late seq0 seq1 copied) h = tt
sound-IsAnyOf samples m (returned result) h = h

-- Two runs after which a read has returned the first field of the first pending sample with the others of
-- the sample before: one store has overtaken the first `fetch_add`, and nothing else disturbs the read; or
-- the second load of the counter has overtaken the copies, and the write has begun between them.
abbrev pub IsTorn : {A : Type 0} → List A → List (List A) → Type 0
IsTorn (x ∷ old) ((y ∷ new) ∷ pending) =
    let s = fresh (x ∷ old) ((y ∷ new) ∷ pending) in
    ((run (stores_early ∷ replicate (suc (suc (suc (suc (length old))))) reads) s).reader
      ≡ returned (y ∷ old))
    × ((run (reads ∷ loads_early ∷ writes ∷ writes ∷ replicate (suc (suc (length old))) reads)
          s).reader
        ≡ returned (y ∷ old))
IsTorn _ _ = Unit

out_of_order-IsTorn :
    {A : Type 0} (sample : List A) (pending : List (List A)) → IsTorn sample pending
unfolding run step early_store early_load set_at reads_from reader_step writer_step
out_of_order-IsTorn [] pending = tt
out_of_order-IsTorn (x ∷ old) [] = tt
out_of_order-IsTorn (x ∷ old) ([] ∷ pending) = tt
out_of_order-IsTorn (x ∷ old) ((y ∷ new) ∷ pending) =
    let s = fresh (x ∷ old) ((y ∷ new) ∷ pending) in
    let stored = step stores_early s in
    let begun = step writes (step writes (step loads_early (step reads s))) in
    (
      run_reads (suc (suc (suc (suc (length old))))) stored
          ∙ copy_returns stored.memory (y ∷ old) [] refl refl,
      run_reads (suc (suc (length old))) begun ∙ late_returns begun.memory (y ∷ old) [] refl,
    )

-- One writer stores samples of one size, field by field, while one reader copies. If their accesses, fewer
-- than 2^32, take effect in program order, in any interleaving, a read that returns returns one of
-- the samples whole, never the fields of two of them; and a read that is not disturbed returns the
-- sample in memory in as many accesses as the sample has fields, and three. The orders that the source
-- asks for do not suffice for that: where one store overtakes the first `fetch_add`, which is a
-- release, or the second load of the counter, which is an acquire, overtakes the copies, there are runs
-- in which a read returns the first field of the new sample with the others of the old one.
pub run-IsAnyOf :
    {A : Type 0} (threads : List Thread) (sample : List A) (pending : List (List A))
    → All (λ p. length p ≡ length sample) pending
    → All (λ t. is_in_order t ≡ true) threads
    → length threads < 2 ^ 32
    → IsAnyOf (sample ∷ pending) (run threads (fresh sample pending)).reader
      × ((run (replicate (suc (suc (suc (length sample)))) reads) (fresh sample pending)).reader
          ≡ returned sample)
      × IsTorn sample pending
unfolding reads_from reader_step
run-IsAnyOf threads sample pending u o b =
    let s = run threads (fresh sample pending) in
    (
      sound-IsAnyOf (sample ∷ pending) s.memory s.reader
          (run-IsSound (sample ∷ pending) (length sample) uniform threads (fresh sample pending)
            (fresh-IsSound sample pending) o (omega arith)).reading,
      run_reads (suc (suc (suc (length sample)))) (fresh sample pending)
          ∙ copy_returns (fresh sample pending).memory sample [] refl refl,
      out_of_order-IsTorn sample pending,
    )
  where
    uniform : (p : List _) → IsOneOf p (sample ∷ pending) → length p ≡ length sample
    uniform p h = IsOneOf-All (λ q. length q ≡ length sample) (sample ∷ pending) p h (refl, u)

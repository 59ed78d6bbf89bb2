-- ===== src/Platform/Seqlock.antt =====
-- include/safety_core/platform/sensors/imu_sensor.hpp, odometry_sensor.hpp: the sequence lock of the
-- buffered sensors, with one writer and one reader. A sample is the list of its fields, stored and
-- copied one at a time; each step is one access to the shared memory. The sample is a plain object and
-- the counter is accessed with release and acquire, so two things may happen out of program order: a
-- store to the sample may take effect before the first `fetch_add`, and the second load of the counter
-- before copies of the sample. These are steps of their own; other reorderings are left out.
pub mod Writing
pub mod Reading
pub mod Whole
use safety_autonomy_core.Common.{
  ℕ, suc, zero, ◌+◌, ◌%◌, ◌^◌, Bool, true, false, not, ◌&&◌, ◌||◌, List, [], ◌∷◌, ◌++◌, Option,
  none, some, length, get_elem?, ◌==◌, if◌then◌else◌,
}

-- The places of `write`: outside it, or with the fields stored so far and those to come, where `ahead`
-- is before the first `fetch_add` has taken effect.
pub data WriterPc (A : Type 0) : Type 0 where
  idle : WriterPc A
  storing ahead : List A → List A → WriterPc A

-- The places of `read`: before a round, with `seq0` and the fields copied so far, before the second
-- load of the counter, with both loads before the last copies, and returned.
pub data ReaderPc (A : Type 0) : Type 0 where
  start : ReaderPc A
  copying : ℕ → List A → ReaderPc A
  checking : ℕ → List A → ReaderPc A
  late : ℕ → ℕ → List A → ReaderPc A
  returned : List A → ReaderPc A

pub record Memory (A : Type 0) : Type 0 where
  pub sample : List A
  pub seq : ℕ

-- The memory, the two threads, and the samples that are still to be written.
pub record System (A : Type 0) : Type 0 where
  pub memory : Memory A
  pub writer : WriterPc A
  pub pending : List (List A)
  pub reader : ReaderPc A

-- The next access of a thread, in program order or out of it.
pub data Thread : Type 0 where
  writes reads stores_early loads_early : Thread

abbrev pub is_in_order : Thread → Bool
is_in_order stores_early = false
is_in_order loads_early = false
is_in_order _ = true

module _ {A : Type 0} where
  unfoldable pub set_at : List A → ℕ → A → List A
  set_at [] i x = []
  set_at (y ∷ ys) zero x = x ∷ ys
  set_at (y ∷ ys) (suc i) x = y ∷ set_at ys i x

  -- `seq_.fetch_add(1U)`
  abbrev pub bump : Memory A → Memory A
  bump m = record m { seq = (m.seq + 1) % 2 ^ 32 }

  -- One access of `write`.
  unfoldable pub writer_step :
      WriterPc A → List (List A) → Memory A → Memory A × WriterPc A × List (List A)
  unfolding set_at
  writer_step idle [] m = (m, idle, [])
  writer_step idle (sample ∷ pending) m = (bump m, storing [] sample, pending)
  writer_step (storing done (x ∷ todo)) pending m = (
    record m { sample = set_at m.sample (length done) x },
    storing (done ++ (x ∷ [])) todo,
    pending,
  )
  writer_step (storing done []) pending m = (bump m, idle, pending)
  writer_step (ahead done todo) pending m = (bump m, storing done todo, pending)

  -- A store of `write` that takes effect before the first `fetch_add`.
  unfoldable pub early_store :
      WriterPc A → List (List A) → Memory A → Memory A × WriterPc A × List (List A)
  unfolding set_at
  early_store idle ((x ∷ todo) ∷ pending) m =
      (record m { sample = set_at m.sample 0 x }, ahead (x ∷ []) todo, pending)
  early_store (ahead done (x ∷ todo)) pending m = (
    record m { sample = set_at m.sample (length done) x },
    ahead (done ++ (x ∷ [])) todo,
    pending,
  )
  early_store w pending m = (m, w, pending)

  -- The test at the end of a round of `read`.
  abbrev pub round_end : ℕ → ℕ → List A → ReaderPc A
  round_end seq0 seq1 copied =
      if not (seq0 == seq1) || seq0 % 2 == 1 then start else returned copied

  -- One access of `read`.
  unfoldable pub reader_step : ReaderPc A → Memory A → ReaderPc A
  reader_step start m = copying m.seq []
  reader_step (copying seq0 copied) m = elim (get_elem? m.sample (length copied)) [
    | some x ↦ copying seq0 (copied ++ (x ∷ []))
    | none ↦ checking seq0 copied
  ]
  reader_step (checking seq0 copied) m = round_end seq0 m.seq copied
  reader_step (late seq0 seq1 copied) m = elim (get_elem? m.sample (length copied)) [
    | some x ↦ late seq0 seq1 (copied ++ (x ∷ []))
    | none ↦ round_end seq0 seq1 copied
  ]
  reader_step (returned result) m = returned result

  -- The second load of the counter before the copies that are left.
  unfoldable pub early_load : ReaderPc A → Memory A → ReaderPc A
  early_load (copying seq0 copied) m = late seq0 m.seq copied
  early_load r m = r

  unfoldable pub step : Thread → System A → System A
  step writes s =
      let (memory, writer, pending) = writer_step s.writer s.pending s.memory in
      record s { memory = memory; writer = writer; pending = pending }
  step reads s = record s { reader = reader_step s.reader s.memory }
  step stores_early s =
      let (memory, writer, pending) = early_store s.writer s.pending s.memory in
      record s { memory = memory; writer = writer; pending = pending }
  step loads_early s = record s { reader = early_load s.reader s.memory }

  unfoldable pub run : List Thread → System A → System A
  run [] s = s
  run (t ∷ threads) s = run threads (step t s)

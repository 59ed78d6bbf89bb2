-- ===== src/Platform/Seqlock/Reading.antt =====
-- include/safety_core/platform/sensors/imu_sensor.hpp, odometry_sensor.hpp: the steps of the reader of a
-- sequence lock.
use safety_autonomy_core.Common.{
  IsOneOf, ℕ, zero, suc, ◌%◌, ◌<◌, ◌≡◌, ◌⊎◌, inl, inr, refl, sym, ap, ◌∙◌, subst, false, List, [],
  ◌∷◌, ◌++◌, some, none, replicate, length, get_elem?, ◌==◌, not, ◌||◌, arith, if_cases,
  option_cases,
}
use mathlib.Core.List.{append_assoc, append-nil}
use safety_autonomy_core.Platform.Seqlock.{
  Memory, System, WriterPc, ReaderPc, idle, storing, ahead, start, copying, checking, late,
  returned, reads, reader_step, step, run,
}
use safety_autonomy_core.Platform.Seqlock.Writing.{IsWriting, IsCopy, IsReading}

get_elem?-append :
    {A : Type 0} (copied : List A) (x : A) (rest : List A)
    → get_elem? (copied ++ (x ∷ rest)) (length copied) ≡ some x
get_elem?-append [] x rest = refl
get_elem?-append (y ∷ copied) x rest = get_elem?-append copied x rest

get_elem?-self : {A : Type 0} (copied : List A) → get_elem? copied (length copied) ≡ none
get_elem?-self [] = refl
get_elem?-self (y ∷ copied) = get_elem?-self copied

module _ {A : Type 0} (written : List (List A)) where
  copy-IsReading :
      (m : Memory A) (seq0 : ℕ) (copied : List A)
      → IsCopy written m seq0 copied
      → IsReading written m (reader_step (copying seq0 copied) m)
  unfolding reader_step
  copy-IsReading m seq0 copied (le, h) =
      option_cases (IsReading written m) (get_elem? m.sample (length copied)) (λ e. (le, whole e h))
        (λ x e. (le, longer x e h))
    where
      whole :
          get_elem? m.sample (length copied) ≡ none
          → (seq0 < m.seq) ⊎ ((m.seq % 2 ≡ 1) ⊎ ((rest : List A) × (m.sample ≡ copied ++ rest)))
          → (seq0 < m.seq) ⊎ ((m.seq % 2 ≡ 1) ⊎ (m.sample ≡ copied))
      whole e (inl l) = inl l
      whole e (inr (inl odd)) = inr (inl odd)
      whole e (inr (inr ([], k))) = inr (inr (k ∙ append-nil copied))
      whole e (inr (inr (y ∷ rest, k))) =
          let found =
            ap (λ sample. get_elem? sample (length copied)) k ∙ get_elem?-append copied y rest in
          absurd (ground (arith, found))

      longer :
          (x : A)
          → get_elem? m.sample (length copied) ≡ some x
          → (seq0 < m.seq) ⊎ ((m.seq % 2 ≡ 1) ⊎ ((rest : List A) × (m.sample ≡ copied ++ rest)))
          → (seq0 < m.seq)
            ⊎ ((m.seq % 2 ≡ 1) ⊎ ((rest : List A) × (m.sample ≡ (copied ++ (x ∷ [])) ++ rest)))
      longer x e (inl l) = inl l
      longer x e (inr (inl odd)) = inr (inl odd)
      longer x e (inr (inr ([], k))) =
          let ended =
            ap (λ sample. get_elem? sample (length copied)) (k ∙ append-nil copied)
            ∙ get_elem?-self copied in
          absurd (ground (arith, ended))
      longer x e (inr (inr (y ∷ rest, k))) =
          let found =
            ap (λ sample. get_elem? sample (length copied)) k ∙ get_elem?-append copied y rest in
          let same : y ≡ x = ground (arith, found) in
          inr (
            inr (
              rest,
              k ∙ (ap (λ z. copied ++ (z ∷ rest)) same ∙ sym (append_assoc copied (x ∷ []) rest)),
            ))

  -- A round that ends was not disturbed: what it copied is the whole sample in memory.
  check-IsReading :
      (m : Memory A) (w : WriterPc A) (seq0 : ℕ) (copied : List A)
      → IsWriting written m w
      → IsReading written m (checking seq0 copied)
      → IsReading written m (reader_step (checking seq0 copied) m)
  unfolding reader_step
  check-IsReading m w seq0 copied writing (le, h) =
      if_cases (IsReading written m) (not (seq0 == m.seq) || seq0 % 2 == 1) (λ e. tt)
        (λ e. settled e h)
    where
      in_memory :
          (w : WriterPc A) → IsWriting written m w → m.seq % 2 ≡ 0 → IsOneOf m.sample written
      in_memory idle (even, whole) e = whole
      in_memory (storing done todo) (odd, _, _) e = absurd (omega arith)
      in_memory (ahead done todo) h e = absurd h

      settled :
          (not (seq0 == m.seq) || seq0 % 2 == 1) ≡ false
          → (seq0 < m.seq) ⊎ ((m.seq % 2 ≡ 1) ⊎ (m.sample ≡ copied))
          → IsOneOf copied written
      settled e (inl l) = absurd (ground arith)
      settled e (inr (inl odd)) = absurd (ground arith)
      settled e (inr (inr k)) =
          subst (λ sample. IsOneOf sample written) k (in_memory w writing (ground arith))

  pub reader_step-IsReading :
      (r : ReaderPc A) (w : WriterPc A) (m : Memory A)
      → IsWriting written m w
      → IsReading written m r
      → IsReading written m (reader_step r m)
  unfolding reader_step
  reader_step-IsReading start w m writing h = (omega arith, inr (inr (m.sample, refl)))
  reader_step-IsReading (copying seq0 copied) w m writing h = copy-IsReading m seq0 copied h
  reader_step-IsReading (checking seq0 copied) w m writing h =
      check-IsReading m w seq0 copied writing h
  reader_step-IsReading (late seq0 seq1 copied) w m writing h = absurd h
  reader_step-IsReading (returned result) w m writing h = h

-- The steps of a reader alone.
unfoldable pub reads_from : {A : Type 0} → ℕ → ReaderPc A → Memory A → ReaderPc A
reads_from zero r m = r
reads_from (suc k) r m = reads_from k (reader_step r m) m

pub run_reads :
    {A : Type 0} (k : ℕ) (s : System A)
    → (run (replicate k reads) s).reader ≡ reads_from k s.reader s.memory
unfolding run step reads_from
run_reads zero s = refl
run_reads (suc k) s = run_reads k (step reads s)

module _ {A : Type 0} (m : Memory A) where
  copy_next :
      (seq0 : ℕ) (copied : List A) (x : A)
      → get_elem? m.sample (length copied) ≡ some x
      → reader_step (copying seq0 copied) m ≡ copying seq0 (copied ++ (x ∷ []))
  unfolding reader_step
  copy_next seq0 copied x e = rw (e, reader_step) refl

  copy_end :
      (seq0 : ℕ) (copied : List A)
      → get_elem? m.sample (length copied) ≡ none
      → reader_step (copying seq0 copied) m ≡ checking seq0 copied
  unfolding reader_step
  copy_end seq0 copied e = rw (e, reader_step) refl

  check_end :
      (copied : List A) → m.seq % 2 ≡ 0 → reader_step (checking m.seq copied) m ≡ returned copied
  unfolding reader_step
  check_end copied even = ground arith

  -- The rest of a round that nothing disturbs.
  pub copy_returns :
      (rest copied : List A)
      → m.seq % 2 ≡ 0
      → m.sample ≡ copied ++ rest
      → reads_from (suc (suc (length rest))) (copying m.seq copied) m ≡ returned m.sample
  unfolding reads_from
  copy_returns [] copied even e =
      let whole = e ∙ append-nil copied in
      let ended = ap (λ sample. get_elem? sample (length copied)) whole ∙ get_elem?-self copied in
      ap (λ r. reader_step r m) (copy_end m.seq copied ended)
      ∙ (check_end copied even ∙ ap returned (sym whole))
  copy_returns (x ∷ rest) copied even e =
      let found =
        ap (λ sample. get_elem? sample (length copied)) e ∙ get_elem?-append copied x rest in
      ap (λ r. reads_from (suc (suc (length rest))) r m) (copy_next m.seq copied x found)
      ∙ copy_returns rest (copied ++ (x ∷ [])) even (e ∙ sym (append_assoc copied (x ∷ []) rest))

  late_next :
      (seq0 seq1 : ℕ) (copied : List A) (x : A)
      → get_elem? m.sample (length copied) ≡ some x
      → reader_step (late seq0 seq1 copied) m ≡ late seq0 seq1 (copied ++ (x ∷ []))
  unfolding reader_step
  late_next seq0 seq1 copied x e = rw (e, reader_step) refl

  late_end :
      (copied : List A)
      → get_elem? m.sample (length copied) ≡ none
      → reader_step (late 0 0 copied) m ≡ returned copied
  unfolding reader_step
  late_end copied e = rw (e, reader_step) refl

  -- The rest of a round whose second load came early, at the start of the first sample: whatever the
  -- memory holds is returned.
  pub late_returns :
      (rest copied : List A)
      → m.sample ≡ copied ++ rest
      → reads_from (suc (length rest)) (late 0 0 copied) m ≡ returned m.sample
  unfolding reads_from
  late_returns [] copied e =
      let whole = e ∙ append-nil copied in
      let ended = ap (λ sample. get_elem? sample (length copied)) whole ∙ get_elem?-self copied in
      late_end copied ended ∙ ap returned (sym whole)
  late_returns (x ∷ rest) copied e =
      let found =
        ap (λ sample. get_elem? sample (length copied)) e ∙ get_elem?-append copied x rest in
      ap (λ r. reads_from (suc (length rest)) r m) (late_next 0 0 copied x found)
      ∙ late_returns rest (copied ++ (x ∷ [])) (e ∙ sym (append_assoc copied (x ∷ []) rest))

-- ===== src/Config/Env/Loaded.antt =====
-- src/config/env_loader.cpp: which variables are taken, and which are refused for the default.
use safety_autonomy_core.Common.{
  ℕ, ◌^◌, ◌-◌, ◌≤◌, ◌≡◌, ◌⊎◌, inl, inr, refl, ap, ◌∙◌, Bool, true, false, not, ◌&&◌, String, List,
  none, some, arith, leb, Option-cases, option_cases, if_cases, if◌then◌else◌,
}
use safety_autonomy_core.Common.Int.{ℤ}
use safety_autonomy_core.Common.Words.{
  u8, u16, u64_of_i64, i64_of_u64, IsInt64, i64_of_u64-u64_of_i64,
}
use safety_autonomy_core.Common.Double.{Double}
use safety_autonomy_core.Config.Types.{SystemConfig}
use safety_autonomy_core.Config.Env.{
  Environment, strtoull, is_empty, parse_or, read_uint64, read_uint64_bounded, read_duration,
  read_double, load_from_env, IsInRange, read_bounded_unset, read_duration_unset,
}

-- The whole text is a number of at most `high`.
abbrev pub is_number : ℕ → List ℕ → Bool
is_number high text =
    let parsed = strtoull text in
    parsed.consumed && is_empty parsed.rest && not parsed.range_error && leb parsed.value high

-- A variable that is set to a number of at most `high` is taken; one that is not set, or to anything else,
-- leaves the default.
abbrev pub IsTaken : Environment → String → ℕ → ℕ → ℕ → Type 0
IsTaken env name fallback high loaded =
    ((env name ≡ none) × (loaded ≡ fallback))
    ⊎ ((text : List ℕ) × (env name ≡ some text)
        × (((is_number high text ≡ true) × (loaded ≡ (strtoull text).value))
            ⊎ ((is_number high text ≡ false) × (loaded ≡ fallback))))

-- The same of a duration, whose word is cast to a signed one.
abbrev pub IsTakenDuration : Environment → String → ℤ → ℤ → Type 0
IsTakenDuration env name fallback loaded =
    ((env name ≡ none) × (loaded ≡ fallback))
    ⊎ ((text : List ℕ) × (env name ≡ some text)
        × (((is_number (2 ^ 64 - 1) text ≡ true) × (loaded ≡ i64_of_u64 (strtoull text).value))
            ⊎ ((is_number (2 ^ 64 - 1) text ≡ false) × (loaded ≡ fallback))))

parse_or_cases :
    (high : ℕ) (text : List ℕ) (fallback loaded : ℕ)
    → high ≤ 2 ^ 64 - 1
    → loaded ≡ (if leb (parse_or text fallback) high then parse_or text fallback else fallback)
    → ((is_number high text ≡ true) × (loaded ≡ (strtoull text).value))
      ⊎ ((is_number high text ≡ false) × (loaded ≡ fallback))
unfolding parse_or
parse_or_cases high text fallback loaded b e = ground arith

-- A fallback of 64 bits leaves a number of 64 bits.
parse_or_whole :
    (text : List ℕ) (word : ℕ)
    → parse_or text word
      ≡ (if leb (parse_or text word) (2 ^ 64 - 1) then parse_or text word else word)
unfolding parse_or
parse_or_whole text word = ground arith

module _ (env : Environment) (name : String) where
  read_uint64_set :
      (text : List ℕ) (fallback : ℕ)
      → env name ≡ some text
      → read_uint64 env name fallback ≡ parse_or text fallback
  unfolding read_uint64
  read_uint64_set text fallback set = rw (set, read_uint64) refl

  read_bounded_leb :
      (fallback high : ℕ)
      → let parsed = read_uint64 env name fallback in
        read_uint64_bounded env name fallback 0 high
        ≡ (if leb parsed high then parsed else fallback)
  unfolding read_uint64_bounded
  read_bounded_leb fallback high = ground arith

  read_bounded-IsTaken :
      (fallback high : ℕ)
      → high ≤ 2 ^ 64 - 1
      → IsTaken env name fallback high (read_uint64_bounded env name fallback 0 high)
  read_bounded-IsTaken fallback high b = elim (Option-cases (env name)) [
    | inl unset ↦ inl (unset, read_bounded_unset env name fallback 0 high unset)
    | inr (text, set) ↦ inr (
      text,
      set,
      parse_or_cases high text fallback _ b (
          read_bounded_leb fallback high
          ∙ ap (λ n. if leb n high then n else fallback) (read_uint64_set text fallback set)),
    )
  ]

  IsTaken-in_range :
      (fallback high : ℕ) (narrow : ℕ → ℕ) (loaded : ℕ)
      → ((n : ℕ) → n ≤ high → narrow n ≡ n)
      → fallback ≤ high
      → IsTaken env name fallback high loaded
      → IsTaken env name fallback high (narrow loaded)
  IsTaken-in_range fallback high narrow loaded same b (inl (unset, e)) =
      inl (unset, ap narrow e ∙ same fallback b)
  IsTaken-in_range fallback high narrow loaded same b (inr (text, set, inl (good, e))) =
      inr (text, set, inl (good, ap narrow e ∙ same _ (ground (arith, good))))
  IsTaken-in_range fallback high narrow loaded same b (inr (text, set, inr (bad, e))) =
      inr (text, set, inr (bad, ap narrow e ∙ same fallback b))

  read_duration-IsTaken :
      (fallback : ℤ)
      → IsInt64 fallback
      → IsTakenDuration env name fallback (read_duration env name fallback)
  unfolding read_duration
  read_duration-IsTaken fallback range = elim (Option-cases (env name)) [
    | inl unset ↦ inl (unset, read_duration_unset env name fallback unset range)
    | inr (text, set) ↦
        let word = u64_of_i64 fallback in
        let read = read_uint64_set text word set in
        let back = i64_of_u64-u64_of_i64 fallback range in
        inr (
          text,
          set,
          elim (parse_or_cases (2 ^ 64 - 1) text word _ (omega arith) (parse_or_whole text word)) [
            | inl (good, e) ↦ inl (good, ap i64_of_u64 (read ∙ e))
            | inr (bad, e) ↦ inr (bad, ap i64_of_u64 (read ∙ e) ∙ back)
          ],
        )
  ]

module _ {W : Type 0} ⦃d : Double W⦄ where
  -- A variable that `strtod` reads as a finite number is taken; any other leaves the default.
  abbrev pub IsTakenDouble : Environment → String → W → W → Type 0
  IsTakenDouble env name fallback loaded =
      ((env name ≡ none) × (loaded ≡ fallback))
      ⊎ ((text : List ℕ) × (env name ≡ some text)
          × (((d.read text ≡ none) × (loaded ≡ fallback))
              ⊎ ((x : W) × (d.read text ≡ some x)
                  × (((d.is_finite x ≡ true) × (loaded ≡ x))
                      ⊎ ((d.is_finite x ≡ false) × (loaded ≡ fallback))))))

  read_double-IsTaken :
      (env : Environment) (name : String) (fallback : W)
      → IsTakenDouble env name fallback (read_double env name fallback)
  unfolding read_double
  read_double-IsTaken env name fallback =
      option_cases P (env name) (λ unset. inl (unset, refl))
        (λ text set.
          option_cases P (d.read text) (λ e. inr (text, set, inl (e, refl)))
            (λ x e.
              if_cases P (d.is_finite x) (λ f. inr (text, set, inr (x, e, inl (f, refl))))
                (λ f. inr (text, set, inr (x, e, inr (f, refl))))))
    where
      P : W → Type 0
      P loaded = IsTakenDouble env name fallback loaded

  abbrev pub IsLoaded : Environment → SystemConfig W → SystemConfig W → Type 0
  IsLoaded env cfg loaded =
      IsTaken env "SAFETY_CORE_CONFIG_VERSION" cfg.config_version 65535 loaded.config_version
      × IsTaken env "SAFETY_CORE_MAX_TASKS" cfg.max_tasks 255 loaded.max_tasks
      × IsTakenDuration env "SAFETY_CORE_CONTROL_PERIOD_NS" cfg.timing.control_period
          loaded.timing.control_period
      × IsTakenDuration env "SAFETY_CORE_WATCHDOG_PERIOD_NS" cfg.timing.watchdog_period
          loaded.timing.watchdog_period
      × IsTakenDuration env "SAFETY_CORE_LOCALIZATION_TIMEOUT_NS" cfg.timing.localization_timeout
          loaded.timing.localization_timeout
      × IsTakenDouble env "SAFETY_CORE_MAX_SPEED_MPS" cfg.envelope.max_speed_mps
          loaded.envelope.max_speed_mps
      × IsTakenDouble env "SAFETY_CORE_MAX_ACCEL_MPS2" cfg.envelope.max_accel_mps2
          loaded.envelope.max_accel_mps2
      × IsTakenDouble env "SAFETY_CORE_MAX_DECEL_MPS2" cfg.envelope.max_comfort_decel_mps2
          loaded.envelope.max_comfort_decel_mps2
      × IsTakenDouble env "SAFETY_CORE_CONTROL_LATENCY_S" cfg.envelope.control_latency_s
          loaded.envelope.control_latency_s
      × IsTakenDouble env "SAFETY_CORE_SAFETY_BUFFER_M" cfg.envelope.safety_buffer_m
          loaded.envelope.safety_buffer_m

  -- Over a configuration within the ranges of its types, each variable is loaded as follows. The version
  -- is taken from a variable that holds a number up to 65535 and the number of tasks from one up to 255, never
  -- cut to the type; a duration is taken from a number of 64 bits, cast to a signed word; a limit is
  -- taken from what `strtod` reads as a finite number. A variable that is not set, or holds anything else,
  -- leaves the value that was there.
  pub load_from_env_lem :
      (env : Environment) (cfg : SystemConfig W)
      → IsInRange cfg
      → IsLoaded env cfg (load_from_env env cfg)
  unfolding load_from_env
  load_from_env_lem env cfg r = (
    IsTaken-in_range env _ cfg.config_version 65535 u16 _ (λ n b. omega arith)
        (omega (arith, r.version))
        (read_bounded-IsTaken env _ cfg.config_version 65535 (omega arith)),
    IsTaken-in_range env _ cfg.max_tasks 255 u8 _ (λ n b. omega arith) (omega (arith, r.tasks))
        (read_bounded-IsTaken env _ cfg.max_tasks 255 (omega arith)),
    read_duration-IsTaken env _ _ r.control,
    read_duration-IsTaken env _ _ r.watchdog,
    read_duration-IsTaken env _ _ r.localization,
    read_double-IsTaken env _ _,
    read_double-IsTaken env _ _,
    read_double-IsTaken env _ _,
    read_double-IsTaken env _ _,
    read_double-IsTaken env _ _,
  )

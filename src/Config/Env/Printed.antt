-- ===== src/Config/Env/Printed.antt =====
-- src/config/env_loader.cpp: numbers that are printed in decimal and read again.
use native.Mathlib.Nat.{pow-suc}
use safety_autonomy_core.Common.{
  ℕ, zero, suc, ◌+◌, ◌-◌, ◌*◌, ◌/◌, ◌%◌, ◌^◌, ◌≤◌, ◌<◌, ◌≡◌, inl, inr, refl, ap, ◌∙◌, Bool, true,
  false, String, List, [], ◌∷◌, some, arith, ltb, Bool-cases, if_cases, ◌==◌,
}
use safety_autonomy_core.Common.Int.{ℤ}
use safety_autonomy_core.Common.Words.{u8, u16, u64_of_i64, IsInt64, i64_of_u64-u64_of_i64}
use safety_autonomy_core.Common.Double.{Double}
use safety_autonomy_core.Common.Printf.{print_unsigned, digits_before}
use safety_autonomy_core.Config.Types.{SystemConfig}
use safety_autonomy_core.Config.Env.{
  Environment, is_space, skip_spaces, is_digit, parsed_at, read_digits, read_sign, strtoull,
  parse_or, read_uint64, read_uint64_bounded, read_duration, read_double, load_from_env, IsInRange,
}

lt→ltb : (a b : ℕ) → a < b → ltb a b ≡ true
lt→ltb a b h = ground arith

code-is_digit : (digit : ℕ) → digit < 10 → is_digit (48 + digit) ≡ true
unfolding is_digit
code-is_digit digit h = ground arith

-- Reading goes on behind one digit with its value added.
read_digit :
    (n digit : ℕ) (seen : Bool) (rest : List ℕ)
    → digit < 10
    → read_digits false n seen ((48 + digit) ∷ rest) ≡ read_digits false (n * 10 + digit) true rest
unfolding read_digits
read_digit n digit seen rest h =
    rw (code-is_digit digit h) (ap (λ a. read_digits false (n * 10 + a) true rest) same)
  where
    same : 48 + digit - 48 ≡ digit
    same = omega arith

read_at :
    (a b : ℕ) (out : List ℕ) → a ≡ b → read_digits false a true out ≡ read_digits false b true out
read_at a b out h = ap (λ n. read_digits false n true out) h

-- The last digit of a number of one digit.
read_last :
    (n : ℕ) (out : List ℕ)
    → n < 10
    → read_digits false 0 false ((48 + n % 10) ∷ out) ≡ read_digits false n true out
read_last n out h =
    read_digit 0 (n % 10) false out (omega arith) ∙ read_at (0 * 10 + n % 10) n out (omega arith)

-- The digits of a number are read as that number.
read_printed :
    (fuel n : ℕ) (out : List ℕ)
    → n < 10 ^ suc fuel
    → read_digits false 0 false (digits_before (suc fuel) n out) ≡ read_digits false n true out
unfolding digits_before
read_printed zero n out h = rw (lt→ltb n 10 (omega arith)) (read_last n out (omega arith))
read_printed (suc fuel) n out h =
    let earlier =
      read_printed fuel (n / 10) ((48 + n % 10) ∷ out) (omega (arith, pow-suc 10 (suc fuel))) in
    elim (Bool-cases (ltb n 10)) [
      | inl e ↦ rw e (read_last n out (ground arith))
      | inr e ↦ rw e (
          earlier
          ∙ (read_digit (n / 10) (n % 10) true out (omega arith)
              ∙ read_at (n / 10 * 10 + n % 10) n out (omega arith)))
    ]

-- A printed number begins with a digit.
abbrev IsNumeral : List ℕ → Type 0
IsNumeral [] = ⊥
IsNumeral (c ∷ cs) = (48 ≤ c) × (c ≤ 57)

digits-IsNumeral : (fuel n : ℕ) (out : List ℕ) → IsNumeral (digits_before (suc fuel) n out)
unfolding digits_before
digits-IsNumeral zero n out =
    if_cases IsNumeral (ltb n 10) (λ e. (omega arith, omega arith))
      (λ e. (omega arith, omega arith))
digits-IsNumeral (suc fuel) n out =
    if_cases IsNumeral (ltb n 10) (λ e. (omega arith, omega arith))
      (λ e. digits-IsNumeral fuel (n / 10) ((48 + n % 10) ∷ out))

is_space_digit : (c : ℕ) → 48 ≤ c → c ≤ 57 → is_space c ≡ false
unfolding is_space
is_space_digit c low high = ground arith

==_digit : (c sign : ℕ) → sign < 48 → 48 ≤ c → (c == sign) ≡ false
==_digit c sign h low = ground arith

-- Neither spaces nor a sign stand before it.
strtoull_numeral : (text : List ℕ) → IsNumeral text → strtoull text ≡ read_digits false 0 false text
unfolding strtoull read_sign skip_spaces
strtoull_numeral [] h = absurd h
strtoull_numeral (c ∷ cs) (low, high) =
    rw (is_space_digit c low high, ==_digit c 45 (omega arith) low, ==_digit c 43 (omega arith) low)
      refl

strtoull_printed : (n : ℕ) → n < 2 ^ 64 → strtoull (print_unsigned n) ≡ parsed_at false n true []
unfolding print_unsigned read_digits
strtoull_printed n h =
    strtoull_numeral (digits_before 20 n []) (digits-IsNumeral 19 n [])
    ∙ read_printed 19 n [] (omega arith)

parse_printed : (n fallback : ℕ) → n < 2 ^ 64 → parse_or (print_unsigned n) fallback ≡ n
unfolding parse_or parsed_at
parse_printed n fallback h = rw (strtoull_printed n h) (ground arith)

module _ (env : Environment) (name : String) where
  read_uint64_printed :
      (n fallback : ℕ)
      → n < 2 ^ 64
      → env name ≡ some (print_unsigned n)
      → read_uint64 env name fallback ≡ n
  unfolding read_uint64
  read_uint64_printed n fallback h e = rw (e, read_uint64) (parse_printed n fallback h)

  read_bounded_printed :
      (n fallback high : ℕ)
      → n ≤ high
      → high < 2 ^ 64
      → env name ≡ some (print_unsigned n)
      → read_uint64_bounded env name fallback 0 high ≡ n
  unfolding read_uint64_bounded
  read_bounded_printed n fallback high h k e =
      rw (read_uint64_printed n fallback (omega arith) e) (ground arith)

  read_duration_printed :
      (a fallback : ℤ)
      → IsInt64 a
      → env name ≡ some (print_unsigned (u64_of_i64 a))
      → read_duration env name fallback ≡ a
  unfolding read_duration
  read_duration_printed a fallback h e =
      rw (read_uint64_printed (u64_of_i64 a) (u64_of_i64 fallback) (omega arith) e)
        (i64_of_u64-u64_of_i64 a h)

version_printed :
    (env : Environment) (version fallback : ℕ)
    → version < 2 ^ 16
    → env "SAFETY_CORE_CONFIG_VERSION" ≡ some (print_unsigned version)
    → u16 (read_uint64_bounded env "SAFETY_CORE_CONFIG_VERSION" fallback 0 65535) ≡ version
version_printed env version fallback h e =
    ap u16 (
      read_bounded_printed env "SAFETY_CORE_CONFIG_VERSION" version fallback 65535 (omega arith)
        (omega arith) e)
    ∙ omega arith

tasks_printed :
    (env : Environment) (tasks fallback : ℕ)
    → tasks < 2 ^ 8
    → env "SAFETY_CORE_MAX_TASKS" ≡ some (print_unsigned tasks)
    → u8 (read_uint64_bounded env "SAFETY_CORE_MAX_TASKS" fallback 0 255) ≡ tasks
tasks_printed env tasks fallback h e =
    ap u8 (
      read_bounded_printed env "SAFETY_CORE_MAX_TASKS" tasks fallback 255 (omega arith)
        (omega arith) e)
    ∙ omega arith

module _ {W : Type 0} ⦃d : Double W⦄ where
  -- The variable holds a text that `strtod` reads as a finite number.
  abbrev pub IsReadAs : Environment → String → W → Type 0
  IsReadAs env name x =
      (text : List ℕ) × (env name ≡ some text) × (d.read text ≡ some x) × (d.is_finite x ≡ true)

  read_double_printed :
      (env : Environment) (name : String) (x fallback : W)
      → IsReadAs env name x
      → read_double env name fallback ≡ x
  unfolding read_double
  read_double_printed env name x fallback (text, set, parsed, finite) =
      rw (set, parsed, finite, read_double) refl

  -- The variables hold the whole numbers of a configuration in decimal, its durations as the unsigned
  -- words that they are cast to, and texts of its limits.
  abbrev pub IsPrinted : Environment → SystemConfig W → Type 0
  IsPrinted env c =
      (env "SAFETY_CORE_CONFIG_VERSION" ≡ some (print_unsigned c.config_version))
      × (env "SAFETY_CORE_MAX_TASKS" ≡ some (print_unsigned c.max_tasks))
      × (env "SAFETY_CORE_CONTROL_PERIOD_NS"
          ≡ some (print_unsigned (u64_of_i64 c.timing.control_period)))
      × (env "SAFETY_CORE_WATCHDOG_PERIOD_NS"
          ≡ some (print_unsigned (u64_of_i64 c.timing.watchdog_period)))
      × (env "SAFETY_CORE_LOCALIZATION_TIMEOUT_NS"
          ≡ some (print_unsigned (u64_of_i64 c.timing.localization_timeout)))
      × IsReadAs env "SAFETY_CORE_MAX_SPEED_MPS" c.envelope.max_speed_mps
      × IsReadAs env "SAFETY_CORE_MAX_ACCEL_MPS2" c.envelope.max_accel_mps2
      × IsReadAs env "SAFETY_CORE_MAX_DECEL_MPS2" c.envelope.max_comfort_decel_mps2
      × IsReadAs env "SAFETY_CORE_CONTROL_LATENCY_S" c.envelope.control_latency_s
      × IsReadAs env "SAFETY_CORE_SAFETY_BUFFER_M" c.envelope.safety_buffer_m

  -- A configuration within the ranges of its types, whose whole numbers and durations are printed in
  -- decimal into the variables, and whose limits are finite and in the variables as texts that `strtod`
  -- reads back, is loaded as it was over any other configuration.
  pub load_from_env_printed :
      (env : Environment) (c other : SystemConfig W)
      → IsInRange c
      → IsPrinted env c
      → load_from_env env other ≡ c
  unfolding load_from_env
  load_from_env_printed env c other r
        (version, tasks, control, watchdog, localization, speed, accel, decel, latency, buffer) =
      rw
        (
          version_printed env c.config_version other.config_version r.version version,
          tasks_printed env c.max_tasks other.max_tasks r.tasks tasks,
          read_duration_printed env "SAFETY_CORE_CONTROL_PERIOD_NS" c.timing.control_period
              other.timing.control_period r.control control,
          read_duration_printed env "SAFETY_CORE_WATCHDOG_PERIOD_NS" c.timing.watchdog_period
              other.timing.watchdog_period r.watchdog watchdog,
          read_duration_printed env "SAFETY_CORE_LOCALIZATION_TIMEOUT_NS"
              c.timing.localization_timeout other.timing.localization_timeout r.localization
              localization,
          read_double_printed env _ _ other.envelope.max_speed_mps speed,
          read_double_printed env _ _ other.envelope.max_accel_mps2 accel,
          read_double_printed env _ _ other.envelope.max_comfort_decel_mps2 decel,
          read_double_printed env _ _ other.envelope.control_latency_s latency,
          read_double_printed env _ _ other.envelope.safety_buffer_m buffer,
        )
        refl

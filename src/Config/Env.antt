-- ===== src/Config/Env.antt =====
-- src/config/env_loader.cpp. The environment is a function from names to texts; `strtoull` is the
-- standard's, and `strtod` the one of the interface to doubles.
pub mod Printed
pub mod Loaded
use safety_autonomy_core.Common.{
  ℕ, ◌+◌, ◌-◌, ◌*◌, ◌^◌, ◌≡◌, ◌<◌, Bool, true, false, not, ◌&&◌, ◌||◌, String, List, [], ◌∷◌,
  Option, none, some, arith, ltb, leb, ◌==◌, if◌then◌else◌,
}
use safety_autonomy_core.Common.Double.{Double}
use safety_autonomy_core.Common.Int.{ℤ}
use safety_autonomy_core.Common.Words.{
  u8, u16, sub64, u64_of_i64, i64_of_u64, IsInt64, i64_of_u64-u64_of_i64,
}
use safety_autonomy_core.Config.Types.{SystemConfig}

-- What `strtoull(text, &end, 10)` returns and sets.
pub record Parsed : Type 0 where
  pub value : ℕ
  pub consumed : Bool  -- `end != text`
  pub rest : List ℕ  -- the text at `end`
  pub range_error : Bool  -- `errno == ERANGE`

is_space : ℕ → Bool
is_space c = c == 32 || leb 9 c && leb c 13

skip_spaces : List ℕ → List ℕ
unfolding is_space
skip_spaces [] = []
skip_spaces (c ∷ cs) = let later = skip_spaces cs in if is_space c then later else c ∷ cs

is_digit : ℕ → Bool
is_digit c = leb b'0' c && leb c b'9'

-- The digits read so far give `n`; a value over 64 bits is cut, and a minus negates modulo 2^64.
parsed_at : Bool → ℕ → Bool → List ℕ → Parsed
parsed_at negative n seen rest = record {
  value = if leb (2 ^ 64) n then 2 ^ 64 - 1 else if negative then sub64 0 n else n;
  consumed = seen;
  rest = rest;
  range_error = leb (2 ^ 64) n;
}

read_digits : Bool → ℕ → Bool → List ℕ → Parsed
unfolding is_digit parsed_at
read_digits negative n seen [] = parsed_at negative n seen []
read_digits negative n seen (c ∷ cs) =
    let later = read_digits negative (n * 10 + (c - b'0')) true cs in
    if is_digit c then later else parsed_at negative n seen (c ∷ cs)

read_sign : List ℕ → Parsed
unfolding read_digits
read_sign [] = read_digits false 0 false []
read_sign (c ∷ cs) =
    if c == b'-'
    then read_digits true 0 false cs
    else if c == b'+'
    then read_digits false 0 false cs
    else read_digits false 0 false (c ∷ cs)

unfoldable pub strtoull : List ℕ → Parsed
unfolding skip_spaces read_sign
strtoull text = read_sign (skip_spaces text)

abbrev pub is_empty : List ℕ → Bool
is_empty [] = true
is_empty _ = false

abbrev pub Environment : Type 0
Environment = String → Option (List ℕ)

-- The part of `read_uint64` behind a set variable.
parse_or : List ℕ → ℕ → ℕ
parse_or value fallback =
    let parsed = strtoull value in
    if parsed.consumed && is_empty parsed.rest && not parsed.range_error
    then (if leb parsed.value (2 ^ 64 - 1) then parsed.value else fallback)
    else fallback

unfoldable pub read_uint64 : Environment → String → ℕ → ℕ
unfolding parse_or
read_uint64 env name fallback = elim (env name) [
  | none ↦ fallback
  | some value ↦ parse_or value fallback
]

unfoldable pub read_uint64_bounded : Environment → String → ℕ → ℕ → ℕ → ℕ
read_uint64_bounded env name fallback min_value max_value =
    let parsed = read_uint64 env name fallback in
    if ltb parsed min_value || ltb max_value parsed then fallback else parsed

-- The values that the types of a configuration can hold.
pub record IsInRange {W : Type 0} (c : SystemConfig W) : Type 0 where
  pub version : c.config_version < 2 ^ 16
  pub tasks : c.max_tasks < 2 ^ 8
  pub control : IsInt64 c.timing.control_period
  pub watchdog : IsInt64 c.timing.watchdog_period
  pub localization : IsInt64 c.timing.localization_timeout

-- A duration read from the environment, with the casts to and from `std::uint64_t`.
unfoldable pub read_duration : Environment → String → ℤ → ℤ
read_duration env name fallback = i64_of_u64 (read_uint64 env name (u64_of_i64 fallback))

read_uint64_unset :
    (env : Environment) (name : String) (n : ℕ) → env name ≡ none → read_uint64 env name n ≡ n
unfolding read_uint64
read_uint64_unset env name n h = ground arith

pub read_bounded_unset :
    (env : Environment) (name : String) (n lo hi : ℕ)
    → env name ≡ none
    → read_uint64_bounded env name n lo hi ≡ n
unfolding read_uint64_bounded
read_bounded_unset env name n lo hi h = ground (arith, read_uint64_unset env name n h)

pub read_duration_unset :
    (env : Environment) (name : String) (a : ℤ)
    → env name ≡ none
    → IsInt64 a
    → read_duration env name a ≡ a
unfolding read_duration
read_duration_unset env name a h range =
    rw (read_uint64_unset env name (u64_of_i64 a) h) (i64_of_u64-u64_of_i64 a range)

read_uint64-lt :
    (env : Environment) (name : String) (n : ℕ) → n < 2 ^ 64 → read_uint64 env name n < 2 ^ 64
unfolding read_uint64
read_uint64-lt env name n h = ground arith

i64_of_u64-IsInt64 : (n : ℕ) → n < 2 ^ 64 → IsInt64 (i64_of_u64 n)
i64_of_u64-IsInt64 n h = ground arith

read_duration-IsInt64 :
    (env : Environment) (name : String) (a : ℤ) → IsInt64 (read_duration env name a)
unfolding read_duration
read_duration-IsInt64 env name a =
    i64_of_u64-IsInt64 _ (read_uint64-lt env name (u64_of_i64 a) (omega arith))

module _ {W : Type 0} ⦃d : Double W⦄ where
  unfoldable pub read_double : Environment → String → W → W
  read_double env name fallback = elim (env name) [
    | none ↦ fallback
    | some value ↦ elim (d.read value) [
      | none ↦ fallback
      | some parsed ↦ if d.is_finite parsed then parsed else fallback
    ]
  ]

  unfoldable pub load_from_env : Environment → SystemConfig W → SystemConfig W
  load_from_env env cfg = record {
    config_version =
        u16 (read_uint64_bounded env "SAFETY_CORE_CONFIG_VERSION" cfg.config_version 0 65535);
    max_tasks = u8 (read_uint64_bounded env "SAFETY_CORE_MAX_TASKS" cfg.max_tasks 0 255);
    timing = record {
      control_period = read_duration env "SAFETY_CORE_CONTROL_PERIOD_NS" cfg.timing.control_period;
      watchdog_period =
          read_duration env "SAFETY_CORE_WATCHDOG_PERIOD_NS" cfg.timing.watchdog_period;
      localization_timeout =
          read_duration env "SAFETY_CORE_LOCALIZATION_TIMEOUT_NS" cfg.timing.localization_timeout;
    };
    envelope = record {
      max_speed_mps = read_double env "SAFETY_CORE_MAX_SPEED_MPS" cfg.envelope.max_speed_mps;
      max_accel_mps2 = read_double env "SAFETY_CORE_MAX_ACCEL_MPS2" cfg.envelope.max_accel_mps2;
      max_comfort_decel_mps2 =
          read_double env "SAFETY_CORE_MAX_DECEL_MPS2" cfg.envelope.max_comfort_decel_mps2;
      control_latency_s =
          read_double env "SAFETY_CORE_CONTROL_LATENCY_S" cfg.envelope.control_latency_s;
      safety_buffer_m = read_double env "SAFETY_CORE_SAFETY_BUFFER_M" cfg.envelope.safety_buffer_m;
    };
  }

  read_double_unset :
      (env : Environment) (name : String) (x : W) → env name ≡ none → read_double env name x ≡ x
  unfolding read_double
  read_double_unset env name x h = ground arith

  -- An environment without the variables leaves a configuration within the ranges of its types as it
  -- is.
  pub load_from_env_unset :
      (env : Environment) (cfg : SystemConfig W)
      → ((name : String) → env name ≡ none)
      → IsInRange cfg
      → load_from_env env cfg ≡ cfg
  unfolding load_from_env
  load_from_env_unset env cfg h range =
      let t = cfg.timing in
      let control =
        read_duration_unset env "SAFETY_CORE_CONTROL_PERIOD_NS" t.control_period (h _)
          range.control in
      let watchdog =
        read_duration_unset env "SAFETY_CORE_WATCHDOG_PERIOD_NS" t.watchdog_period (h _)
          range.watchdog in
      let localization =
        read_duration_unset env "SAFETY_CORE_LOCALIZATION_TIMEOUT_NS" t.localization_timeout (h _)
          range.localization in
      simp (read_bounded_unset, read_double_unset, h, control, watchdog, localization)
        (ground arith)

  -- Whatever the variables hold, what is loaded is within the ranges of its types, as its casts make it.
  pub load_from_env-IsInRange :
      (env : Environment) (cfg : SystemConfig W) → IsInRange cfg → IsInRange (load_from_env env cfg)
  unfolding load_from_env
  load_from_env-IsInRange env cfg range = record {
    version = omega arith;
    tasks = omega arith;
    control = read_duration-IsInt64 env _ _;
    watchdog = read_duration-IsInt64 env _ _;
    localization = read_duration-IsInt64 env _ _;
  }

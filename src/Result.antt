-- ===== src/Result.antt =====
-- include/safety_core/result.hpp: status codes and results.
use safety_autonomy_core.Common.{Bool, true, false, String}

pub data StatusCode : Type 0 where
  ok invalid_state deadline_miss fault : StatusCode

pub record Result : Type 0 where
  pub code : StatusCode
  pub message : String

abbrev pub is_ok_code : StatusCode → Bool
is_ok_code StatusCode.ok = true
is_ok_code _ = false

-- `Result::ok`
abbrev pub is_ok : Result → Bool
is_ok r = is_ok_code r.code

abbrev pub ok_result : Result
ok_result = record { code = StatusCode.ok; message = "" }

abbrev pub fault_result : String → Result
fault_result msg = record { code = StatusCode.fault; message = msg }

abbrev pub invalid_state_result : String → Result
invalid_state_result msg = record { code = StatusCode.invalid_state; message = msg }

abbrev pub deadline_miss_result : String → Result
deadline_miss_result msg = record { code = StatusCode.deadline_miss; message = msg }

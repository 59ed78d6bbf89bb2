-- ===== src/Diag/Transport.antt =====
-- include/safety_core/diag/logging_diagnostic_transport.hpp and
-- src/diag/logging_diagnostic_transport.cpp: the truncation counters. The text sink is left out.
use safety_autonomy_core.Common.{ℕ, ◌+◌, ◌≡◌, Bool, List, [], ◌∷◌, arith, if◌then◌else◌}
use safety_autonomy_core.Common.Words.{u64}
use safety_autonomy_core.Diag.Event.{DiagnosticEvent}

pub record LoggingTransport : Type 0 where
  pub topic_truncation_count : ℕ
  pub payload_truncation_count : ℕ

abbrev pub new_transport : LoggingTransport
new_transport = record { topic_truncation_count = 0; payload_truncation_count = 0 }

-- `LoggingDiagnosticTransport::reset_counters`
pub reset_counters : LoggingTransport → LoggingTransport
reset_counters _ = new_transport

-- `LoggingDiagnosticTransport::publish`
pub publish : DiagnosticEvent → LoggingTransport → LoggingTransport
publish e t = record {
  topic_truncation_count =
      if e.topic_truncated then u64 (t.topic_truncation_count + 1) else t.topic_truncation_count;
  payload_truncation_count =
      if e.payload_truncated
      then u64 (t.payload_truncation_count + 1)
      else t.payload_truncation_count;
}

pub publish_all : List DiagnosticEvent → LoggingTransport → LoggingTransport
publish_all [] t = t
publish_all (e ∷ es) t = publish_all es (publish e t)

abbrev pub count_if : (DiagnosticEvent → Bool) → List DiagnosticEvent → ℕ
count_if p [] = 0
count_if p (e ∷ es) = let rest = count_if p es in if p e then rest + 1 else rest

-- The counters of the transport are, modulo 2^64, what they were plus the number of published events
-- whose topic, or payload, was truncated.
pub publish_all_counts :
    (es : List DiagnosticEvent) (t : LoggingTransport)
    → (u64 (publish_all es t).topic_truncation_count
        ≡ u64 (t.topic_truncation_count + count_if (λ e. e.topic_truncated) es))
      × (u64 (publish_all es t).payload_truncation_count
          ≡ u64 (t.payload_truncation_count + count_if (λ e. e.payload_truncated) es))
unfolding publish_all publish
publish_all_counts [] t = omega arith
publish_all_counts (e ∷ es) t = ground (arith, publish_all_counts es (publish e t))

-- ===== src/Tests/Events.antt =====
-- Diagnostic events with a short and a long text.
use safety_autonomy_core.Common.{ℕ, ◌+◌, ◌≡◌, List, [], ◌∷◌, arith, replicate}
use safety_autonomy_core.Common.Words.{u64}
use safety_autonomy_core.Diag.Event.{DiagnosticEvent, blank_event, set_payload, IsText}
use safety_autonomy_core.Diag.Transport.{new_transport, publish_all, count_if, publish_all_counts}

abbrev short : List ℕ
short = 112 ∷ 105 ∷ 100 ∷ []

abbrev long : List ℕ
long = replicate 200 65

short-IsText : IsText short
short-IsText = ground arith

long-IsText : IsText long
long-IsText = ground arith

abbrev two_events : List DiagnosticEvent
two_events = blank_event ∷ set_payload long blank_event ∷ []

publish_all_counts_example :
    (u64 (publish_all two_events new_transport).topic_truncation_count
      ≡ u64 (new_transport.topic_truncation_count + count_if (λ e. e.topic_truncated) two_events))
    × (u64 (publish_all two_events new_transport).payload_truncation_count
        ≡ u64 (
            new_transport.payload_truncation_count
            + count_if (λ e. e.payload_truncated) two_events))
publish_all_counts_example = publish_all_counts two_events new_transport

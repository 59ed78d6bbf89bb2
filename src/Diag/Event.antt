-- ===== src/Diag/Event.antt =====
-- include/safety_core/diag/diagnostic_transport.hpp: an event with two fixed character arrays.
mod Buffer
pub use Buffer.{copy_prefix, until_nul, IsText}
use Buffer.{
  length-copy_prefix, until_nul-copy_prefix, until_nul-text, length-until_nul-le, length-take-le,
}
use safety_autonomy_core.Common.{
  ℕ, suc, ◌-◌, ◌≡◌, ◌≤◌, ◌↔◌, ◌∙◌, String, Bool, true, false, List, arith, ltb, leb, if◌then◌else◌,
  length, take, replicate, take-eq_self, sym, ap, Bool-cases, inl, inr,
}
use safety_autonomy_core.Common.Int.{ℤ}
use safety_autonomy_core.Common.Words.{u64_of_i64}
use safety_autonomy_core.Common.Printf.{codes}

abbrev pub topic_capacity : ℕ
topic_capacity = 64

abbrev pub payload_capacity : ℕ
payload_capacity = 192

pub record DiagnosticEvent : Type 0 where
  pub topic : List ℕ
  pub payload : List ℕ
  pub timestamp_ns : ℕ
  pub topic_truncated : Bool
  pub payload_truncated : Bool

pub blank_event : DiagnosticEvent
blank_event = record {
  topic = replicate topic_capacity 0;
  payload = replicate payload_capacity 0;
  timestamp_ns = 0;
  topic_truncated = false;
  payload_truncated = false;
}

-- The characters that `set_topic` and `set_payload` copy: one place is left for the terminator.
copy_len : ℕ → ℕ → ℕ
copy_len capacity size = if ltb size (capacity - 1) then size else capacity - 1

unfoldable pub set_topic : List ℕ → DiagnosticEvent → DiagnosticEvent
unfolding copy_len
set_topic value e = record e {
  topic = copy_prefix (copy_len topic_capacity (length value)) value (replicate topic_capacity 0);
  topic_truncated = leb topic_capacity (length value);
}

unfoldable pub set_payload : List ℕ → DiagnosticEvent → DiagnosticEvent
unfolding copy_len
set_payload value e = record e {
  payload =
      copy_prefix (copy_len payload_capacity (length value)) value (replicate payload_capacity 0);
  payload_truncated = leb payload_capacity (length value);
}

pub topic_view : DiagnosticEvent → List ℕ
topic_view e = until_nul e.topic

pub payload_view : DiagnosticEvent → List ℕ
payload_view e = until_nul e.payload

-- The event that the `publish_event` helpers of the components build.
pub make_event : String → List ℕ → ℤ → DiagnosticEvent
make_event topic payload stamp =
    record (set_payload payload (set_topic (codes topic) blank_event)) {
      timestamp_ns = u64_of_i64 stamp;
    }

take-copy_len :
    (k : ℕ) (value : List ℕ) → take (copy_len (suc k) (length value)) value ≡ take k value
unfolding copy_len
take-copy_len k value = elim (Bool-cases (ltb (length value) (suc k - 1))) [
  | inl short ↦
      rw short (take-eq_self _ value (omega arith) ∙ sym (take-eq_self k value (ground arith)))
  | inr long ↦ rw long (ap (λ n. take n value) (omega arith))
]

copy_len-le : (k size : ℕ) → copy_len (suc k) size ≤ suc k
unfolding copy_len
copy_len-le k size = ground arith

-- What a reader of a buffer of `suc k` characters sees after the copy.
until_nul-copy :
    (k : ℕ) (value : List ℕ)
    → until_nul (copy_prefix (copy_len (suc k) (length value)) value (replicate (suc k) 0))
      ≡ until_nul (take k value)
until_nul-copy k value =
    until_nul-copy_prefix _ (suc k) value (copy_len-le k (length value))
    ∙ ap until_nul (take-copy_len k value)

-- A text without NUL survives the cut after `k` characters exactly when it is no longer.
text-fits_iff :
    (k : ℕ) (value : List ℕ)
    → IsText value
    → (leb (suc k) (length value) ≡ false) ↔ (until_nul (take k value) ≡ value)
text-fits_iff k value t = (fits, λ e. ground (arith, short (ap length e)))
  where
    fits : leb (suc k) (length value) ≡ false → until_nul (take k value) ≡ value
    fits h = rw (take-eq_self k value (ground arith)) (until_nul-text value t)

    short : length (until_nul (take k value)) ≡ length value → length value ≤ k
    short e = omega (arith, length-until_nul-le (take k value), length-take-le k value)

-- After `set_topic` and `set_payload` each buffer has its size, and a reader sees the text up to its
-- first NUL within the first 63, or 191, characters.
pub event_views :
    (topic payload : List ℕ) (e : DiagnosticEvent)
    → let done = set_payload payload (set_topic topic e) in
      (length done.topic ≡ topic_capacity)
      × (length done.payload ≡ payload_capacity)
      × (topic_view done ≡ until_nul (take 63 topic))
      × (payload_view done ≡ until_nul (take 191 payload))
unfolding set_topic set_payload topic_view payload_view
event_views topic payload e = (
  length-copy_prefix _ topic (replicate topic_capacity 0),
  length-copy_prefix _ payload (replicate payload_capacity 0),
  until_nul-copy 63 topic,
  until_nul-copy 191 payload,
)

-- For a topic and a payload without NUL, each truncation flag is clear exactly when a reader of the
-- event sees the whole text.
pub truncated_iff :
    (topic payload : List ℕ) (e : DiagnosticEvent)
    → IsText topic
    → IsText payload
    → let done = set_payload payload (set_topic topic e) in
      ((done.topic_truncated ≡ false) ↔ (topic_view done ≡ topic))
      × ((done.payload_truncated ≡ false) ↔ (payload_view done ≡ payload))
unfolding set_topic set_payload topic_view payload_view
truncated_iff topic payload e t p = (
  rw (until_nul-copy 63 topic) (text-fits_iff 63 topic t),
  rw (until_nul-copy 191 payload) (text-fits_iff 191 payload p),
)

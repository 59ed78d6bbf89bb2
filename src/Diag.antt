-- ===== src/Diag.antt =====
-- include/safety_core/diag: the diagnostic event with its fixed buffers, the topics, the logging
-- transport's counters and the health beacon.
pub mod Event
pub mod Topics
pub mod Transport
pub mod Beacon

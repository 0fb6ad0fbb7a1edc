-- ===== src/Store.antt =====
-- internal/store: what survives a restart. An SQL statement of the source is translated to a
-- function on the list of rows of its table; whether the engine carries it out is an argument,
-- since the code answers for both cases.
pub mod Queue
pub mod Idempotency
pub mod Gateway
pub mod Mt

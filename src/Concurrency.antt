-- ===== src/Concurrency.antt =====
-- What several threads share.
pub mod WriterLane
pub mod InFlight
mod Tests

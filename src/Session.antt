-- ===== src/Session.antt =====
-- What the service keeps of a session: its execution state, and its
-- segments and its start (mneme_service/state.py, segments.py, session_drift.py).
pub mod State
pub mod Segments
pub mod History
pub mod Start
mod Tests

-- ===== src/Access.antt =====
-- Who may do what: mneme_service/security.py and the access helpers in mneme_service/app.py.
pub mod Principal
pub mod Bearer
pub mod Idempotency
pub mod Ranges
mod Tests

-- ===== src/Budget.antt =====
-- The token budget of `/v1/context/prepare`: mneme_service/utils.py and the packing helpers of
-- mneme_service/app.py.
pub mod Estimate
pub mod Tail
pub mod Retrieved
pub mod Recent
mod Tests

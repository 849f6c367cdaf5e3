-- ===== src/Crm/Accepted.antt =====
-- From an accepted pre-flight to the frame of a run: shared/crm_preflight.py decides on a summary of
-- the readings, and shared/crm_timeseries.py pivots the readings themselves.
pub mod Distinct
pub mod Rows
pub mod Frame

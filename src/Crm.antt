-- ===== src/Crm.antt =====
-- The metering data of the CRM: shared/crm_meter_repository.py, crm_preflight.py and
-- crm_timeseries.py.
pub mod Repository
pub mod Preflight
pub mod Timeseries
pub mod Accepted

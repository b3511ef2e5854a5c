-- ===== src/Forwarders.antt =====
-- The Lambda functions that turn database changes into events on the event bus:
-- lambdas/dms_cdc_forwarder and lambdas/change_data_capture_forwarder (under src/python/beeflow).
pub mod Rows
pub mod Dms
pub mod Cdc

-- ===== src/Events.antt =====
-- packages/events (under src/python/beeflow): the events, and the converter of database rows.
pub mod Json
pub mod Types
pub mod Models
pub mod Pydantic
pub mod Converter

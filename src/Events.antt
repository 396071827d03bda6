-- ===== src/Events.antt =====
-- app/analytics/eventhandlers and lib/coreevents: from a delivery of the broker to the service.
pub mod Items
pub mod Payloads
pub mod Handlers
pub mod Effects
pub mod Consumer
pub mod Deduper
pub mod Stream

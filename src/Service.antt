-- ===== src/Service.antt =====
-- app/analytics/service/analytics.service.go
pub mod Dates
pub mod Writes
pub mod WriteEffects
pub mod Access
pub mod Queries
pub mod Stored

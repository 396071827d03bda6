-- ===== src/Controller.antt =====
-- The HTTP layer of app/analytics.
pub mod Responses
pub mod Endpoints
pub mod Routes

-- ===== src/Clients.antt =====
-- The outgoing HTTP calls: pkg/httpclient, and lib/coreclient on top of it.
pub mod Http
pub mod Core

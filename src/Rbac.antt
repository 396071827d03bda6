-- ===== src/Rbac.antt =====
-- lib/appcontext, lib/rbac and lib/auth: who is asking, and what they may do.
pub mod Claims
pub mod Cache
pub mod Guards
pub mod Changes

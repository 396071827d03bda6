-- ===== src/Boot.antt =====
-- lib/boot with the parts that it puts together and that are no component of their own: lib/config,
-- lib/logger and lib/middleware.
pub mod Env
pub mod Consumers
pub mod Providers
pub mod Correlation
pub mod Router
pub mod Startup

-- ===== src/Sentry.antt =====
-- src/sentry: the identity of a launch.
pub mod Identity

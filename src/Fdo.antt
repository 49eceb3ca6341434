-- ===== src/Fdo.antt =====
-- The package internal/fdo: the freedesktop notification service on the session bus.
pub mod Order

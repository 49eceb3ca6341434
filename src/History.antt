-- ===== src/History.antt =====
-- The package internal/history: the retained entries of closed notifications.
pub mod Image
pub mod Store

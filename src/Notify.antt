-- ===== src/Notify.antt =====
-- The package internal/notify: what a Notify call carries once it is normalized, and the choice of
-- its id.
pub mod Model
pub mod RawImage
pub mod Normalize
pub mod Fresh

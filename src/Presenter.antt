-- ===== src/Presenter.antt =====
-- The package internal/presenter: the connections of presenters and their server.
pub mod Connection
pub mod Server

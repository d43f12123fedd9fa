-- ===== src/Handlers.antt =====
-- local-storage/src/handlers: the HTTP handlers in front of the storage layer.
pub mod Range
pub mod Download
pub mod Upload
pub mod Filename
pub mod Manage

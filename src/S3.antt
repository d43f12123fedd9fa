-- ===== src/S3.antt =====
-- local-storage/src/s3: the S3-compatible API.
pub mod Errors
pub mod Auth
pub mod Actions
pub mod Xml
pub mod Handlers
pub mod Router

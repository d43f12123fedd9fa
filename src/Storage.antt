-- ===== src/Storage.antt =====
-- local-storage/src/storage.rs: `StorageManager`, a module for each group of its operations.
pub mod Paths
pub mod Disk
pub mod Encode
pub mod Remove
pub mod Store
pub mod Fetch
pub mod Buckets
pub mod Manage

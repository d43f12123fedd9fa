-- ===== src/Tests.antt =====
-- Concrete inputs at which the theorems apply.
mod Json
mod Samples
mod Witnesses
mod StoreWitnesses
mod ReadWitnesses
mod AuthWitnesses
mod UploadWitnesses
mod BucketWitnesses
mod S3Witnesses
mod MachineWitnesses
mod ManageWitnesses
mod PutWitnesses
mod ConcurrentWitnesses
mod AppWitnesses
mod StartWitnesses
mod ServeWitnesses

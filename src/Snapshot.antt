-- ===== src/Snapshot.antt =====
-- src/snapshot/: the snapshot format.
pub mod Epoch
pub mod Digest
pub mod Failure
pub mod Body
pub mod Manifest
pub mod Verify
pub mod Import
pub mod Export
pub mod Published
pub mod Peer

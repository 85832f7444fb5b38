-- ===== src/Device/Transfer.antt =====
-- The transfer of a device: what `writeNE2AddDevice` writes is read back by `newFromNE2AddCommand`.
pub mod Spec
pub mod Steps
pub mod Read
pub mod Sent
pub mod Skip

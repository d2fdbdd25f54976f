-- ===== src/R82xx/Write.antt =====
-- A write to the tuner, against a device that takes what it is sent and one that may not.
pub mod Shadow
pub mod Retry
pub mod Reliable
pub mod Device

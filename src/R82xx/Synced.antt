-- ===== src/R82xx/Synced.antt =====
-- On a device that acknowledges what it is sent, each operation of the driver keeps the shadow equal
-- to the device's registers.
mod Rules
pub mod Operations
pub mod History

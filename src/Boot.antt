-- ===== src/Boot.antt =====
-- The measured-boot readers of src/boot.
pub mod EfiVariable
pub mod EventLog
pub mod SecureBoot

-- ===== src/Platform.antt =====
-- What runs on the CPU before an operating system does: the programs of platform.
pub mod Payload

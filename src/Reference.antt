-- ===== src/Reference.antt =====
-- The reference side of the lockstep harness, tools/whisper_lockstep/WhisperRef.hpp and
-- WhisperRef.cpp.
pub mod Result
pub mod Commit
pub mod Hart
pub mod Decode
pub mod Config
pub mod Interrupts
pub mod Trap
pub mod Mmio
pub mod Step

-- ===== src/Cleanup.antt =====
-- cleanup.go and headless.go: the deletion queue.
pub mod Dispose
pub mod Cadence
pub mod Actions
pub mod Headless
pub mod Indices
pub mod Prompt

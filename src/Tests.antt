-- ===== src/Tests.antt =====
-- Concrete inputs, and the theorems at them.
mod Data
mod Queues
mod Errors
mod Pieces
mod Requests
mod Cleanups
mod Handling
mod Utilities
mod Files
mod Processing
mod Recordings
mod Sources

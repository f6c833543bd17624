-- ===== src/Tests.antt =====
-- Concrete runs of the models, and the theorems at concrete inputs.
mod Fixtures
mod Wire
mod Drain
mod Stores
mod Session
mod Messages
mod CommandLine
mod Polling
mod Serving
mod Globs
mod Whole
mod Served

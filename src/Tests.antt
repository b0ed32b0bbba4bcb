-- ===== src/Tests.antt =====
-- The theorems at concrete inputs, and runs of the model.
mod Fixtures
mod Codec
mod Sessions
mod Settings
mod Benchmark
mod Processes
mod Commands
mod Connections
mod Courses

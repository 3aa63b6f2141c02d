-- ===== src/Examples.antt =====
-- The development at concrete inputs: tests, and the theorems applied.
mod Toy
mod Labels
mod Rounds
mod Tools
mod Guards
mod Files
mod Publishers
mod Groups
mod Fixtures
mod Macros
mod Directories
mod Threads

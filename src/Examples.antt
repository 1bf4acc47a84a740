-- ===== src/Examples.antt =====
-- Tests of the definitions on small inputs, and runs of the theorems on them.
pub mod Data
mod Queue
mod Worker
mod Reached
mod Reports
mod Checkpoints
mod Pipelines
mod Limiters
mod Gates
mod Daemons
mod Users
mod Chunks
mod Segments
mod Scripts
mod Calibrations
mod Speeches
mod Routes
mod Stretches

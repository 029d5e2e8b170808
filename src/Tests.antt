-- ===== src/Tests.antt =====
-- Runs of the models on concrete data, at which the theorems of the other modules are applied.
mod Jobs
mod Pools
mod Scripts
mod Commands
mod Validation
mod Names
mod Files
mod Formats

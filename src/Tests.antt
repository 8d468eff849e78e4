-- ===== src/Tests.antt =====
-- Runs of the model at fixed inputs, and the instances of the theorems.
mod Data
mod Queries
mod Conditions
mod Parsing
mod Crypto
mod Worker
mod Filters
mod Lazy
mod Models
mod Tasks
mod Settings
mod Services
mod Saving

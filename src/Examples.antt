-- ===== src/Examples.antt =====
-- Runs of the definitions at concrete inputs, and the theorems at concrete inputs.
mod Routes
mod Dispatches
mod Graphs
mod Gates
mod Schedules
mod Registries
mod Engines
mod Documents
mod Startups
mod Settings

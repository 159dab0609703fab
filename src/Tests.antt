-- ===== src/Tests.antt =====
-- The theorems at concrete inputs, and runs of the handlers.
mod Data
mod Bar0
mod Failures
mod Windows
mod Peers
mod Routes
mod Runs
mod Ends
mod Races

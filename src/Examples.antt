-- ===== src/Examples.antt =====
-- Runs at concrete inputs, and the theorems at them.
mod Machines
mod Graph
mod Scheduling
mod Retries
mod Envelopes
mod Access
mod Reviews
mod Policies
mod Modes
mod Pauses
mod Terminals

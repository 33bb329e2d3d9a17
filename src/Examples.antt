-- ===== src/Examples.antt =====
-- Runs of the models on small inputs, and each theorem of the results at a concrete input.
mod Vectors
mod Stores
mod Conflicts
mod Plans
mod Writes
mod Parts
mod Scans
mod Syncs
mod Settings
mod Logs
mod Twins
mod Transfers

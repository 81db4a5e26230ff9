-- ===== src/Examples.antt =====
-- Runs at concrete inputs, and the theorems at inputs that meet their hypotheses.
mod Arena
mod Backup
mod Clearing
mod Objects
mod Requests
mod Responses
mod Restores
mod Results
mod Storage
mod Terms

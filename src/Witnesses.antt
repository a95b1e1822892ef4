-- ===== src/Witnesses.antt =====
-- The theorems at concrete servers: test data, and one instance of each.
pub mod Data
mod Queue
mod Order
mod Rounds
mod Clients
mod Starts
mod Turns
mod Outputs

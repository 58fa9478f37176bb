-- ===== src/Examples.antt =====
-- Concrete values of what the model takes as parameters, and the theorems applied to them.
mod Platforms
mod Values
mod Commands
mod Stores
mod Clients
mod Machines
mod Hashes
mod Sends
mod Sessions
mod Gateways
mod Whole

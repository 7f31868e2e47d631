-- ===== src/Tests.antt =====
-- Runs of the operations on small inputs, and each theorem at one of them.
mod Blocks
mod Memory
mod Shared
mod Local
mod Pointers
mod Threads
mod Items
mod Sequential
mod Chains
mod Places
mod Composed

-- ===== src/Tests.antt =====
-- The theorems at concrete inputs.
mod Shapes
mod Rows
mod Counts
mod Drops
mod Products
mod Leaves
mod Chains
mod Stored
mod Saved
mod Registering
mod Client

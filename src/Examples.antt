-- ===== src/Examples.antt =====
-- Concrete inputs, the theorems at them, and runs of the definitions.
mod Inputs
mod Planning
mod Running
mod Upkeep
mod Nodes
mod Local

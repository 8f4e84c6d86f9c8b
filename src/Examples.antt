-- ===== src/Examples.antt =====
-- Concrete inputs: the theorems of the other modules, applied where their conditions hold.
mod Data
mod Tasks
mod Approvals
mod Graphs
mod Gating
mod Breakers
mod Limits
mod Deliveries
mod Sweeping
mod Fanning
mod Queueing
mod Registering
mod Working
mod Resuming
mod Chaining
mod Guarding
mod Prompting

-- ===== src/Tests.antt =====
-- Runs of the model at concrete inputs, and its theorems applied to them.
pub mod Data
mod Outputs
mod Messages
mod Finishing
mod Edges
mod Loop
mod Checkout
mod Opened
mod Conversations
mod Drawings
mod Members

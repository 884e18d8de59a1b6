-- ===== src/Tests.antt =====
-- Concrete runs of the models, and each result at one of them.
pub mod Data
pub mod Receiver
pub mod Content
pub mod TagMemory
pub mod Store
pub mod Cards
pub mod Pixels
pub mod Chips
pub mod TagStates
pub mod Screen
pub mod Radio
pub mod Machine

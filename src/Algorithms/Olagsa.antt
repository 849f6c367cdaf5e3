-- ===== src/Algorithms/Olagsa.antt =====
-- algorithms/algorithms_implemented/olagsa: the genetic search for allocation keys.
pub mod Outside
pub mod Draw
pub mod Space
pub mod Solution
pub mod WarmStart
pub mod Species
pub mod Genes
pub mod Selection
pub mod Placement
pub mod Generations
pub mod Algorithm

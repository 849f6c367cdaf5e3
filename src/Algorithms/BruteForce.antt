-- ===== src/Algorithms/BruteForce.antt =====
-- algorithms/algorithms_implemented/brute_force: the enumeration of allocation keys.
pub mod Iteration
pub mod Functions
pub mod Generator
pub mod Algorithm
pub mod Reference
pub mod Sort
pub mod Shape
pub mod Result
pub mod Nonneg

-- ===== src/Algorithms.antt =====
-- algorithms/: the allocation-key algorithms that a worker runs.
pub mod BruteForce
pub mod Olagsa
pub mod Registry

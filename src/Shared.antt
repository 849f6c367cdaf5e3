-- ===== src/Shared.antt =====
-- What the API and the worker share: shared/ and algorithms/base.py.
pub mod Const
pub mod Results
pub mod ProblemSize
pub mod DataLoading

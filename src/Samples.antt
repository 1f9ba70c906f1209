-- ===== src/Samples.antt =====
-- Concrete inputs: the theorems at them, and tests.
pub mod Circuits
pub mod BmcRuns
mod Literals
mod Loading
mod Obligations
pub mod Frames
mod Primes
pub mod Solver
mod Initial
mod Search
mod Files
pub mod Checks
mod Arguments

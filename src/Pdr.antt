-- ===== src/Pdr.antt =====
-- PDR.hpp and PDR.cpp: property directed reachability.
pub mod Orders
pub mod Primes
pub mod Init
pub mod Translation
pub mod Frames
pub mod Propagate
pub mod Opening
pub mod Lift

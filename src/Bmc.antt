-- ===== src/Bmc.antt =====
-- BMC.hpp and BMC.cpp: unfolding of the circuit and the search for a bad state, frame by frame.
pub mod AndGate
pub mod Unfold
pub mod Run
pub mod Complete
pub mod AnyRun
pub mod Check
pub mod Solve

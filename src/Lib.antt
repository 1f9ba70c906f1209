-- ===== src/Lib.antt =====
-- Verification library of the model checker.
--
-- The program reads an AIGER circuit (aig.cpp, aig.hpp), turns it into literals in DIMACS form
-- (Aiger::translate_to_dimacs), and searches for a bad state with bounded model checking (BMC.cpp,
-- BMC.hpp) and with property directed reachability (PDR.cpp, PDR.hpp), in threads that main.cpp
-- starts. Both checkers talk to a SAT solver behind the interface of sat_solver.hpp.
--
-- Files:
--   Common             the names that the other files share: tests, lists under native indices,
--                      integers
--   Circuit            the gates (class And), the meaning of a literal, topological order, the
--                      evaluation of the gates
--   Circuit/Run        the specification: frames, initial states and steps of a circuit, and what
--                      the checkers rely on (IsWellFormed)
--   Aiger              the classes of aig.hpp as records
--   Aiger/Translate    Aiger::translate_to_dimacs, one function for each of its loops; Format says what
--                      the AIGER format promises of its input
--   Aiger/Read         read_literal, decode, encode and load_aiger_from_file; Print has the text and
--                      the binary form of the AIGER format, Legal what is asked of a file
--   Literal            aiger_to_dimacs and dimacs_to_aiger of basic.hpp
--   Bmc/AndGate        BMC::Aig_And: `value` is the macro of BMC.cpp, `trivial` the first four
--                      tests, `strash` the tests on the children of one side, `aig_and` the whole
--   Bmc/Unfold         BMC::unfold and the unfolder's part of BMC::initialize: `Unfolding` is the
--                      class UnfoldAiger with the vector `values` of the class BMC
--   Bmc/Run            from assignments of the unfolded variables to runs of the circuit
--   Bmc/Complete       from runs of the circuit to assignments of the unfolded variables
--   Bmc/Solve          BMC::solve_one_frame: the clauses of a frame, chosen by the cone of
--                      influence, and the branch on the answer; the solver is a parameter, its state
--                      the clauses added
--   Bmc/Check          the loop of BMC::check: Frames, Rounds, Traces and Safe are about a search
--                      that goes through, Cone, ConeLoop, Built, Added, Settled and
--                      Found about one that finds a bad frame
--   Bmc/AnyRun         a run of any length, which the bounds of the unfolding are read off from
--   Pdr/Primes         prime_var and prime_lit of class PDR, with the variables and the two maps
--   Pdr/Init           encode_init_condition, encode_bad_state and check_BMC0 of class PDR
--   Pdr/Translation    PDR::translate_to_dimacs and the clauses of PDR::encode_translation
--   Pdr/Frames         the rest of encode_translation with its simplifier, and new_frame, add_cube,
--                      is_init and is_inductive of class PDR; `deepen` is the end of a round of
--                      check. Invariant says when the solvers are right, Chain when the cubes are
--   Pdr/Propagate      PDR::propagate up to the empty frame, the query of get_pre_of_bad, and the
--                      round of PDR::check that has no state before a bad one
--   Pdr/Opening        check_BMC1, and what PDR::check does before its loop
--   Pdr/Lift           encode_lift of class PDR; split_ands is fixed to 0
--   Sat                clauses, and the answer of a solver; Laws is what is relied on of it
--   Sat/Cone           the clauses of the gates that a set of variables needs
--   Sat/Cadical        the classes CaDiCaL and minisatSimp of sat_solver.hpp
--   Pdr/Orders         Lit_CMP, Cube_CMP and the order of class Obligation of PDR.hpp
--   CommandLine        the options, threads and result line of main.cpp, with validateInput of basic.hpp
--   Samples            a small circuit, tests and the theorems at concrete inputs
--
-- State: the functions of BMC take the unfolder's state and return the next one; a vector is a list
-- that grows at its end, and a read out of range gives a default. Those of PDR take the record Pdr,
-- and give `none` where the source fails an assert or reads out of range.
-- tempvalue, which has 999999 places in the source, holds the next values of any number of latches.
-- hash_table, which the source resizes to 99999999 buckets, is a function from variables to buckets.
-- Where the program computes with the numbers of a file, in the reader and in dimacs_to_aiger, an int
-- has 32 bits and wraps around, as the compiled code does where C++ leaves the result open. In the
-- checkers an int is an integer without bound: the source has no check of overflow, and the number of
-- variables is below 2 ^ 31 as long as the circuit and its frames fit in memory. The output of a gate
-- is a natural number, since the source asserts that it is positive.
--
-- A good step is a step between frames in which the constraints hold, from one that is not bad. A
-- start is an initial frame in which the constraints hold.
--
-- The solver of BMC is a function of its clauses and its assumption. RESULT is read at the start of a
-- frame, and what other threads wrote there is a parameter.
--
-- A solver of PDR is a function of the number of the call, the clauses and the assumptions, so that its
-- answers may depend on its past. A clause is added in one step. The simplifier of MiniSat is a
-- function of the clauses and the frozen variables. The scores of literals only order the
-- assumptions of is_inductive, and that order is a parameter; share_memory and restart are fixed to
-- 0. The clauses of encode_translation are prepared before the frames, and not at the first frame.
-- is_inductive calls clear_act and set_clear_act of the class SATSolver, which are not virtual and
-- do nothing.
--
-- A failed assert of translate_to_dimacs gives `none`. Its warnings are printing. The reader works on
-- the bytes of the file with the 0 behind them, and gives `none` where it fails an assert or reads
-- further; the file itself, which it opens and reads at once, is its argument, and its size is read as
-- an int. Its loop over the symbols has as many rounds as bytes are left, and takes a byte at least in
-- each.
--
-- Fuel: BMC::Aig_And calls itself on the children of a gate. `aig_and` takes fuel; `simplify`
-- gives one more than the larger variable, which is enough as each call goes down to smaller
-- variables.
--
-- Not modelled: the solvers (copies of other projects), printing, statistics, the time and the
-- creation of threads, which are input and output; the witness that BMC::check prints, and
-- of PDR the lifting of states, the blocking of obligations with its generalization, and the
-- certificate, so that what the search does between two rounds has no theorem.
pub mod Aiger
pub mod Bmc
pub mod Circuit
pub mod CommandLine
mod Common
pub mod Literal
pub mod Pdr
mod Samples
pub mod Sat

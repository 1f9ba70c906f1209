-- ===== src/Aiger.antt =====
-- Class Aiger and its parts (aig.hpp): the circuit as it is read, and in DIMACS form.
pub mod Translate
pub mod Read
use modelchecker.Common.{ℕ, ◌+◌, Bool, List, ℤ}
use modelchecker.Circuit.{And}

-- A latch as it is read: its literal, its next state and its reset value (0, 1, or `l` for none).
pub record AigerLatch : Type 0 where
  pub l : ℕ
  pub next : ℕ
  pub default_val : ℕ

-- An AND gate as it is read.
pub record AigerAnd : Type 0 where
  pub o : ℕ
  pub i1 : ℕ
  pub i2 : ℕ

-- The name of a variable is only printed: its type and number, or a text, with a prime or not.
pub data Name : Type 0 where
  null_name false_name : Name
  indexed : ℕ → ℕ → Bool → Name
  primed : Name → Name

pub record Variable : Type 0 where
  pub dimacs_var : ℕ
  pub name : Name

-- The fields of Aiger that the checkers read. The maps between primed and unprimed variables are
-- PDR's, and stand in its state.
pub record Aiger : Type 0 where
  pub num_inputs : ℕ
  pub num_latches : ℕ
  pub num_ands : ℕ
  pub num_outputs : ℕ
  pub num_bads : ℕ
  pub num_constraints : ℕ
  pub num_property : ℕ
  pub aiger_inputs : List ℕ
  pub aiger_outputs : List ℕ
  pub aiger_bads : List ℕ
  pub aiger_constraints : List ℕ
  pub aiger_latches : List AigerLatch
  pub aiger_ands : List AigerAnd
  pub variables : List Variable
  pub ands : List And
  pub nexts : List ℤ
  pub init_state : List ℤ
  pub constraints : List ℤ
  pub allbad : List ℤ
  pub bad : ℤ
  pub property_index : ℕ
  pub find_bug_only : Bool
  pub primed_first_dimacs : ℕ

-- The variable of the first latch, and of the first AND gate.
abbrev pub first_latch : Aiger → ℕ
first_latch c = c.num_inputs + 2

abbrev pub first_ands_index : Aiger → ℕ
first_ands_index c = c.num_inputs + c.num_latches + 2

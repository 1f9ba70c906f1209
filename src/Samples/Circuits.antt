-- ===== src/Samples/Circuits.antt =====
-- A circuit with two inputs (variables 2 and 3), one latch (4) and two gates (5 and 6).
use modelchecker.Common.{ℕ, zero, suc, ◌==◌, ◌||◌, false, [], ◌∷◌, pos, negsuc, replicate, arith}
use modelchecker.Circuit.{Assignment}
use modelchecker.Circuit.Run.{IsWellFormed}
use modelchecker.Aiger.{Aiger, null_name}

-- latch' = ¬ (in0 ∧ ¬ in1), bad = latch ∧ (in0 ∧ ¬ in1)
abbrev pub sample : Aiger
sample = record {
  num_inputs = 2;
  num_latches = 1;
  num_ands = 2;
  num_outputs = 0;
  num_bads = 1;
  num_constraints = 0;
  num_property = 1;
  aiger_inputs = 2 ∷ 4 ∷ [];
  aiger_outputs = [];
  aiger_bads = 10 ∷ [];
  aiger_constraints = [];
  aiger_latches = record { l = 6; next = 9; default_val = 0 } ∷ [];
  aiger_ands = record { o = 8; i1 = 5; i2 = 2 } ∷ record { o = 10; i1 = 8; i2 = 6 } ∷ [];
  variables = replicate 7 (record { dimacs_var = 0; name = null_name });
  ands =
      record { o = 5; i1 = negsuc 2; i2 = pos 2 } ∷ record { o = 6; i1 = pos 5; i2 = pos 4 } ∷ [];
  nexts = negsuc 4 ∷ [];
  init_state = negsuc 3 ∷ [];
  constraints = [];
  allbad = pos 6 ∷ [];
  bad = pos 6;
  property_index = 0;
  find_bug_only = false;
  primed_first_dimacs = 7;
}

pub sample-IsWellFormed : IsWellFormed sample
sample-IsWellFormed = omega arith

-- A run of two frames whose second frame reaches the bad literal: only input 0 is set there.
abbrev pub bad_run : ℕ → Assignment
bad_run zero v = false
bad_run (suc k) v = v == 2 || v == 4 || v == 5 || v == 6

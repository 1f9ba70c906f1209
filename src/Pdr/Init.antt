-- ===== src/Pdr/Init.antt =====
-- PDR::encode_init_condition, PDR::encode_bad_state and PDR::check_BMC0 of PDR.cpp: the initial
-- states and those of them that are bad.
pub mod Exact
pub mod Counterexample
use modelchecker.Common.{
  ℕ, zero, suc, ◌+◌, Bool, true, false, not, Option, none, some, List, [], ◌∷◌, ◌++◌, ◌==◌, ℤ, pos,
  negsuc, neg, abs, if◌then◌else◌,
}
use modelchecker.Aiger.{Aiger, first_latch}
use modelchecker.Sat.{Clause, Answer, sat, unsat, terminated}
use modelchecker.Sat.Laws.{units}
use modelchecker.Sat.Cone.{cone_clauses, var_set}

-- The clauses of encode_init_condition: variable 1 is false, the latches have their reset values, and
-- the constraints hold.
unfoldable pub init_clauses : Aiger → List Clause
init_clauses c =
    (negsuc 0 ∷ [])
    ∷ (units c.init_state ++ (units c.constraints ++ cone_clauses c.ands (var_set c.constraints)))

unfoldable pub bad_clauses : Aiger → List Clause
bad_clauses c = cone_clauses c.ands (λ v. abs c.bad == v)

-- A state of the search: the literals of inputs and latches that are known.
pub record State : Type 0 where
  pub latches : List ℤ
  pub inputs : List ℤ

-- val(v) as a literal, which is pushed unless it is 0.
unfoldable pub push_val : (ℕ → Option Bool) → ℕ → List ℤ → List ℤ
push_val val v ls = elim (val v) [ none ↦ ls | some b ↦ (if b then pos v else neg (pos v)) ∷ ls ]

-- The values of `n` variables from `v` on.
unfoldable pub read_vals : (ℕ → Option Bool) → ℕ → ℕ → List ℤ
read_vals val zero v = []
read_vals val (suc n) v = push_val val v (read_vals val n (suc v))

unfoldable pub state_of : Aiger → (ℕ → Option Bool) → State
state_of c val = record {
  latches = read_vals val c.num_latches (first_latch c);
  inputs = read_vals val c.num_inputs 2;
}

-- What check_BMC0 returns: no counterexample, or one of a single state.
pub data Found : Type 0 where
  found : State → Found
  none_found : Found

-- The solver's call on the initial states with the assumption that they are bad. An answer 0 is
-- treated like unsat by the source.
unfoldable pub check_bmc0 : (ℕ → List Clause → List ℤ → Answer) → Aiger → Found
check_bmc0 solve c = elim (solve 0 (init_clauses c ++ bad_clauses c) (c.bad ∷ [])) [
  | sat val ↦ found (state_of c val)
  | unsat failed ↦ none_found
  | terminated ↦ none_found
]

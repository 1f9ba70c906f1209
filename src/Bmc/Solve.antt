-- ===== src/Bmc/Solve.antt =====
-- BMC::solve_one_frame of BMC.cpp: the clauses of one frame, and the call of the solver.
pub mod Implied
use modelchecker.Common.{
  ℕ, zero, suc, ◌+◌, ◌-◌, ◌%◌, Bool, true, false, not, ◌&&◌, ◌||◌, Option, none, some, List, [],
  ◌∷◌, ◌++◌, map, ℤ, pos, abs, neg, length, get_elem?, get_or, set, replicate, ◌==◌, if◌then◌else◌,
}
use modelchecker.Circuit.{And}
use modelchecker.Sat.{gate_clauses}
use modelchecker.Bmc.Unfold.{Unfolding}

-- What the solver answers under its assumption: 10, 20 or 0.
pub data Answer : Type 0 where
  sat unsat terminated : Answer

-- The clauses that were added to bmcSolver, and which gates have their clauses there.
pub record SolverState : Type 0 where
  pub clauses : List (List ℤ)
  pub lit_has_insert : List Bool

-- A round of the loop over the gates: `lit_set` holds the variables that are still to be defined.
pub record Cone : Type 0 where
  pub lit_set : ℕ → Bool
  pub added : SolverState

abbrev pub insert : ℕ → (ℕ → Bool) → ℕ → Bool
insert v lits w = (v == w) || lits w

abbrev pub erase : ℕ → (ℕ → Bool) → ℕ → Bool
erase v lits w = not (v == w) && lits w

-- One gate: skipped if its clauses are there, or if nothing needs its variable.
unfoldable pub cone_gate : ℕ → And → Cone → Cone
cone_gate i a s =
    if get_or s.added.lit_has_insert i false || not (s.lit_set a.o) then s else record {
      lit_set = insert (abs a.i2) (insert (abs a.i1) (erase a.o s.lit_set));
      added = record {
        clauses = s.added.clauses ++ gate_clauses a;
        lit_has_insert = set s.added.lit_has_insert i true;
      };
    }

-- The loop from the last gate down to the first.
unfoldable pub cone_loop : ℕ → List And → Cone → Cone
cone_loop zero ands s = s
cone_loop (suc i) ands s = elim (get_elem? ands i) [
  | none ↦ cone_loop i ands s
  | some a ↦ cone_loop i ands (cone_gate i a s)
]

unfoldable pub last_from : ℕ → List ℤ → List ℤ
last_from zero ls = ls
last_from (suc n) [] = []
last_from (suc n) (l ∷ ls) = last_from n ls

-- (uaiger->outputs).back()
unfoldable pub back : List ℤ → ℤ
back [] = pos 0
back (l ∷ []) = l
back (l ∷ k ∷ ls) = back (k ∷ ls)

-- Each constraint of the frame is a unit clause, and its variable is needed.
unfoldable pub add_constraints : List ℤ → Cone → Cone
add_constraints [] s = s
add_constraints (l ∷ ls) s = add_constraints ls (record {
  lit_set = insert (abs l) s.lit_set;
  added = record s.added { clauses = s.added.clauses ++ (l ∷ []) ∷ [] };
})

-- The clauses of one frame: `n` is the number of the circuit's constraints.
unfoldable pub add_frame : ℕ → Unfolding → SolverState → SolverState
add_frame n u s =
    let bad = back u.outputs in
    let start : Cone = record { lit_set = λ v. v == abs bad; added = s } in
    let constrained = add_constraints (last_from (length u.constraints - n) u.constraints) start in
    let grown : Cone = record constrained {
      added = record constrained.added {
        lit_has_insert =
            s.lit_has_insert ++ replicate (length u.ands - length s.lit_has_insert) false;
      };
    } in
    (cone_loop (length u.ands) u.ands grown).added

-- Another thread checks the frame.
unfoldable pub is_skipped : ℕ → ℕ → ℕ → Bool
is_skipped max_thread_index thread_index k =
    not (max_thread_index == 1) && not (k % max_thread_index == thread_index)

abbrev pub exclude : ℤ → SolverState → SolverState
exclude bad s = record s { clauses = s.clauses ++ (neg bad ∷ []) ∷ [] }

-- The solver is a parameter: its answer for its clauses under one assumption.
unfoldable pub solve_one_frame :
    (List (List ℤ) → ℤ → Answer) → ℕ → ℕ → ℕ → ℕ → Unfolding → SolverState → Answer × SolverState
solve_one_frame solve max_thread_index thread_index k n u s =
    let bad = back u.outputs in
    let added = add_frame n u s in
    if is_skipped max_thread_index thread_index k
    then (unsat, exclude bad added)
    else elim (solve added.clauses bad) [
      | unsat ↦ (unsat, exclude bad added)
      | sat ↦ (sat, added)
      | terminated ↦ (terminated, added)
    ]

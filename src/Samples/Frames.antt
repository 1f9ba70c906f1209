-- ===== src/Samples/Frames.antt =====
-- The clauses of one frame at concrete inputs.
use modelchecker.Common.{
  zero, suc, ◌≡◌, refl, Bool, true, false, ◌||◌, List, [], ◌∷◌, ℤ, pos, negsuc, ◌==◌, ◌==ℤ◌, ==ℤ→eq,
  if◌then◌else◌, Bool-cases, inl, inr, arith,
}
use modelchecker.Circuit.{Assignment, holds}
use modelchecker.Bmc.Unfold.{Unfolding}
use modelchecker.Bmc.Solve.{
  Answer, sat, unsat, terminated, SolverState, solve_one_frame, is_skipped, back, add_frame,
  add_constraints, last_from, cone_loop, cone_gate,
}
use modelchecker.Sat.{gate_clauses, and_clauses, clause_holds}
use modelchecker.Sat.Laws.{Satisfies}
use modelchecker.Bmc.Solve.Implied.{solve_one_frame-Satisfies}

-- Inputs 2 and 3, the gate 4 = 2 ∧ ¬3, the gate 5 = 2 ∧ 3, which the output does not need, and the
-- output 4.
abbrev one_frame : Unfolding
one_frame = record {
  inputs = 2 ∷ 3 ∷ [];
  outputs = pos 4 ∷ [];
  constraints = pos 2 ∷ [];
  ands =
      record { o = 4; i1 = pos 2; i2 = negsuc 2 } ∷ record { o = 5; i1 = pos 2; i2 = pos 3 } ∷ [];
  nodes = [];
  hash_table = λ _. [];
  values = [];
}

abbrev is_unit : ℤ → List ℤ → Bool
is_unit l [] = false
is_unit l (k ∷ []) = k ==ℤ l
is_unit l (k ∷ j ∷ ls) = false

abbrev has_unit : ℤ → List (List ℤ) → Bool
has_unit l [] = false
has_unit l (c ∷ cs) = is_unit l c || has_unit l cs

-- A weak solver, which looks for a unit clause that excludes the assumption.
abbrev pub weak_solve : List (List ℤ) → ℤ → Answer
weak_solve cs (pos zero) = terminated
weak_solve cs (pos (suc n)) = if has_unit (negsuc n) cs then unsat else sat
weak_solve cs (negsuc n) = if has_unit (pos (suc n)) cs then unsat else sat

-- The clauses of the frame: the constraint, and the gate 4; the gate 5 is outside of the cone.
frame_clauses :
    (add_frame 1 one_frame (record { clauses = []; lit_has_insert = [] })).clauses
    ≡ (pos 2 ∷ [])
      ∷ (negsuc 3 ∷ pos 2 ∷ [])
      ∷ (negsuc 3 ∷ negsuc 2 ∷ [])
      ∷ (pos 4 ∷ negsuc 1 ∷ pos 3 ∷ [])
      ∷ []
unfolding add_frame add_constraints last_from cone_loop cone_gate gate_clauses and_clauses back
frame_clauses = refl

unit_holds :
    (l : ℤ) (cs : List (List ℤ)) (τ : Assignment)
    → has_unit l cs ≡ true
    → Satisfies τ cs
    → holds τ l ≡ true
unfolding clause_holds
unit_holds l [] τ h s = cc
unit_holds l ([] ∷ cs) τ h s = cc
unit_holds l ((k ∷ []) ∷ cs) τ h s = elim (Bool-cases (k ==ℤ l)) [
  | inl same ↦ let e = ==ℤ→eq k l same in let true_k = s.0 in rw (← e) (ground (arith, true_k))
  | inr other ↦ unit_holds l cs τ (ground (arith, h, other)) s.1
]
unit_holds l ((k ∷ j ∷ ls) ∷ cs) τ h s = unit_holds l cs τ h s.1

pub weak_solve_right :
    (cs : List (List ℤ)) (l : ℤ) (τ : Assignment)
    → weak_solve cs l ≡ unsat
    → Satisfies τ cs
    → holds τ l ≡ false
unfolding holds
weak_solve_right cs (pos zero) τ e s = cc
weak_solve_right cs (pos (suc n)) τ e s = elim (Bool-cases (has_unit (negsuc n) cs)) [
  | inl found ↦ let h = unit_holds (negsuc n) cs τ found s in ground (arith, h)
  | inr none_found ↦ cc
]
weak_solve_right cs (negsuc n) τ e s = elim (Bool-cases (has_unit (pos (suc n)) cs)) [
  | inl found ↦ let h = unit_holds (pos (suc n)) cs τ found s in ground (arith, h)
  | inr none_found ↦ cc
]

-- The clauses so far exclude gate 4.
abbrev excluded : SolverState
excluded = record { clauses = (negsuc 3 ∷ []) ∷ []; lit_has_insert = [] }

abbrev both_inputs : Assignment
both_inputs v = v == 2 || v == 3 || v == 5

solve_one_frame-Satisfies_example :
    Satisfies both_inputs (solve_one_frame weak_solve 1 0 1 1 one_frame excluded).1.clauses
    × ((solve_one_frame weak_solve 1 0 1 1 one_frame excluded).0 ≡ unsat
        → holds both_inputs (back one_frame.outputs) ≡ false)
solve_one_frame-Satisfies_example =
    solve_one_frame-Satisfies weak_solve 1 0 1 1 one_frame excluded both_inputs weak_solve_right
      (unfold is_skipped in refl) (unfold back in omega arith)
      (unfold holds in
        (
          (omega arith, omega arith, omega arith, refl),
          ((omega arith, omega arith, omega arith, refl), tt),
        ))
      (unfold holds in (refl, tt)) (unfold clause_holds in unfold holds in (refl, tt))

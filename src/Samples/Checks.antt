-- ===== src/Samples/Checks.antt =====
-- The search of BMC::check at concrete circuits, with solvers that try little.
use modelchecker.Common.{
  ℕ, zero, suc, ◌<◌, ◌≡◌, refl, true, false, Bool, Bool-cases, inl, inr, ◌&&◌, if◌then◌else◌, List,
  [], ◌∷◌, arith, ℤ, pos,
}
use modelchecker.Circuit.{Assignment, holds}
use modelchecker.Circuit.Run.{IsWellFormed}
use modelchecker.Aiger.{Aiger}
use modelchecker.Sat.{clause_holds, gate_clauses, and_clauses}
use modelchecker.Sat.Laws.{Satisfies}
use modelchecker.Bmc.Unfold.{
  unfold_step, start, unfold_frame, unfold_inputs, unfold_input, unfold_gates, unfold_gate,
  simplify, share_gate, new_gate, find_gate, push_bucket, add_father, unfold_latches, set_latches,
  unfold_output, unfold_constraints, checked_bad, reset_values, init_latches,
}
use modelchecker.Bmc.AndGate.{
  value, aig_and, aig_and_step, trivial, strash, strash_side, or_else, left_child, right_child,
}
use modelchecker.Bmc.Run.{IsRun}
use modelchecker.Bmc.Solve.{
  Answer, sat, unsat, solve_one_frame, is_skipped, back, add_frame, add_constraints, last_from,
  cone_loop, cone_gate,
}
use modelchecker.Bmc.Check.{found, exhausted, check, check_frames}
use modelchecker.Bmc.Check.Traces.{IsConstrained}
use modelchecker.Bmc.Check.Safe.{check-IsSafe, threads-IsSafe}
use modelchecker.Bmc.Check.Found.{check-IsBad}
use modelchecker.Bmc.Check.Settled.{IsSatRight}
use modelchecker.Samples.Circuits.{sample, sample-IsWellFormed}
use modelchecker.Samples.BmcRuns.{bad_in_two}
use modelchecker.Samples.Frames.{weak_solve, weak_solve_right}

-- A circuit whose latch stays false, so that the bad literal is never true.
abbrev pub idle : Aiger
idle = record sample { nexts = pos 4 ∷ [] }

pub idle-IsWellFormed : IsWellFormed idle
idle-IsWellFormed = omega arith

pub idle_exhausted : (t : ℕ) → t < 2 → check weak_solve (λ _. false) 2 t 100 idle 2 ≡ exhausted
unfolding check check_frames solve_one_frame is_skipped back add_frame add_constraints last_from
    cone_loop cone_gate gate_clauses and_clauses unfold_step start unfold_frame unfold_inputs
    unfold_input unfold_gates unfold_gate simplify share_gate new_gate find_gate push_bucket
    add_father unfold_latches set_latches unfold_output unfold_constraints checked_bad reset_values
    init_latches value aig_and aig_and_step trivial strash strash_side or_else left_child
    right_child
idle_exhausted zero lt = refl
idle_exhausted (suc zero) lt = refl
idle_exhausted (suc (suc t)) lt = absurd (omega arith)

alone_exhausted : check weak_solve (λ _. false) 1 0 100 idle 2 ≡ exhausted
unfolding check check_frames solve_one_frame is_skipped back add_frame add_constraints last_from
    cone_loop cone_gate gate_clauses and_clauses unfold_step start unfold_frame unfold_inputs
    unfold_input unfold_gates unfold_gate simplify share_gate new_gate find_gate push_bucket
    add_father unfold_latches set_latches unfold_output unfold_constraints checked_bad reset_values
    init_latches value aig_and aig_and_step trivial strash strash_side or_else left_child
    right_child
alone_exhausted = refl

-- Both inputs of gate 5 are false in the only frame.
abbrev pub idle_frame : ℕ → Assignment
idle_frame k v = false

pub idle_frame-IsRun : IsRun idle 2 idle_frame
unfolding holds
idle_frame-IsRun = record {
  initial = (refl, tt);
  frames = λ i lt. record { constant = refl; gates = (refl, (refl, tt)) };
  steps = λ i lt. (refl, tt);
}

check-IsSafe_example : holds (idle_frame 1) (checked_bad idle 0) ≡ false
check-IsSafe_example =
    check-IsSafe idle 0 100 2 (λ _. false) weak_solve idle-IsWellFormed
      (unfold checked_bad in omega arith) weak_solve_right alone_exhausted 1 idle_frame
      (omega arith) idle_frame-IsRun (λ i lt. tt)

threads-IsSafe_example : holds (idle_frame 1) (checked_bad idle 0) ≡ false
threads-IsSafe_example =
    threads-IsSafe idle 2 100 2 (λ _ _. false) (λ _. weak_solve) idle-IsWellFormed
      (unfold checked_bad in omega arith) refl (omega arith) (λ t lt. weak_solve_right)
      idle_exhausted 1 idle_frame (omega arith) idle_frame-IsRun (λ i lt. tt)

abbrev satisfied : Assignment → List (List ℤ) → Bool
satisfied σ [] = true
satisfied σ (c ∷ cs) = clause_holds σ c && satisfied σ cs

satisfied-Satisfies : (σ : Assignment) (cs : List (List ℤ)) → satisfied σ cs ≡ true → Satisfies σ cs
satisfied-Satisfies σ [] h = tt
satisfied-Satisfies σ (c ∷ cs) h = (ground (arith, h), satisfied-Satisfies σ cs (ground (arith, h)))

-- A solver that tries one assignment.
abbrev try_solve : List (List ℤ) → ℤ → Answer
try_solve cs l = if satisfied bad_in_two cs && holds bad_in_two l then sat else unsat

try_solve-IsSatRight : IsSatRight try_solve
try_solve-IsSatRight cs l answer =
    elim (Bool-cases (satisfied bad_in_two cs && holds bad_in_two l)) [
      | inl works ↦ (
        bad_in_two,
        satisfied-Satisfies bad_in_two cs (ground (arith, works)),
        ground (arith, works),
      )
      | inr fails ↦ let w = rw fails at answer in cc
    ]

sample_found : check try_solve (λ _. false) 1 0 100 sample 5 ≡ found 2
unfolding check check_frames solve_one_frame is_skipped back add_frame add_constraints last_from
    cone_loop cone_gate gate_clauses and_clauses unfold_step start unfold_frame unfold_inputs
    unfold_input unfold_gates unfold_gate simplify share_gate new_gate find_gate push_bucket
    add_father unfold_latches set_latches unfold_output unfold_constraints checked_bad reset_values
    init_latches value aig_and aig_and_step trivial strash strash_side or_else left_child
    right_child holds clause_holds
sample_found = refl

check-IsBad_example :
    (i : ℕ) × (2 ≡ suc i)
    × (i < 5)
    × (x : ℕ → Assignment) × IsRun sample (suc i) x
    × IsConstrained sample (suc i) x
    × (holds (x i) (checked_bad sample 0) ≡ true)
check-IsBad_example =
    check-IsBad sample 1 0 100 5 2 (λ _. false) try_solve sample-IsWellFormed
      (unfold checked_bad in omega arith) try_solve-IsSatRight sample_found

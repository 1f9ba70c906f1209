-- ===== src/Samples/BmcRuns.antt =====
-- Bounded model checking at concrete inputs.
use modelchecker.Common.{
  ℕ, zero, suc, ◌≤◌, ◌<◌, ◌≡◌, refl, false, List, [], ◌∷◌, map, ℤ, pos, arith, ◌==◌, ◌||◌, ◌&&◌,
  ◌⊎◌, some, All, get_or,
}
use modelchecker.Circuit.{Assignment, holds, IsLiteral, GateHolds}
use modelchecker.Circuit.Run.{IsFrame, IsStep}
use modelchecker.Bmc.AndGate.Agrees.{Agrees}
use modelchecker.Bmc.AndGate.Sound.{aig_and_returns}
use modelchecker.Bmc.Complete.{IsRun-unfold_frames}
use modelchecker.Bmc.AndGate.{
  value, aig_and, aig_and_step, trivial, strash, strash_side, or_else, left_child, right_child,
}
use modelchecker.Bmc.Unfold.{
  unfold_frames, unfold_step, start, unfold_frame, unfold_inputs, unfold_input, unfold_gates,
  unfold_gate, simplify, share_gate, new_gate, find_gate, push_bucket, add_father, unfold_latches,
  set_latches, unfold_output, unfold_constraints, checked_bad, reset_values, init_latches,
}
use modelchecker.Bmc.Unfold.Extends.{Respects}
use modelchecker.Bmc.Run.{IsRun, bad_trace, constraint_trace, unfold_frames-IsRun}
use modelchecker.Samples.Circuits.{sample, bad_run, sample-IsWellFormed}

-- The second frame: both gates are new, and read the first frame through the latch.
unfolded_outputs : (unfold_frames sample 0 2).outputs ≡ pos 1 ∷ pos 9 ∷ []
unfolding unfold_frames unfold_step start unfold_frame unfold_inputs unfold_input unfold_gates
    unfold_gate simplify share_gate new_gate find_gate push_bucket add_father unfold_latches
    set_latches unfold_output unfold_constraints checked_bad reset_values init_latches value aig_and
    aig_and_step trivial strash strash_side or_else left_child right_child
unfolded_outputs = refl

-- The second frame reaches the bad literal: input 0 is set there, and both gates are true.
abbrev pub bad_in_two : Assignment
bad_in_two v = v == 6 || v == 8 || v == 9

bad_in_two-Respects : Respects bad_in_two (unfold_frames sample 0 2)
unfolding unfold_frames unfold_step start unfold_frame unfold_inputs unfold_input unfold_gates
    unfold_gate simplify share_gate new_gate find_gate push_bucket add_father unfold_latches
    set_latches unfold_output unfold_constraints checked_bad reset_values init_latches value aig_and
    aig_and_step trivial strash strash_side or_else left_child right_child holds
bad_in_two-Respects = (refl, (refl, (refl, tt)))

unfold_frames-IsRun_example :
    (x : ℕ → Assignment) × IsRun sample 2 x
    × (map (holds bad_in_two) (unfold_frames sample 0 2).outputs
        ≡ bad_trace x (checked_bad sample 0) 2)
    × (map (holds bad_in_two) (unfold_frames sample 0 2).constraints ≡ constraint_trace x [] 2)
unfold_frames-IsRun_example =
    unfold_frames-IsRun sample 0 2 bad_in_two sample-IsWellFormed
      (unfold checked_bad in omega arith) refl bad_in_two-Respects

pub bad_run-IsFrame : (k : ℕ) → k < 2 → IsFrame sample (bad_run k)
unfolding holds
bad_run-IsFrame zero lt = record { constant = refl; gates = (refl, (refl, tt)) }
bad_run-IsFrame (suc zero) lt = record { constant = refl; gates = (refl, (refl, tt)) }
bad_run-IsFrame (suc (suc k)) lt = absurd (omega arith)

pub bad_run-IsStep : (k : ℕ) → suc k < 2 → IsStep sample (bad_run k) (bad_run (suc k))
unfolding holds
bad_run-IsStep zero lt = (refl, tt)
bad_run-IsStep (suc k) lt = absurd (omega arith)

bad_run-IsRun : IsRun sample 2 bad_run
unfolding holds
bad_run-IsRun = record { initial = (refl, tt); frames = bad_run-IsFrame; steps = bad_run-IsStep }

IsRun-unfold_frames_example :
    (σ : Assignment) × (σ 1 ≡ false)
    × Respects σ (unfold_frames sample 0 2)
    × (map (holds σ) (unfold_frames sample 0 2).outputs
        ≡ bad_trace bad_run (checked_bad sample 0) 2)
    × (map (holds σ) (unfold_frames sample 0 2).constraints ≡ constraint_trace bad_run [] 2)
IsRun-unfold_frames_example =
    IsRun-unfold_frames sample 0 2 bad_run sample-IsWellFormed (unfold checked_bad in omega arith)
      bad_run-IsRun

-- The first frame, with input 0 set: the gate 5 is unfolded as the node 5.
abbrev first_values : List ℤ
first_values = pos 0 ∷ pos 1 ∷ pos 2 ∷ pos 3 ∷ pos 4 ∷ pos 5 ∷ []

abbrev first_frame : Assignment
first_frame v = v == 2 || v == 5

first_nonzero : (v : ℕ) → 1 ≤ v → v < 6 → IsLiteral (get_or first_values v (pos 0))
first_nonzero zero le lt = absurd (omega arith)
first_nonzero (suc v) le lt = ground arith

first_same :
    (v : ℕ) → 1 ≤ v → v < 6 → holds first_frame (get_or first_values v (pos 0)) ≡ first_frame v
unfolding holds
first_same zero le lt = absurd (omega arith)
first_same (suc zero) le lt = refl
first_same (suc (suc zero)) le lt = refl
first_same (suc (suc (suc zero))) le lt = refl
first_same (suc (suc (suc (suc zero)))) le lt = refl
first_same (suc (suc (suc (suc (suc zero))))) le lt = refl
first_same (suc (suc (suc (suc (suc (suc v)))))) le lt = absurd (omega arith)

first_values-Agrees : Agrees first_frame first_frame first_values 6
first_values-Agrees = record { constant = refl; nonzero = first_nonzero; same = first_same }

first_gates : All (GateHolds first_frame) sample.ands
unfolding holds
first_gates = (refl, (refl, tt))

-- Gate 5 reads input 0, so its conjunction with input 0 is gate 5.
aig_and_returns_example :
    (r : ℤ) × (aig_and 5 sample.ands first_values 6 (pos 5) (pos 2) ≡ some r)
    × ((r ≡ pos 0)
        ⊎ IsLiteral r
          × (holds first_frame r ≡ (holds first_frame (pos 5) && holds first_frame (pos 2))))
aig_and_returns_example =
    aig_and_returns 5 sample.ands first_values 6 first_values-Agrees sample-IsWellFormed.ordered
      first_gates refl refl (omega arith) (omega arith) 6 (pos 5) (pos 2) (omega arith)
      (omega arith) (omega arith) (omega arith) (omega arith)

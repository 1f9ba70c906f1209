-- ===== src/Samples/Search.antt =====
-- The search of PDR on the sample circuit.
use modelchecker.Common.{
  ◌≤◌, suc, ℕ, ◌≡◌, refl, Bool, true, false, none, some, List, [], ◌∷◌, ℤ, pos, negsuc, arith,
  get_elem?, length,
}
use modelchecker.Circuit.{Assignment, holds}
use modelchecker.Sat.{Clause}
use modelchecker.Pdr.Frames.{
  Cube, Frame, Setup, Pdr, set_up, new_frame, deepen, first_frame, add_cube, is_init, is_inductive,
  depth,
}
use modelchecker.Pdr.Frames.Prepared.{IsSetup, set_up-IsSetup}
use modelchecker.Pdr.Frames.Invariant.{cube_holds, cubes_of, IsPdr}
use modelchecker.Pdr.Frames.Initial.{IsStart, Initial, is_init-Initial}
use modelchecker.Pdr.Frames.Refuted.{IsOrder}
use modelchecker.Pdr.Frames.Inductive.{Inductive, is_inductive-Inductive}
use modelchecker.Pdr.Frames.Chain.{IsChain}
use modelchecker.Pdr.Frames.Insertion.{Insertion, add_cube-Insertion}
use modelchecker.Pdr.Frames.Deeper.{deepen-IsPdr}
use modelchecker.Pdr.Frames.Start.{initial_frames, initial_frames-IsPdr}
use modelchecker.Pdr.Propagate.{propagate_frames, find_invariant}
use modelchecker.Pdr.Propagate.Pushed.{lookup, Propagated, propagate_frames-Propagated}
use modelchecker.Pdr.Propagate.Safe.{Concluded, find_invariant-Concluded}
use modelchecker.Pdr.Opening.{open_search}
use modelchecker.Pdr.Opening.Opened.{Opened, open_search-Opened}
use modelchecker.Pdr.Lift.{encode_lift}
use modelchecker.Pdr.Lift.Lifted.{Lifted, encode_lift-Lifted}
use modelchecker.Samples.BmcRuns.{bad_run-IsFrame, bad_run-IsStep}
use modelchecker.Samples.Circuits.{sample, sample-IsWellFormed, bad_run}
use modelchecker.Samples.Initial.{sample-IsTranslated}
use modelchecker.Samples.Solver.{brute_solve, brute_solve-IsSolver}

-- A simplifier that leaves the clauses, and the order of the cube.
abbrev leave : List Clause → (ℕ → Bool) → List Clause
leave cs frozen = cs

abbrev in_order : ℕ → List ℤ → List ℤ
in_order n ls = ls

in_order-IsOrder : IsOrder in_order
in_order-IsOrder P n ls h = h

set_up-IsSetup_example : (s : Setup) × (set_up leave sample ≡ some s) × IsSetup sample s
set_up-IsSetup_example = set_up-IsSetup leave sample (λ cs frozen σ h. h) sample-IsTranslated

abbrev sample_setup : Setup
sample_setup = (set_up-IsSetup leave sample (λ cs frozen σ h. h) sample-IsTranslated).0

sample_setup-IsSetup : IsSetup sample sample_setup
sample_setup-IsSetup = (set_up-IsSetup leave sample (λ cs frozen σ h. h) sample-IsTranslated).2

abbrev blank : Pdr
blank = record {
  setup = sample_setup;
  frames = [];
  init = none;
  core = [];
  earliest_strengthened_frame = 0;
  top_frame_cannot_reach_bad = false;
  queries = 0;
}

abbrev started : Pdr
started = initial_frames sample blank

started-IsPdr : IsPdr sample started × IsChain sample (cubes_of started.frames)
started-IsPdr =
    initial_frames-IsPdr sample sample-IsWellFormed refl blank sample_setup-IsSetup
      (λ i e. absurd (cc))

-- The latch is set.
abbrev latch_cube : Cube
latch_cube = pos 4 ∷ []

is_init-Initial_example :
    Initial sample latch_cube started (is_init brute_solve in_order sample latch_cube started)
is_init-Initial_example =
    is_init-Initial brute_solve in_order sample brute_solve-IsSolver sample-IsWellFormed latch_cube
      started ((omega arith, omega arith), tt) started-IsPdr.0

started_length : length started.frames ≡ 3
unfolding initial_frames first_frame new_frame
started_length = refl

abbrev second_frame : (f : Frame) × (get_elem? started.frames 1 ≡ some f)
second_frame = lookup started.frames 1 (let e = started_length in omega (arith, e))

is_inductive-Inductive_example :
    Inductive sample started 1 latch_cube true
      (is_inductive brute_solve in_order sample 1 latch_cube true true started)
is_inductive-Inductive_example =
    is_inductive-Inductive brute_solve in_order sample brute_solve-IsSolver in_order-IsOrder
      sample-IsWellFormed refl started 1 second_frame.0 latch_cube true true started-IsPdr.0
      second_frame.1 ((omega arith, omega arith), tt)

-- A cube that no state is in.
abbrev no_state : Cube
no_state = pos 4 ∷ negsuc 3 ∷ []

no_state_lem : (x : Assignment) → cube_holds x no_state ≡ false
unfolding cube_holds holds
no_state_lem x = ground arith

add_cube-Insertion_example :
    Insertion sample started 1 no_state true (add_cube no_state 1 true false started)
add_cube-Insertion_example =
    add_cube-Insertion sample (omega arith) started 0 second_frame.0 no_state true false
      started-IsPdr.0 started-IsPdr.1 second_frame.1
      ((omega arith, omega arith), ((omega arith, omega arith), tt)) (λ x st. no_state_lem x)
      (λ x y g w out. no_state_lem y)

propagate_frames-Propagated_example :
    Propagated brute_solve in_order sample brute_solve-IsSolver in_order-IsOrder sample-IsWellFormed
      refl started 1 1
      (propagate_frames brute_solve in_order sample 1 1 started)
propagate_frames-Propagated_example =
    propagate_frames-Propagated brute_solve in_order sample brute_solve-IsSolver in_order-IsOrder
      sample-IsWellFormed refl 1 1 started started-IsPdr.0 started-IsPdr.1
      (let e = started_length in omega (arith, e))

-- The start is not bad, since its latch is not set.
sample_start : (x : Assignment) → IsStart sample x → holds x sample.bad ≡ false
unfolding holds
sample_start x (frame, (latch, _), _) =
    let (_, (bad, _)) = frame.gates in ground (arith, latch, bad)

find_invariant-Concluded_example :
    Concluded brute_solve in_order sample brute_solve-IsSolver in_order-IsOrder sample-IsWellFormed
      refl started
      (find_invariant brute_solve in_order sample started)
unfolding initial_frames first_frame new_frame depth
find_invariant-Concluded_example =
    find_invariant-Concluded brute_solve in_order sample brute_solve-IsSolver in_order-IsOrder
      sample-IsWellFormed refl started started-IsPdr.0 started-IsPdr.1 (omega arith) (omega arith)
      (omega arith) sample_start

deepen-IsPdr_example :
    IsPdr sample (deepen started)
    × IsChain sample (cubes_of (deepen started).frames)
    × (length (deepen started).frames ≡ suc (length started.frames))
    × ((deepen started).earliest_strengthened_frame ≡ depth (deepen started))
    × (1 ≤ depth (deepen started))
deepen-IsPdr_example =
    deepen-IsPdr sample started started-IsPdr.0 started-IsPdr.1
      (let e = started_length in omega (arith, e))

open_search-Opened_example : Opened sample blank (open_search brute_solve sample blank)
open_search-Opened_example =
    open_search-Opened brute_solve sample brute_solve-IsSolver sample-IsWellFormed
      (omega arith, omega arith) refl blank sample_setup-IsSetup refl

encode_lift-Lifted_example :
    Lifted sample sample_setup (bad_run 0) (bad_run 1) (encode_lift leave sample sample_setup)
unfolding holds
encode_lift-Lifted_example =
    encode_lift-Lifted leave sample sample_setup (λ cs frozen σ h. h) sample-IsTranslated
      (set_up-IsSetup leave sample (λ cs frozen σ h. h) sample-IsTranslated).1 (bad_run 0)
      (bad_run 1) (bad_run-IsFrame 0 (omega arith)) (bad_run-IsFrame 1 (omega arith))
      (bad_run-IsStep 0 (omega arith)) refl

-- ===== src/Bmc/Run.antt =====
-- The unfolded frames against the runs of the circuit: what every assignment of the unfolded
-- variables stands for.
use modelchecker.Common.{
  ℕ, zero, suc, ◌≤◌, ◌<◌, ◌≡◌, ap, arith, Bool, false, List, [], ◌∷◌, ◌++◌, map, ℤ,
}
use native.Mathlib.Decide.{dec_lt}
use mathlib.Core.List.{map-append}
use modelchecker.Circuit.{Assignment, holds}
use modelchecker.Circuit.Run.{IsVar, IsWellFormed, IsFrame, IsInitial, IsStep, num_variables}
use modelchecker.Aiger.{Aiger}
use modelchecker.Bmc.Unfold.{unfold_frames, checked_bad}
use modelchecker.Bmc.Unfold.Extends.{Respects}
use modelchecker.Bmc.Unfold.Frame.{IsReady, frame_assignment, frame_assignment-IsFrame}
use modelchecker.Bmc.Unfold.Start.{start_empty, start-IsReady, start-IsInitial}
use modelchecker.Bmc.Unfold.Steps.{
  unfold_step-IsReady, unfold_step-IsStep, unfold_step_outputs, unfold_step_constraints,
  unfold_step-Respects,
}

-- A run of the circuit over `k` frames, the first of which is an initial state.
pub record IsRun (c : Aiger) (k : ℕ) (x : ℕ → Assignment) : Type 0 where
  pub initial : IsInitial c (x 0)
  pub frames : (i : ℕ) → i < k → IsFrame c (x i)
  pub steps : (i : ℕ) → suc i < k → IsStep c (x i) (x (suc i))

-- What a run makes of the bad literal and of the constraints, frame by frame.
unfoldable pub bad_trace : (ℕ → Assignment) → ℤ → ℕ → List Bool
bad_trace x bad zero = []
bad_trace x bad (suc k) = bad_trace x bad k ++ holds (x k) bad ∷ []

unfoldable pub constraint_trace : (ℕ → Assignment) → List ℤ → ℕ → List Bool
constraint_trace x cs zero = []
constraint_trace x cs (suc k) = constraint_trace x cs k ++ map (holds (x k)) cs

module _ (c : Aiger) (well : IsWellFormed c) (σ : Assignment) (σ-false : σ 1 ≡ false)
    (thread : ℕ) where
  -- The run that `σ` stands for.
  unfoldable pub run_of : ℕ → Assignment
  run_of i = frame_assignment c σ (unfold_frames c thread i)

  pub frames-Respects :
      (i k : ℕ)
      → i ≤ k
      → Respects σ (unfold_frames c thread k)
      → Respects σ (unfold_frames c thread i)
  frames-Respects i zero le h = let same : i ≡ 0 = omega arith in rw same h
  frames-Respects i (suc k) le h = elim (dec_lt i (suc k)) [
    | yes earlier ↦
        frames-Respects i k (omega arith)
          (unfold unfold_frames in unfold_step-Respects c thread σ (unfold_frames c thread k) h)
    | no last ↦ let same : i ≡ suc k = omega arith in rw same h
  ]

  pub frames-IsReady :
      (k : ℕ) → Respects σ (unfold_frames c thread k) → IsReady c σ (unfold_frames c thread k)
  unfolding unfold_frames
  frames-IsReady zero h = start-IsReady c well σ σ-false
  frames-IsReady (suc k) h =
      unfold_step-IsReady c well σ σ-false thread (unfold_frames c thread k)
        (frames-IsReady k (unfold_step-Respects c thread σ (unfold_frames c thread k) h)) h

  frames-IsRun : (k : ℕ) → Respects σ (unfold_frames c thread k) → IsRun c k run_of
  unfolding run_of
  frames-IsRun k h = record {
    initial = unfold unfold_frames in start-IsInitial c well σ σ-false;
    frames = λ i lt.
        frame_assignment-IsFrame c well σ σ-false (unfold_frames c thread i)
          (frames-IsReady i (frames-Respects i k (omega arith) h));
    steps = λ i lt.
        let here = frames-Respects i k (omega arith) h in
        let after = frames-Respects (suc i) k (omega arith) h in
        unfold unfold_frames in
        unfold_step-IsStep c well σ σ-false thread (unfold_frames c thread i)
          (frames-IsReady i here) after;
  }

  frames-bad_trace :
      (k : ℕ)
      → IsVar (num_variables c) (checked_bad c thread)
      → Respects σ (unfold_frames c thread k)
      → map (holds σ) (unfold_frames c thread k).outputs ≡ bad_trace run_of (checked_bad c thread) k
  unfolding unfold_frames bad_trace run_of
  frames-bad_trace zero var h = ap (map (holds σ)) (start_empty c).0
  frames-bad_trace (suc k) var h =
      let before = unfold_step-Respects c thread σ (unfold_frames c thread k) h in
      let (l, e, _, same) =
        unfold_step_outputs c well σ σ-false thread (unfold_frames c thread k)
          (frames-IsReady k before) h var in
      rw (e, map-append, same)
        (ap
          (λ (t : List Bool).
            t
            ++ holds (frame_assignment c σ (unfold_frames c thread k)) (checked_bad c thread) ∷ [])
          (frames-bad_trace k var before))

  frames-constraint_trace :
      (k : ℕ)
      → Respects σ (unfold_frames c thread k)
      → map (holds σ) (unfold_frames c thread k).constraints
        ≡ constraint_trace run_of c.constraints k
  unfolding unfold_frames constraint_trace run_of
  frames-constraint_trace zero h = ap (map (holds σ)) (start_empty c).1
  frames-constraint_trace (suc k) h =
      let before = unfold_step-Respects c thread σ (unfold_frames c thread k) h in
      let (ls, e, same) =
        unfold_step_constraints c well σ σ-false thread (unfold_frames c thread k)
          (frames-IsReady k before) h in
      rw (e, map-append, same)
        (ap
          (λ (t : List Bool).
            t ++ map (holds (frame_assignment c σ (unfold_frames c thread k))) c.constraints)
          (frames-constraint_trace k before))

-- Every assignment of the unfolded variables that makes variable 1 false and satisfies the unfolded
-- gates of `k` frames of a well-formed circuit comes from a run of the circuit over `k` frames from an initial state:
-- the unfolded outputs mean the checked bad literal in each frame, and the unfolded constraints mean
-- the constraints in each frame.
pub unfold_frames-IsRun :
    (c : Aiger) (thread k : ℕ) (σ : Assignment)
    → IsWellFormed c
    → IsVar (num_variables c) (checked_bad c thread)
    → σ 1 ≡ false
    → Respects σ (unfold_frames c thread k)
    → (x : ℕ → Assignment) × IsRun c k x
      × (map (holds σ) (unfold_frames c thread k).outputs ≡ bad_trace x (checked_bad c thread) k)
      × (map (holds σ) (unfold_frames c thread k).constraints ≡ constraint_trace x c.constraints k)
unfold_frames-IsRun c thread k σ well var σ-false h = (
  run_of c well σ σ-false thread,
  frames-IsRun c well σ σ-false thread k h,
  frames-bad_trace c well σ σ-false thread k var h,
  frames-constraint_trace c well σ σ-false thread k h,
)

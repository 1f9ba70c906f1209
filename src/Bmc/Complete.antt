-- ===== src/Bmc/Complete.antt =====
-- Every run of the circuit is among the assignments of the unfolded variables.
use modelchecker.Common.{
  ℕ, zero, suc, ◌≤◌, ◌<◌, ◌≡◌, refl, ap, ap₂, ◌∙◌, false, Bool, List, [], ◌∷◌, ◌++◌, map, arith, ℤ,
  abs, length, All, All-append,
}
use mathlib.Core.List.{map-append}
use modelchecker.Circuit.{Assignment, holds}
use modelchecker.Circuit.Run.{IsVar, IsWellFormed, num_variables}
use modelchecker.Aiger.{Aiger}
use modelchecker.Bmc.Unfold.{unfold_step, unfold_frames, checked_bad}
use modelchecker.Bmc.Unfold.Extends.{Respects}
use modelchecker.Bmc.Unfold.Frame.{IsReady}
use modelchecker.Bmc.Unfold.Steps.{unfold_step-IsReady}
use modelchecker.Bmc.Unfold.Bounds.{IsBounded}
use modelchecker.Bmc.Unfold.Lift.{SameBelow}
use modelchecker.Bmc.Unfold.LiftFrame.{ReadsLatches, unfold_frame-Lift}
use modelchecker.Bmc.Unfold.LiftStep.{
  map-holds-SameBelow, lifted-Respects, unfold_step-IsBounded, lifted-IsReady, lifted_output,
  lifted_constraints, unfold_step-ReadsLatches, unfold_step_nodes,
}
use modelchecker.Bmc.Unfold.Start.{start_empty, start-IsReady}
use modelchecker.Bmc.Unfold.LiftStart.{start-Lift}
use modelchecker.Bmc.Run.{IsRun, bad_trace, constraint_trace}

-- Literals of the nodes that there are, with the meanings `t`.
pub record IsTrace (n : ℕ) (σ : Assignment) (ls : List ℤ) (t : List Bool) : Type 0 where
  pub small : All (λ l. abs l < n) ls
  means : map (holds σ) ls ≡ t

IsTrace-append :
    (n m : ℕ) (σ τ : Assignment) (ls ms : List ℤ) (t s : List Bool)
    → IsTrace n σ ls t
    → SameBelow n σ τ
    → n ≤ m
    → All (λ l. abs l < m) ms
    → map (holds τ) ms ≡ s
    → IsTrace m τ (ls ++ ms) (t ++ s)
IsTrace-append n m σ τ ls ms t s h same le small e = record {
  small = All-append (λ l. abs l < m) ls ms (weaken ls h.small) small;
  means =
      map-append (holds τ) ls ms ∙ ap₂ ◌++◌ (map-holds-SameBelow n σ τ ls same h.small ∙ h.means) e;
}
  where
    weaken : (xs : List ℤ) → All (λ l. abs l < n) xs → All (λ l. abs l < m) xs
    weaken [] p = tt
    weaken (y ∷ ys) (p, ps) = (omega arith, weaken ys ps)

-- The first `j` frames of the run `x`, carried over.
pub record Carries (c : Aiger) (thread k : ℕ) (x : ℕ → Assignment) (j : ℕ) : Type 0 where
  σ : Assignment
  constant : σ 1 ≡ false
  respects : Respects σ (unfold_frames c thread j)
  pub bounded : IsBounded (unfold_frames c thread j)
  ready : IsReady c σ (unfold_frames c thread j)
  outputs :
      IsTrace
        (length (unfold_frames c thread j).nodes)
        σ
        (unfold_frames c thread j).outputs
        (bad_trace x (checked_bad c thread) j)
  pub constraints :
      IsTrace
        (length (unfold_frames c thread j).nodes)
        σ
        (unfold_frames c thread j).constraints
        (constraint_trace x c.constraints j)
  reads : j < k → ReadsLatches c σ (x j) (unfold_frames c thread j)

module _ (c : Aiger) (thread k : ℕ) (x : ℕ → Assignment) (well : IsWellFormed c)
    (bad : IsVar (num_variables c) (checked_bad c thread)) (run : IsRun c k x) where
  start-Carries : Carries c thread k x 0
  unfolding unfold_frames bad_trace constraint_trace
  start-Carries =
      let (σ, constant, respects, bounded, reads) = start-Lift c (x 0) well run.initial in
      record {
        σ = σ;
        constant = constant;
        respects = respects;
        bounded = bounded;
        ready = start-IsReady c well σ constant;
        outputs = rw (start_empty c).0 (record { small = tt; means = refl });
        constraints = rw (start_empty c).1 (record { small = tt; means = refl });
        reads = λ lt. reads;
      }

  step-Carries : (j : ℕ) → j < k → Carries c thread k x j → Carries c thread k x (suc j)
  unfolding unfold_frames bad_trace constraint_trace
  step-Carries j lt h =
      let u = unfold_frames c thread j in
      let w = unfold_step c thread u in
      let frame =
        unfold_frame-Lift c well h.σ (x j) h.constant u h.ready h.bounded h.respects
          (run.frames j lt) (h.reads lt) in
      let τ = frame.lift.lifted in
      let nodes = unfold_step_nodes c well h.σ (x j) thread u h.ready h.bounded frame in
      let false-τ = frame.lift.same 1 h.bounded.one ∙ h.constant in
      let respects = lifted-Respects c well h.σ (x j) thread u h.ready h.bounded frame in
      let (l, out, small, means) =
        lifted_output c well h.σ (x j) thread u h.ready h.bounded frame bad in
      let (ls, con, smalls, meanings) =
        lifted_constraints c well h.σ (x j) thread u h.ready h.bounded frame in
      record {
        σ = τ;
        constant = false-τ;
        respects = respects;
        bounded = unfold_step-IsBounded c well h.σ (x j) thread u h.ready h.bounded frame;
        ready =
            unfold_step-IsReady c well τ false-τ thread u
              (lifted-IsReady c well h.σ (x j) thread u h.ready h.bounded frame) respects;
        outputs = rw out (
            IsTrace-append (length u.nodes) (length w.nodes) h.σ τ u.outputs (l ∷ []) _ _ h.outputs
              frame.lift.same nodes (small, tt) (ap (λ b. b ∷ []) means));
        constraints = rw con (
            IsTrace-append (length u.nodes) (length w.nodes) h.σ τ u.constraints ls _ _
              h.constraints frame.lift.same nodes smalls meanings);
        reads = λ next.
            unfold_step-ReadsLatches c well h.σ (x j) thread u h.ready h.bounded frame (x (suc j))
              (run.steps j next);
      }

  pub run-Carries : (j : ℕ) → j ≤ k → Carries c thread k x j
  run-Carries zero le = start-Carries
  run-Carries (suc j) le = step-Carries j le (run-Carries j (omega arith))

-- Every run of a well-formed circuit over `k` frames from an initial state has an assignment of the unfolded variables
-- that makes variable 1 false, satisfies all unfolded gates of `k` frames, and gives the unfolded
-- outputs and constraints the values of the checked bad literal and of the constraints in each frame.
pub IsRun-unfold_frames :
    (c : Aiger) (thread k : ℕ) (x : ℕ → Assignment)
    → IsWellFormed c
    → IsVar (num_variables c) (checked_bad c thread)
    → IsRun c k x
    → (σ : Assignment) × (σ 1 ≡ false)
      × Respects σ (unfold_frames c thread k)
      × (map (holds σ) (unfold_frames c thread k).outputs ≡ bad_trace x (checked_bad c thread) k)
      × (map (holds σ) (unfold_frames c thread k).constraints ≡ constraint_trace x c.constraints k)
IsRun-unfold_frames c thread k x well bad run =
    let h = run-Carries c thread k x well bad run k (omega arith) in
    (h.σ, h.constant, h.respects, h.outputs.means, h.constraints.means)

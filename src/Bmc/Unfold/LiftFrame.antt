-- ===== src/Bmc/Unfold/LiftFrame.antt =====
-- A frame of the circuit, over the latches that the unfolded variables give, carries over.
use modelchecker.Common.{ℕ, ◌+◌, ◌≤◌, ◌<◌, ◌≡◌, sym, ◌∙◌, false, arith, pos, length, get_or}
use native.Mathlib.Decide.{dec_lt}
use modelchecker.Circuit.{Assignment, holds}
use modelchecker.Circuit.Run.{IsWellFormed, IsFrame, num_variables}
use modelchecker.Aiger.{Aiger, first_latch, first_ands_index}
use modelchecker.Bmc.Unfold.{Unfolding, unfold_inputs, unfold_frame}
use modelchecker.Bmc.Unfold.Extends.{Respects}
use modelchecker.Bmc.Unfold.Inputs.{unfold_inputs-KeepsGates, unfold_inputs_other}
use modelchecker.Bmc.Unfold.Gates.{Inv, unfold_gates-Inv}
use modelchecker.Bmc.Unfold.Frame.{IsReady, leaf-IsLiteral}
use modelchecker.Bmc.Unfold.Bounds.{IsBounded}
use modelchecker.Bmc.Unfold.Lift.{holds-SameBelow, entries-SameBelow, Inv-SameBelow, Lift}
use modelchecker.Bmc.Unfold.LiftGates.{Lift-trans, unfold_gates-Lift}
use modelchecker.Bmc.Unfold.LiftInputs.{InputsLift, unfold_inputs-Lift}

-- The unfolded latches have the values of `x` under `σ`.
abbrev pub ReadsLatches : Aiger → Assignment → Assignment → Unfolding → Type 0
ReadsLatches c σ x u =
    (v : ℕ) → first_latch c ≤ v → v < first_ands_index c → holds σ (get_or u.values v (pos 0)) ≡ x v

-- The frame `x` carried over to the unfolded variables.
pub record FrameLift (c : Aiger) (σ x : Assignment) (u w : Unfolding) : Type 0 where
  pub lift : Lift σ (length u.nodes) w
  pub inv : Inv lift.lifted x (num_variables c) w

module _ (c : Aiger) (well : IsWellFormed c) (σ x : Assignment) (σ-false : σ 1 ≡ false)
    (u : Unfolding) (ready : IsReady c σ u) (b : IsBounded u) (respects : Respects σ u)
    (frame : IsFrame c x) (reads : ReadsLatches c σ x u) where
  inputs-Lift : InputsLift σ x c.num_inputs 2 u (unfold_inputs c.num_inputs 2 u)
  inputs-Lift = unfold_inputs-Lift σ x c.num_inputs 2 u b respects (omega (arith, ready.sized))

  inputs-Inv : Inv inputs-Lift.lift.lifted x (first_ands_index c) (unfold_inputs c.num_inputs 2 u)
  inputs-Inv = record {
    agrees = record {
      constant = unfold_inputs_other c.num_inputs 2 1 u (omega arith) ∙ ready.constant;
      nonzero = leaf-IsLiteral c well σ σ-false u ready;
      same = leaf;
    };
    table = rw (unfold_inputs-KeepsGates c.num_inputs 2 u).table (λ k.
        entries-SameBelow (length u.nodes) σ inputs-Lift.lift.lifted inputs-Lift.lift.same
          (u.hash_table k) (b.table k) (ready.table k));
    nodes = omega (arith, ready.nodes, (unfold_inputs-KeepsGates c.num_inputs 2 u).nodes);
  }
    where
      constant : holds inputs-Lift.lift.lifted (pos 1) ≡ x 1
      constant = unfold holds in (inputs-Lift.lift.same 1 b.one ∙ σ-false ∙ sym frame.constant)

      leaf :
          (v : ℕ)
          → 1 ≤ v
          → v < first_ands_index c
          → holds inputs-Lift.lift.lifted (get_or (unfold_inputs c.num_inputs 2 u).values v (pos 0))
            ≡ x v
      leaf v lo hi = elim (dec_lt v 2) [
        | yes one ↦
            let here : v ≡ 1 = omega arith in
            rw (here, unfold_inputs_other c.num_inputs 2 1 u (omega arith), ready.constant) constant
        | no var ↦ elim (dec_lt v (2 + c.num_inputs)) [
          | yes input ↦ inputs-Lift.reads v (omega arith) input
          | no latch ↦ rw (unfold_inputs_other c.num_inputs 2 v u (omega arith)) (
              holds-SameBelow (length u.nodes) σ inputs-Lift.lift.lifted (get_or u.values v (pos 0))
                inputs-Lift.lift.same (b.small v)
              ∙ reads v (omega arith) hi)
        ]
      ]

  gates-Lift :
      Lift inputs-Lift.lift.lifted
        (length (unfold_inputs c.num_inputs 2 u).nodes)
        (unfold_frame c u)
  unfolding unfold_frame
  gates-Lift =
      unfold_gates-Lift (first_ands_index c) c.ands well.ordered frame.gates frame.constant
        inputs-Lift.lift.lifted (unfold_inputs c.num_inputs 2 u) (first_ands_index c) c.ands
        (inputs-Lift.lift.same 1 b.one ∙ σ-false) inputs-Inv (omega arith) well.ordered frame.gates
        room (omega arith) inputs-Lift.lift.bounded inputs-Lift.lift.respects
    where
      room : first_ands_index c + length c.ands ≤ length (unfold_inputs c.num_inputs 2 u).values
      room = rw (unfold_inputs-KeepsGates c.num_inputs 2 u).sized (omega (arith, ready.sized))

  -- The lifted frame: every variable of the circuit has an unfolded literal of its value in `x`.
  pub unfold_frame-Lift : FrameLift c σ x u (unfold_frame c u)
  unfolding unfold_frame
  unfold_frame-Lift = record {
    lift = Lift-trans inputs-Lift.lift gates-Lift;
    inv =
        unfold_gates-Inv (first_ands_index c) c.ands well.ordered frame.gates lifted-false
          frame.constant (unfold_inputs c.num_inputs 2 u) (first_ands_index c) c.ands
          (Inv-SameBelow inputs-Lift.lift.lifted gates-Lift.lifted x (first_ands_index c)
            (unfold_inputs c.num_inputs 2 u) gates-Lift.same inputs-Lift.lift.bounded inputs-Inv)
          (omega arith) well.ordered frame.gates
          (rw (unfold_inputs-KeepsGates c.num_inputs 2 u).sized (omega (arith, ready.sized)))
          (omega arith) gates-Lift.respects;
  }
    where
      lifted-false : gates-Lift.lifted 1 ≡ false
      lifted-false =
          gates-Lift.same 1 inputs-Lift.lift.bounded.one ∙ inputs-Lift.lift.same 1 b.one ∙ σ-false

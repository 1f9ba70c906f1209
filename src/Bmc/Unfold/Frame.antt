-- ===== src/Bmc/Unfold/Frame.antt =====
-- One frame of BMC::unfold: the unfolded literals mean what the circuit assigns to its variables.
use modelchecker.Common.{
  ℕ, ◌+◌, ◌≤◌, ◌<◌, ◌≡◌, refl, sym, ap, ◌∙◌, false, arith, pos, length, get_or, All,
}
use native.Mathlib.Decide.{dec_lt}
use modelchecker.Circuit.{Assignment, holds, IsLiteral}
use modelchecker.Circuit.Settle.{settle, settle_below, settle-GateHolds}
use modelchecker.Circuit.Run.{IsWellFormed, IsFrame, num_variables}
use modelchecker.Aiger.{Aiger, first_latch, first_ands_index}
use modelchecker.Bmc.Unfold.{Unfolding, unfold_inputs, unfold_frame}
use modelchecker.Bmc.Unfold.Updates.{IsEntry}
use modelchecker.Bmc.Unfold.Extends.{Respects, unfold_gates-Extends}
use modelchecker.Bmc.Unfold.Inputs.{
  unfold_inputs-KeepsGates, unfold_inputs_other, unfold_inputs-IsLiteral,
}
use modelchecker.Bmc.Unfold.Gates.{Inv, unfold_gates-Inv}

-- The state between two frames: the latches have their literals.
pub record IsReady (c : Aiger) (σ : Assignment) (u : Unfolding) : Type 0 where
  pub constant : get_or u.values 1 (pos 0) ≡ pos 1
  pub latches :
      (v : ℕ) → first_latch c ≤ v → v < first_ands_index c → IsLiteral (get_or u.values v (pos 0))
  pub table : (k : ℕ) → All (IsEntry σ) (u.hash_table k)
  pub nodes : 1 < length u.nodes
  pub sized : length u.values ≡ num_variables c

-- What `σ` makes of the frame that is unfolded next: its inputs and latches, and the gates over them.
unfoldable pub frame_leaves : Aiger → Assignment → Unfolding → Assignment
frame_leaves c σ u v = holds σ (get_or (unfold_inputs c.num_inputs 2 u).values v (pos 0))

unfoldable pub frame_assignment : Aiger → Assignment → Unfolding → Assignment
frame_assignment c σ u = settle c.ands (frame_leaves c σ u)

-- A frame keeps the number of values, the outputs and the constraints.
pub record IsKept (u v : Unfolding) : Type 0 where
  pub sized : length v.values ≡ length u.values
  pub outputs : v.outputs ≡ u.outputs
  pub constraints : v.constraints ≡ u.constraints

pub unfold_frame-IsKept : (c : Aiger) (u : Unfolding) → IsKept u (unfold_frame c u)
unfolding unfold_frame
unfold_frame-IsKept c u =
    let gates =
      unfold_gates-Extends (first_ands_index c) c.ands (unfold_inputs c.num_inputs 2 u) c.ands in
    let inputs = unfold_inputs-KeepsGates c.num_inputs 2 u in
    record {
      sized = gates.values ∙ inputs.sized;
      outputs = gates.outputs ∙ inputs.outputs;
      constraints = gates.constraints ∙ inputs.constraints;
    }

module _ (c : Aiger) (well : IsWellFormed c) (σ : Assignment) (σ-false : σ 1 ≡ false) where
  pub frame_assignment_leaf :
      (u : Unfolding) (v : ℕ)
      → v < first_ands_index c
      → frame_assignment c σ u v ≡ frame_leaves c σ u v
  unfolding frame_assignment
  frame_assignment_leaf u v lt = settle_below (first_ands_index c) c.ands _ v well.ordered lt

  pub frame_assignment-IsFrame :
      (u : Unfolding) → IsReady c σ u → IsFrame c (frame_assignment c σ u)
  frame_assignment-IsFrame u ready = record {
    constant =
        frame_assignment_leaf u 1 (omega arith)
        ∙ unfold frame_leaves in
          ap (holds σ) (unfold_inputs_other c.num_inputs 2 1 u (omega arith) ∙ ready.constant)
          ∙ unfold holds in σ-false;
    gates = unfold frame_assignment in settle-GateHolds (first_ands_index c) c.ands _ well.ordered;
  }

  pub leaf-IsLiteral :
      (u : Unfolding)
      → IsReady c σ u
      → (v : ℕ) → 1 ≤ v
      → v < first_ands_index c
      → IsLiteral (get_or (unfold_inputs c.num_inputs 2 u).values v (pos 0))
  leaf-IsLiteral u ready v lo hi = elim (dec_lt v 2) [
    | yes one ↦
        let here : v ≡ 1 = omega arith in
        rw (here, unfold_inputs_other c.num_inputs 2 1 u (omega arith), ready.constant)
          (omega arith)
    | no var ↦ elim (dec_lt v (2 + c.num_inputs)) [
      | yes input ↦
          unfold_inputs-IsLiteral c.num_inputs 2 v u (omega (arith, ready.nodes))
            (omega (arith, ready.sized)) (omega arith) input
      | no latch ↦
          rw (unfold_inputs_other c.num_inputs 2 v u (omega arith))
            (ready.latches v (omega arith) hi)
    ]
  ]

  leaves-Inv :
      (u : Unfolding)
      → IsReady c σ u
      → Inv σ (frame_assignment c σ u) (first_ands_index c) (unfold_inputs c.num_inputs 2 u)
  leaves-Inv u ready =
      let keeps = unfold_inputs-KeepsGates c.num_inputs 2 u in
      record {
        agrees = record {
          constant = unfold_inputs_other c.num_inputs 2 1 u (omega arith) ∙ ready.constant;
          nonzero = leaf-IsLiteral u ready;
          same = λ v lo hi. sym (frame_assignment_leaf u v hi ∙ unfold frame_leaves in refl);
        };
        table = rw keeps.table ready.table;
        nodes = omega (arith, ready.nodes, keeps.nodes);
      }

  -- After the frame every variable of the circuit has an unfolded literal of its value.
  pub unfold_frame-Inv :
      (u : Unfolding)
      → IsReady c σ u
      → Respects σ (unfold_frame c u)
      → Inv σ (frame_assignment c σ u) (num_variables c) (unfold_frame c u)
  unfolding unfold_frame
  unfold_frame-Inv u ready respects =
      let frame = frame_assignment-IsFrame u ready in
      unfold_gates-Inv (first_ands_index c) c.ands well.ordered frame.gates σ-false frame.constant
        (unfold_inputs c.num_inputs 2 u) (first_ands_index c) c.ands (leaves-Inv u ready)
        (omega arith) well.ordered frame.gates
        (rw (unfold_inputs-KeepsGates c.num_inputs 2 u).sized (omega (arith, ready.sized)))
        (omega arith) respects

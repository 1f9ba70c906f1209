-- ===== src/Bmc/Unfold/LiftInputs.antt =====
-- The fresh nodes of a frame's inputs can take any values.
use modelchecker.Common.{
  Bool, ℕ, zero, suc, ◌+◌, ◌≤◌, ◌<◌, ◌≡◌, refl, ap, ◌∙◌, [], ◌∷◌, ◌++◌, arith, pos, length, get_or,
  length-append, length-set, get_or-set_self,
}
use native.Mathlib.Decide.{dec_lt}
use modelchecker.Circuit.{Assignment, holds}
use modelchecker.Circuit.Order.{IsIncreasing-weaken}
use modelchecker.Circuit.Settle.{update, update_self, update_other}
use modelchecker.Bmc.Unfold.{Unfolding, Node, input_node, unfold_input, unfold_inputs}
use modelchecker.Bmc.Unfold.Extends.{Respects}
use modelchecker.Bmc.Unfold.Inputs.{unfold_inputs_other}
use modelchecker.Bmc.Unfold.Bounds.{IsBounded, set-IsSmall, IsSmall-weaken, IsBelow-weaken}
use modelchecker.Bmc.AndGate.Bounds.{IsSmall}
use modelchecker.Bmc.Unfold.Lift.{SameBelow, Respects-SameBelow, Lift}
use modelchecker.Bmc.Unfold.LiftGates.{Lift-refl, Lift-trans}

-- A fresh input node, with any value `b`, and values that speak of the nodes with it.
pub push_node-Lift :
    (σ : Assignment) (u w : Unfolding) (n : Node) (b : Bool)
    → IsBounded u
    → Respects σ u
    → w.nodes ≡ u.nodes ++ n ∷ []
    → w.hash_table ≡ u.hash_table
    → w.ands ≡ u.ands
    → IsSmall (suc (length u.nodes)) w.values
    → (h : Lift σ (length u.nodes) w) × (h.lifted (length u.nodes) ≡ b)
push_node-Lift σ u w n b h respects en et ea small = (
  record {
    lifted = τ;
    same = same;
    respects = rw ea (Respects-SameBelow σ τ u same h respects);
    bounded = record {
      one = rw size (omega (arith, h.one));
      small = rw size small;
      table =
          rw (size, et)
            (λ k. IsBelow-weaken (length u.nodes) _ (u.hash_table k) (h.table k) (omega arith));
      ands = rw (size, ea) (IsIncreasing-weaken 2 (length u.nodes) _ u.ands h.ands (omega arith));
    };
    nodes = rw size (omega arith);
  },
  update_self σ (length u.nodes) b,
)
  where
    τ : Assignment
    τ = update σ (length u.nodes) b

    same : SameBelow (length u.nodes) σ τ
    same v lt = update_other σ (length u.nodes) v b (omega arith)

    size : length w.nodes ≡ suc (length u.nodes)
    size = rw (en, length-append) (omega arith)

-- The lifted assignment reads the inputs of `x`.
pub record InputsLift (σ x : Assignment) (n v : ℕ) (u w : Unfolding) : Type 0 where
  pub lift : Lift σ (length u.nodes) w
  pub reads : (k : ℕ) → v ≤ k → k < v + n → holds lift.lifted (get_or w.values k (pos 0)) ≡ x k

pub unfold_inputs-Lift :
    (σ x : Assignment) (n v : ℕ) (u : Unfolding)
    → IsBounded u
    → Respects σ u
    → v + n ≤ length u.values
    → InputsLift σ x n v u (unfold_inputs n v u)
unfolding unfold_inputs
unfold_inputs-Lift σ x zero v u b respects room = record {
  lift = Lift-refl σ u b respects;
  reads = λ k lo hi. absurd (omega arith);
}
unfold_inputs-Lift σ x (suc n) v u b respects room =
    let u' = unfold_input u v in
    let (one, new) = first in
    let rest =
      unfold_inputs-Lift one.lifted x n (suc v) u' one.bounded one.respects
        (unfold unfold_input in rw length-set (omega arith)) in
    record {
      lift = Lift-trans one rest.lift;
      reads = λ k lo hi. elim (dec_lt v k) [
        | yes later ↦ rest.reads k (omega arith) (omega arith)
        | no here ↦
            let same : k ≡ v = omega arith in
            rw same (
              ap (holds rest.lift.lifted)
                (unfold_inputs_other n (suc v) v u' (omega arith) ∙ written)
              ∙ fresh rest.lift.lifted one.lifted (rest.lift.same (length u.nodes) grown) new)
      ];
    }
  where
    first : (h : Lift σ (length u.nodes) (unfold_input u v)) × (h.lifted (length u.nodes) ≡ x v)
    first =
        unfold unfold_input in
        push_node-Lift σ u (unfold_input u v) input_node (x v) b respects refl refl refl (
          set-IsSmall (suc (length u.nodes)) u.values v (pos (length u.nodes))
            (IsSmall-weaken (length u.nodes) (suc (length u.nodes)) u.values b.small (omega arith))
            (omega arith))

    written : get_or (unfold_input u v).values v (pos 0) ≡ pos (length u.nodes)
    written =
        unfold unfold_input in
        get_or-set_self u.values v (pos (length u.nodes)) (pos 0) (omega arith)

    grown : length u.nodes < length (unfold_input u v).nodes
    grown = unfold unfold_input in rw length-append (omega arith)

    fresh :
        (ρ τ : Assignment)
        → ρ (length u.nodes) ≡ τ (length u.nodes)
        → τ (length u.nodes) ≡ x v
        → holds ρ (pos (length u.nodes)) ≡ x v
    fresh ρ τ e f = unfold holds in (e ∙ f)

-- ===== src/Bmc/Unfold/Inputs.antt =====
-- The loop of BMC::unfold over the inputs: each gets a fresh variable, and nothing else changes.
use modelchecker.Common.{
  ℕ, zero, suc, ◌+◌, ◌≤◌, ◌<◌, ◌≡◌, ◌⊎◌, refl, ◌∙◌, [], ◌∷◌, arith, pos, length, get_or,
  length-append, length-set, get_or-set_self, get_or-set_other,
}
use native.Mathlib.Decide.{dec_lt}
use modelchecker.Circuit.{IsLiteral}
use modelchecker.Bmc.Unfold.{Unfolding, unfold_input, unfold_inputs}

-- What the loop leaves alone.
pub record KeepsGates (u w : Unfolding) : Type 0 where
  pub table : w.hash_table ≡ u.hash_table
  pub ands : w.ands ≡ u.ands
  pub nodes : length u.nodes ≤ length w.nodes
  pub outputs : w.outputs ≡ u.outputs
  pub constraints : w.constraints ≡ u.constraints
  pub sized : length w.values ≡ length u.values

pub unfold_inputs-KeepsGates : (n v : ℕ) (u : Unfolding) → KeepsGates u (unfold_inputs n v u)
unfolding unfold_inputs unfold_input
unfold_inputs-KeepsGates zero v u = record {
  table = refl;
  ands = refl;
  nodes = omega arith;
  outputs = refl;
  constraints = refl;
  sized = refl;
}
unfold_inputs-KeepsGates (suc n) v u =
    let h = unfold_inputs-KeepsGates n (suc v) (unfold_input u v) in
    record {
      table = h.table;
      ands = h.ands;
      nodes = omega (arith, h.nodes, length-append {0} u.nodes (_ ∷ []));
      outputs = h.outputs;
      constraints = h.constraints;
      sized = h.sized ∙ length-set u.values v _;
    }

pub unfold_inputs_other :
    (n v k : ℕ) (u : Unfolding)
    → (k < v) ⊎ (v + n ≤ k)
    → get_or (unfold_inputs n v u).values k (pos 0) ≡ get_or u.values k (pos 0)
unfolding unfold_inputs unfold_input
unfold_inputs_other zero v k u out = refl
unfold_inputs_other (suc n) v k u out =
    unfold_inputs_other n (suc v) k (unfold_input u v) (omega arith)
    ∙ get_or-set_other u.values v k _ (pos 0) (omega arith)

pub unfold_inputs-IsLiteral :
    (n v k : ℕ) (u : Unfolding)
    → 0 < length u.nodes
    → v + n ≤ length u.values
    → v ≤ k
    → k < v + n
    → IsLiteral (get_or (unfold_inputs n v u).values k (pos 0))
unfolding unfold_inputs unfold_input
unfold_inputs-IsLiteral zero v k u nodes room lo hi = absurd (omega arith)
unfold_inputs-IsLiteral (suc n) v k u nodes room lo hi = elim (dec_lt v k) [
  | yes later ↦
      unfold_inputs-IsLiteral n (suc v) k (unfold_input u v) (rw length-append (omega arith))
        (rw length-set (omega arith)) (omega arith) (omega arith)
  | no first ↦
      let here : k ≡ v = omega arith in
      rw
        (
          here,
          unfold_inputs_other n (suc v) v (unfold_input u v) (omega arith),
          get_or-set_self u.values v _ (pos 0) (omega arith),
        )
        nodes
]

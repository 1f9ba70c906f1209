-- ===== src/Bmc/Unfold/Extends.antt =====
-- The unfolding only grows: its gates are added at the end.
use modelchecker.Common.{ℕ, ◌≡◌, inl, inr, refl, sym, ap, ◌∙◌}
use modelchecker.Common.{List, [], ◌∷◌, ◌++◌, Bool-cases, ℤ, pos, abs, ◌==ℤ◌}
use modelchecker.Common.{length, set, All, All-left, length-set}
use mathlib.Core.List.{append-nil, append_assoc}
use modelchecker.Circuit.{And, Assignment, GateHolds}
use modelchecker.Bmc.AndGate.{value}
use modelchecker.Bmc.Unfold.{
  Unfolding, find_gate, simplify, new_gate, share_gate, unfold_gate, unfold_gates,
}

-- The unfolded gates hold under `σ`.
abbrev pub Respects : Assignment → Unfolding → Type 0
Respects σ u = All (GateHolds σ) u.ands

-- What a round of the loop keeps: the number of values, the gates that were unfolded so far, the outputs and
-- the constraints.
pub record Extends (u v : Unfolding) : Type 0 where
  pub values : length v.values ≡ length u.values
  pub ands : (extra : List And) × (v.ands ≡ u.ands ++ extra)
  pub outputs : v.outputs ≡ u.outputs
  pub constraints : v.constraints ≡ u.constraints

pub new_gate-Extends : (u : Unfolding) (o : ℕ) (i1 i2 : ℤ) → Extends u (new_gate u o i1 i2)
unfolding new_gate
new_gate-Extends u o i1 i2 = record {
  values = length-set u.values o _;
  ands = (_, refl);
  outputs = refl;
  constraints = refl;
}

pub share_gate-Extends : (u : Unfolding) (o : ℕ) (i1 i2 : ℤ) → Extends u (share_gate u o i1 i2)
unfolding share_gate
share_gate-Extends u o i1 i2 =
    elim (Bool-cases (find_gate i1 i2 (u.hash_table (abs i1)) (pos 0) ==ℤ pos 0)) [
      | inl missing ↦ rw missing (new_gate-Extends u o i1 i2)
      | inr found ↦ rw found (record {
        values = length-set u.values o _;
        ands = ([], sym (append-nil u.ands));
        outputs = refl;
        constraints = refl;
      })
    ]

pub unfold_gate-Extends :
    (first : ℕ) (ands : List And) (u : Unfolding) (g : And) → Extends u (unfold_gate first ands u g)
unfolding unfold_gate
unfold_gate-Extends first ands u g =
    elim (Bool-cases (simplify first ands (set u.values g.o (pos 0)) g.i1 g.i2 ==ℤ pos 0)) [
      | inl nothing ↦
          let e =
            share_gate-Extends (record u { values = set u.values g.o (pos 0) }) g.o
              (value (set u.values g.o (pos 0)) g.i1) (value (set u.values g.o (pos 0)) g.i2) in
          rw nothing (record {
            values = e.values ∙ length-set u.values g.o _;
            ands = e.ands;
            outputs = e.outputs;
            constraints = e.constraints;
          })
      | inr simple ↦ rw simple (record {
        values = length-set _ g.o _ ∙ length-set u.values g.o _;
        ands = ([], sym (append-nil u.ands));
        outputs = refl;
        constraints = refl;
      })
    ]

pub Extends-trans : {u v w : Unfolding} → Extends u v → Extends v w → Extends u w
Extends-trans {u} h k = record {
  values = k.values ∙ h.values;
  ands = (
    h.ands.0 ++ k.ands.0,
    k.ands.1
        ∙ ap (λ (l : List And). l ++ k.ands.0) h.ands.1
        ∙ append_assoc u.ands h.ands.0 k.ands.0,
  );
  outputs = k.outputs ∙ h.outputs;
  constraints = k.constraints ∙ h.constraints;
}

pub Extends-Respects :
    {u v : Unfolding} (σ : Assignment) → Extends u v → Respects σ v → Respects σ u
Extends-Respects {u} σ h r = All-left (GateHolds σ) u.ands h.ands.0 (rw h.ands.1 at r)

pub unfold_gates-Extends :
    (first : ℕ) (ands : List And) (u : Unfolding) (gs : List And)
    → Extends u (unfold_gates first ands u gs)
unfolding unfold_gates
unfold_gates-Extends first ands u [] = record {
  values = refl;
  ands = ([], sym (append-nil u.ands));
  outputs = refl;
  constraints = refl;
}
unfold_gates-Extends first ands u (g ∷ gs) =
    Extends-trans (unfold_gate-Extends first ands u g)
      (unfold_gates-Extends first ands (unfold_gate first ands u g) gs)

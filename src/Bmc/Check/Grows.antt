-- ===== src/Bmc/Check/Grows.antt =====
-- The gates of a new frame have the variables of its new nodes.
use modelchecker.Common.{
  ℕ, ◌≤◌, ◌≡◌, refl, sym, ap, ◌∙◌, inl, inr, Bool-cases, List, [], ◌∷◌, ◌++◌, arith, ℤ, pos, abs,
  length, set, All, All-append, length-append, ◌==ℤ◌,
}
use mathlib.Core.List.{append-nil, append_assoc}
use modelchecker.Circuit.{And}
use modelchecker.Aiger.{Aiger, first_ands_index}
use modelchecker.Bmc.AndGate.{value}
use modelchecker.Bmc.Unfold.{
  Unfolding, find_gate, simplify, new_gate, share_gate, unfold_gate, unfold_gates, unfold_frame,
  unfold_inputs, unfold_step, unfold_latches, unfold_output, unfold_constraints,
}
use modelchecker.Bmc.Unfold.Updates.{length-add_father}
use modelchecker.Bmc.Unfold.Inputs.{unfold_inputs-KeepsGates}

pub record Grows (u w : Unfolding) : Type 0 where
  pub nodes : length u.nodes ≤ length w.nodes
  pub ands : (extra : List And) × (w.ands ≡ u.ands ++ extra) × All (λ g. length u.nodes ≤ g.o) extra

Grows-refl : (u w : Unfolding) → w.ands ≡ u.ands → w.nodes ≡ u.nodes → Grows u w
Grows-refl u w e nodes = record {
  nodes = rw nodes (omega arith);
  ands = ([], e ∙ sym (append-nil u.ands), tt);
}

new_gate-Grows : (u : Unfolding) (o : ℕ) (i1 i2 : ℤ) → Grows u (new_gate u o i1 i2)
unfolding new_gate
new_gate-Grows u o i1 i2 = record {
  nodes =
      rw (length-add_father, length-add_father) (omega (arith, length-append {0} u.nodes (_ ∷ [])));
  ands = (_, refl, (omega arith, tt));
}

share_gate-Grows : (u : Unfolding) (o : ℕ) (i1 i2 : ℤ) → Grows u (share_gate u o i1 i2)
unfolding share_gate
share_gate-Grows u o i1 i2 =
    elim (Bool-cases (find_gate i1 i2 (u.hash_table (abs i1)) (pos 0) ==ℤ pos 0)) [
      | inl missing ↦ rw missing (new_gate-Grows u o i1 i2)
      | inr shared ↦ rw shared (Grows-refl u _ refl refl)
    ]

unfold_gate-Grows :
    (first : ℕ) (ands : List And) (u : Unfolding) (g : And) → Grows u (unfold_gate first ands u g)
unfolding unfold_gate
unfold_gate-Grows first ands u g =
    elim (Bool-cases (simplify first ands (set u.values g.o (pos 0)) g.i1 g.i2 ==ℤ pos 0)) [
      | inl nothing ↦
          let h =
            share_gate-Grows (record u { values = set u.values g.o (pos 0) }) g.o
              (value (set u.values g.o (pos 0)) g.i1) (value (set u.values g.o (pos 0)) g.i2) in
          rw nothing (record { nodes = h.nodes; ands = h.ands })
      | inr simple ↦ rw simple (Grows-refl u _ refl refl)
    ]

weaken : (n m : ℕ) (gs : List And) → n ≤ m → All (λ g. m ≤ g.o) gs → All (λ g. n ≤ g.o) gs
weaken n m [] le h = tt
weaken n m (g ∷ gs) le (h, hs) = (omega arith, weaken n m gs le hs)

Grows-trans : {u v w : Unfolding} → Grows u v → Grows v w → Grows u w
Grows-trans {u} {v} h k =
    let (xs, ex, ax) = h.ands in
    let (ys, ey, ay) = k.ands in
    record {
      nodes = omega (arith, h.nodes, k.nodes);
      ands = (
        xs ++ ys,
        ey ∙ ap (λ (l : List And). l ++ ys) ex ∙ append_assoc u.ands xs ys,
        All-append (λ g. length u.nodes ≤ g.o) xs ys ax
            (weaken (length u.nodes) (length v.nodes) ys h.nodes ay),
      );
    }

unfold_gates-Grows :
    (first : ℕ) (ands : List And) (u : Unfolding) (gs : List And)
    → Grows u (unfold_gates first ands u gs)
unfolding unfold_gates
unfold_gates-Grows first ands u [] = Grows-refl u u refl refl
unfold_gates-Grows first ands u (g ∷ gs) =
    Grows-trans (unfold_gate-Grows first ands u g)
      (unfold_gates-Grows first ands (unfold_gate first ands u g) gs)

pub unfold_step-Grows : (c : Aiger) (thread : ℕ) (u : Unfolding) → Grows u (unfold_step c thread u)
unfolding unfold_step unfold_latches unfold_output unfold_constraints unfold_frame
unfold_step-Grows c thread u =
    let inputs = unfold_inputs-KeepsGates c.num_inputs 2 u in
    let w = unfold_inputs c.num_inputs 2 u in
    let h = unfold_gates-Grows (first_ands_index c) c.ands w c.ands in
    let (xs, ex, ax) = h.ands in
    record {
      nodes = rw length-add_father (omega (arith, inputs.nodes, h.nodes));
      ands = (
        xs,
        ex ∙ ap (λ (l : List And). l ++ xs) inputs.ands,
        weaken (length u.nodes) (length w.nodes) xs inputs.nodes ax,
      );
    }

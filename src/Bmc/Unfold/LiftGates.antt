-- ===== src/Bmc/Unfold/LiftGates.antt =====
-- The gates of a frame, over any assignment of its inputs and latches.
use modelchecker.Common.{
  ℕ, suc, ◌+◌, ◌≤◌, ◌<◌, ◌≡◌, inl, inr, ◌∙◌, subst, false, Bool-cases, List, [], ◌∷◌, arith, ℤ, pos,
  abs, ◌==ℤ◌, length, set, All,
}
use modelchecker.Circuit.{And, Assignment, IsLiteral, GateHolds}
use modelchecker.Circuit.Order.{IsOrderedFrom}
use modelchecker.Bmc.AndGate.{value}
use modelchecker.Bmc.AndGate.Agrees.{Agrees, value-Agrees}
use modelchecker.Bmc.AndGate.Bounds.{IsSmall, abs-value-lt}
use modelchecker.Bmc.Unfold.{Unfolding, find_gate, simplify, share_gate, unfold_gate, unfold_gates}
use modelchecker.Bmc.Unfold.Updates.{set_above-Agrees}
use modelchecker.Bmc.Unfold.Extends.{Respects, unfold_gate-Extends}
use modelchecker.Bmc.Unfold.Gates.{Inv, unfold_gate-Inv}
use modelchecker.Bmc.Unfold.Bounds.{IsBounded, set-IsSmall, simplify-lt, find_gate-lt}
use modelchecker.Bmc.Unfold.Lift.{Inv-SameBelow, Lift, new_gate-Lift, values-Lift}

pub Lift-refl :
    (σ : Assignment) (u : Unfolding) → IsBounded u → Respects σ u → Lift σ (length u.nodes) u
Lift-refl σ u b respects = values-Lift σ u u.values b respects b.small

abbrev pub Lift-trans :
    {σ : Assignment} {n : ℕ} {v w : Unfolding} (h : Lift σ n v)
    → Lift h.lifted (length v.nodes) w
    → Lift σ n w
Lift-trans h k = record {
  lifted = k.lifted;
  same = λ i lt. k.same i (omega (arith, h.nodes)) ∙ h.same i lt;
  respects = k.respects;
  bounded = k.bounded;
  nodes = omega (arith, h.nodes, k.nodes);
}

share_gate-Lift :
    (σ : Assignment) (u : Unfolding) (o : ℕ) (i1 i2 : ℤ)
    → IsBounded u
    → Respects σ u
    → IsLiteral i1
    → abs i1 < length u.nodes
    → IsLiteral i2
    → abs i2 < length u.nodes
    → Lift σ (length u.nodes) (share_gate u o i1 i2)
unfolding share_gate
share_gate-Lift σ u o i1 i2 b respects l1 b1 l2 b2 =
    elim (Bool-cases (find_gate i1 i2 (u.hash_table (abs i1)) (pos 0) ==ℤ pos 0)) [
      | inl missing ↦ rw missing (new_gate-Lift σ u o i1 i2 b respects l1 b1 l2 b2)
      | inr found ↦ rw found (
          values-Lift σ u _ b respects (
            set-IsSmall (length u.nodes) u.values o _ b.small (
              find_gate-lt (length u.nodes) i1 i2 (u.hash_table (abs i1)) (pos 0) (b.table (abs i1))
                (omega (arith, b.one)))))
    ]

module _ {x : Assignment} (first : ℕ) (ands : List And) (ordered : IsOrderedFrom first ands)
    (gates : All (GateHolds x) ands) (x-false : x 1 ≡ false) where
  unfold_gate-Lift :
      (σ : Assignment) (u : Unfolding) (g : And)
      → Inv σ x g.o u
      → 1 < g.o
      → IsLiteral g.i1
      → abs g.i1 < g.o
      → IsLiteral g.i2
      → abs g.i2 < g.o
      → IsBounded u
      → Respects σ u
      → Lift σ (length u.nodes) (unfold_gate first ands u g)
  unfolding unfold_gate
  unfold_gate-Lift σ u g h two l1 lt1 l2 lt2 b respects =
      elim (Bool-cases (simplify first ands cleared g.i1 g.i2 ==ℤ pos 0)) [
        | inl nothing ↦ rw nothing (
            share_gate-Lift σ (record u { values = cleared }) g.o (value cleared g.i1)
              (value cleared g.i2)
              (record { one = b.one; small = small; table = b.table; ands = b.ands }) respects
              (value-Agrees agrees g.i1 l1 lt1).0 (abs-value-lt n cleared g.i1 small)
              (value-Agrees agrees g.i2 l2 lt2).0 (abs-value-lt n cleared g.i2 small))
        | inr simple ↦ rw simple (
            values-Lift σ u _ b respects (
              set-IsSmall n cleared g.o _ small
                (simplify-lt n first ands cleared g.i1 g.i2 b.one small)))
      ]
    where
      n : ℕ
      n = length u.nodes

      cleared : List ℤ
      cleared = set u.values g.o (pos 0)

      small : IsSmall (length u.nodes) (set u.values g.o (pos 0))
      small = set-IsSmall (length u.nodes) u.values g.o (pos 0) b.small (omega (arith, b.one))

      agrees : Agrees σ x (set u.values g.o (pos 0)) g.o
      agrees = set_above-Agrees h.agrees g.o (pos 0) two (omega arith)

  -- Whatever the unfolded variables are before the loop, the new ones can be given values.
  pub unfold_gates-Lift :
      (σ : Assignment) (u : Unfolding) (n : ℕ) (gs : List And)
      → σ 1 ≡ false
      → Inv σ x n u
      → 1 < n
      → IsOrderedFrom n gs
      → All (GateHolds x) gs
      → n + length gs ≤ length u.values
      → n + length gs ≤ first + length ands
      → IsBounded u
      → Respects σ u
      → Lift σ (length u.nodes) (unfold_gates first ands u gs)
  unfolding unfold_gates
  unfold_gates-Lift σ u n [] c h two o gs room le b respects = Lift-refl σ u b respects
  unfold_gates-Lift σ u n (g ∷ gs) c h two (o, h1, l1, h2, l2, os) (gate, hs) room le b respects =
      let u' = unfold_gate first ands u g in
      let here : Inv σ x g.o u = rw (← o) at h in
      let lift =
        unfold_gate-Lift σ u g here (omega arith) h1 (omega arith) h2 (omega arith) b respects in
      let τ = lift.lifted in
      let false-τ : τ 1 ≡ false = lift.same 1 b.one ∙ c in
      let step =
        unfold_gate-Inv first ands ordered gates false-τ x-false u g
          (Inv-SameBelow σ τ x g.o u lift.same b here) (omega arith) (omega arith) (omega arith) h1
          (omega arith) h2 (omega arith) gate lift.respects in
      Lift-trans lift (
        unfold_gates-Lift τ u' (suc n) gs false-τ (subst (λ k. Inv τ x (suc k) u') o step)
          (omega arith) os hs (rw (unfold_gate-Extends first ands u g).values (omega arith))
          (omega arith) lift.bounded lift.respects)

-- ===== src/Bmc/Unfold/Gates.antt =====
-- The loop of BMC::unfold over the gates: each variable gets an unfolded literal of its value.
use Prim.Native.Nat.{max}
use modelchecker.Common.{ℕ, suc, ◌+◌, ◌≤◌, ◌<◌, ◌≡◌, ◌⊎◌, inl, inr, refl, sym, ◌∙◌, false, ◌&&◌}
use modelchecker.Common.{List, [], ◌∷◌, arith, ℤ, pos, abs, ◌==ℤ◌}
use modelchecker.Common.{length, set, All, All-right, length-append, length-set}
use mathlib.Core.Path.{subst}
use modelchecker.Circuit.{And, Assignment, holds, IsLiteral, GateHolds}
use modelchecker.Circuit.Order.{IsOrderedFrom}
use modelchecker.Bmc.AndGate.{value}
use modelchecker.Bmc.AndGate.Agrees.{Agrees, value-Agrees}
use modelchecker.Bmc.AndGate.Sound.{aig_and_returns}
use modelchecker.Bmc.Unfold.{Unfolding, simplify, new_gate, share_gate, unfold_gate, unfold_gates}
use modelchecker.Bmc.Unfold.Updates.{
  set-Agrees, set_above-Agrees, length-add_father, IsEntry, find_gate-Means, push_bucket-All,
}
use modelchecker.Bmc.Unfold.Extends.{
  Respects, Extends-Respects, unfold_gate-Extends, unfold_gates-Extends,
}

-- The state of the loop before the gate of variable `n`: `σ` assigns the unfolded variables, and
-- `x` the circuit's.
pub record Inv (σ x : Assignment) (n : ℕ) (u : Unfolding) : Type 0 where
  pub agrees : Agrees σ x u.values n
  pub table : (k : ℕ) → All (IsEntry σ) (u.hash_table k)
  pub nodes : 1 < length u.nodes

nonzero-test : (r : ℤ) → IsLiteral r → (r ==ℤ pos 0) ≡ false
nonzero-test r lit = ground arith

new_gate-Inv :
    {σ x : Assignment} {n : ℕ} {u : Unfolding}
    → Inv σ x n u
    → (i1 i2 : ℤ) → 1 < n
    → n < length u.values
    → x n ≡ (holds σ i1 && holds σ i2)
    → Respects σ (new_gate u n i1 i2)
    → Inv σ x (suc n) (new_gate u n i1 i2)
unfolding new_gate
new_gate-Inv {σ} {x} {n} {u} h i1 i2 two room e respects =
    let gate = (All-right (GateHolds σ) u.ands _ respects).0 in
    let a : And = record { o = length u.nodes; i1 = i1; i2 = i2 } in
    let entry : IsEntry σ a = (omega (arith, h.nodes), gate) in
    record {
      agrees =
          set-Agrees h.agrees (pos (length u.nodes)) two room (omega (arith, h.nodes))
            (unfold holds in gate ∙ sym e);
      table =
          push_bucket-All σ _ (abs i2) _ (push_bucket-All σ u.hash_table (abs i1) _ h.table entry)
            entry;
      nodes = rw (length-add_father, length-add_father, length-append) (omega (arith, h.nodes));
    }

share_gate-Inv :
    {σ x : Assignment} {n : ℕ} {u : Unfolding}
    → Inv σ x n u
    → (i1 i2 : ℤ) → 1 < n
    → n < length u.values
    → x n ≡ (holds σ i1 && holds σ i2)
    → Respects σ (share_gate u n i1 i2)
    → Inv σ x (suc n) (share_gate u n i1 i2)
unfolding share_gate
share_gate-Inv {σ} {x} {n} {u} h i1 i2 two room e respects =
    elim (find_gate-Means σ i1 i2 (u.hash_table (abs i1)) (pos 0) (h.table (abs i1)) (inl refl)) [
      | inl missing ↦ rw missing (new_gate-Inv h i1 i2 two room e (rw missing at respects))
      | inr (lit, means) ↦ rw (nonzero-test _ lit) (record {
        agrees = set-Agrees h.agrees _ two room lit (means ∙ sym e);
        table = h.table;
        nodes = h.nodes;
      })
    ]

module _ {σ x : Assignment} (first : ℕ) (ands : List And) (ordered : IsOrderedFrom first ands)
    (gates : All (GateHolds x) ands) (σ-false : σ 1 ≡ false) (x-false : x 1 ≡ false) where
  simplify-Means :
      {n : ℕ} {values : List ℤ}
      → Agrees σ x values n
      → (p q : ℤ) → 1 < n
      → n ≤ first + length ands
      → IsLiteral p
      → IsLiteral q
      → abs p < n
      → abs q < n
      → (simplify first ands values p q ≡ pos 0)
        ⊎ IsLiteral (simplify first ands values p q)
          × (holds σ (simplify first ands values p q) ≡ (holds x p && holds x q))
  unfolding simplify
  simplify-Means {n} {values} agrees p q two room hp hq lp lq =
      let (r, returns, means) =
        aig_and_returns first ands values n agrees ordered gates σ-false x-false two room
          (suc (max (abs p) (abs q))) p q hp hq lp lq (omega arith) in
      rw (returns, simplify) means

  pub unfold_gate-Inv :
      (u : Unfolding) (g : And)
      → Inv σ x g.o u
      → 1 < g.o
      → g.o < length u.values
      → g.o ≤ first + length ands
      → IsLiteral g.i1
      → abs g.i1 < g.o
      → IsLiteral g.i2
      → abs g.i2 < g.o
      → GateHolds x g
      → Respects σ (unfold_gate first ands u g)
      → Inv σ x (suc g.o) (unfold_gate first ands u g)
  unfolding unfold_gate
  unfold_gate-Inv u g h two room le h1 l1 h2 l2 gate respects =
      elim (simplify-Means cleared g.i1 g.i2 two le h1 h2 l1 l2) [
        | inl nothing ↦ rw nothing (
            share_gate-Inv (record { agrees = cleared; table = h.table; nodes = h.nodes })
              (value values g.i1) (value values g.i2) two still_room (rw (e1, e2) gate)
              (rw nothing at respects))
        | inr (lit, means) ↦ rw (nonzero-test _ lit) (record {
          agrees = set-Agrees cleared _ two still_room lit (means ∙ sym gate);
          table = h.table;
          nodes = h.nodes;
        })
      ]
    where
      values : List ℤ
      values = set u.values g.o (pos 0)

      cleared : Agrees σ x (set u.values g.o (pos 0)) g.o
      cleared = set_above-Agrees h.agrees g.o (pos 0) two (omega arith)

      still_room : g.o < length (set u.values g.o (pos 0))
      still_room = rw length-set room

      e1 : holds σ (value (set u.values g.o (pos 0)) g.i1) ≡ holds x g.i1
      e1 = (value-Agrees cleared g.i1 h1 l1).1

      e2 : holds σ (value (set u.values g.o (pos 0)) g.i2) ≡ holds x g.i2
      e2 = (value-Agrees cleared g.i2 h2 l2).1

module _ {σ x : Assignment} (first : ℕ) (ands : List And) (ordered : IsOrderedFrom first ands)
    (gates : All (GateHolds x) ands) (σ-false : σ 1 ≡ false) (x-false : x 1 ≡ false) where
  pub unfold_gates-Inv :
      (u : Unfolding) (n : ℕ) (gs : List And)
      → Inv σ x n u
      → 1 < n
      → IsOrderedFrom n gs
      → All (GateHolds x) gs
      → n + length gs ≤ length u.values
      → n + length gs ≤ first + length ands
      → Respects σ (unfold_gates first ands u gs)
      → Inv σ x (n + length gs) (unfold_gates first ands u gs)
  unfolding unfold_gates
  unfold_gates-Inv u n [] h two o gs room le respects = let e : n + 0 ≡ n = omega arith in rw e h
  unfold_gates-Inv u n (g ∷ gs) h two (o, h1, l1, h2, l2, os) (gate, hs) room le respects =
      let u' = unfold_gate first ands u g in
      let extends = unfold_gate-Extends first ands u g in
      let respects' = Extends-Respects σ (unfold_gates-Extends first ands u' gs) respects in
      let step =
        unfold_gate-Inv first ands ordered gates σ-false x-false u g (rw (← o) at h) (omega arith)
          (omega arith) (omega arith) h1 (omega arith) h2 (omega arith) gate respects' in
      let shift : n + suc (length gs) ≡ suc n + length gs = omega arith in
      rw shift (
        unfold_gates-Inv u' (suc n) gs (subst (λ k. Inv σ x (suc k) u') o step) (omega arith) os hs
          (rw extends.values (omega arith)) (omega arith) respects)

-- ===== src/Bmc/AndGate/Sound.antt =====
-- `Aig_And` returns an unfolded literal that means the conjunction.
use modelchecker.Common.{ℕ, zero, suc, ◌+◌, ◌≤◌, ◌<◌, ◌≡◌, ◌≢◌, ◌⊎◌, false, ◌&&◌}
use modelchecker.Common.{some, List, leb, Bool-cases, arith, inl, inr}
use modelchecker.Common.{ℤ, pos, negsuc, abs, neg, length, All, leb→le, neg-neg, ap, sym, ◌∙◌}
use Prim.Native.Nat.{max}
use mathlib.Core.Bool.{and_comm}
use modelchecker.Circuit.{And, Assignment, holds, IsLiteral, GateHolds}
use modelchecker.Circuit.Order.{IsOrderedFrom, get_or-IsGate}
use modelchecker.Bmc.AndGate.{
  value, Outcome, result, again, gate_of, left_child, right_child, strash_side, aig_and_step,
  aig_and,
}
use modelchecker.Bmc.AndGate.Agrees.{Agrees, value-Agrees, value-neg-abs}
use modelchecker.Bmc.AndGate.Cases.{
  Promises, trivial-holds, strash-Promises, strash-again, trivial-none, Outcome-cases, step-cases,
}
use modelchecker.Bmc.AndGate.Parent.{IsParent, gate-IsParent, leaf-IsParent}

module _ {σ x : Assignment} (first : ℕ) (ands : List And) (values : List ℤ) (n : ℕ)
    (agrees : Agrees σ x values n) (ordered : IsOrderedFrom first ands)
    (gates : All (GateHolds x) ands) (σ-false : σ 1 ≡ false) (x-false : x 1 ≡ false) (two : 1 < n)
    (room : n ≤ first + length ands) where
  children-IsParent :
      (p : ℤ)
      → IsLiteral p
      → abs p < n
      → IsParent x first n p (left_child first ands values p) (right_child first ands values p)
  unfolding left_child right_child holds
  children-IsParent p h lt = elim (Bool-cases (leb first (abs p))) [
    | inl gate ↦ rw gate (
        gate-IsParent x first n p (gate_of first ands values p) lt (
          get_or-IsGate x _ ands first (abs p) ordered gates (leb→le first (abs p) gate)
            (omega arith)))
    | inr leaf ↦ rw leaf (leaf-IsParent x first n p x-false two h lt leaf)
  ]

  strash_side-Promises :
      (p q : ℤ) (r : Outcome)
      → IsLiteral p
      → IsLiteral q
      → abs p < n
      → abs q < n
      → strash_side first ands values p q ≡ some r
      → Promises σ x r (holds x p && holds x q)
  unfolding strash_side
  strash_side-Promises p q r hp hq lp lq e =
      let fa = left_child first ands values p in
      let fb = right_child first ands values p in
      let parent = children-IsParent p hp lp in
      let (vp, ep) = value-Agrees agrees p hp lp in
      let (vq, eq) = value-Agrees agrees q hq lq in
      let (va, ea) = value-Agrees agrees fa parent.left parent.left_lt in
      let (vb, eb) = value-Agrees agrees fb parent.right parent.right_lt in
      rw (← ep, ← eq)
        (strash-Promises σ x p (value values p) (value values q) fa fb (value values fa)
          (value values fb) r σ-false vp vq parent.left parent.right ea eb
          (rw (ep, ea, eb) parent.conjunction) e)

  -- A call of itself goes below the gate whose children it is on.
  strash_side-again :
      (p q q0 q1 : ℤ)
      → IsLiteral p
      → IsLiteral q
      → abs p < n
      → value values p ≢ neg (value values q)
      → abs (value values q) ≢ 1
      → strash_side first ands values p q ≡ some (again q0 q1)
      → (abs q0 < abs p) × (abs q1 < abs p)
  unfolding strash_side
  strash_side-again p q q0 q1 hp hq lp ne one e =
      let fa = left_child first ands values p in
      let fb = right_child first ands values p in
      let parent = children-IsParent p hp lp in
      let (sign, kids) =
        strash-again p (value values p) (value values q) fa fb (value values fa) (value values fb)
          q0 q1 e in
      elim (Bool-cases (leb first (abs p))) [
        | inl gate ↦
            let below = parent.shrinks (leb→le first (abs p) gate) in
            elim kids [ inl (a, b, _) ↦ omega arith | inr (a, b, _) ↦ omega arith ]
        | inr leaf ↦ absurd (elim kids [
          | inl (_, _, vb) ↦ one (ap abs (sym vb ∙ right_leaf leaf))
          | inr (_, _, va) ↦ ne (value-neg-abs values p sign ∙ ap neg (sym (left_leaf leaf) ∙ va))
        ])
      ]
    where
      left_leaf :
          leb first (abs p) ≡ false
          → value values (left_child first ands values p) ≡ value values (pos (abs p))
      left_leaf leaf = unfold left_child in rw leaf

      right_leaf :
          leb first (abs p) ≡ false → value values (right_child first ands values p) ≡ negsuc 0
      right_leaf leaf = unfold right_child value in rw (leaf) (ap neg agrees.constant)

  step-Promises :
      (p q : ℤ) (r : Outcome)
      → IsLiteral p
      → IsLiteral q
      → abs p < n
      → abs q < n
      → aig_and_step first ands values p q ≡ r
      → (r ≡ result (pos 0)) ⊎ Promises σ x r (holds x p && holds x q)
  step-Promises p q r hp hq lp lq e = elim (step-cases first ands values p q r e) [
    | inl (r0, t, same) ↦
        let (vp, ep) = value-Agrees agrees p hp lp in
        let (vq, eq) = value-Agrees agrees q hq lq in
        inr (rw same (rw (← ep, ← eq) (trivial-holds σ _ _ r0 σ-false vp vq t)))
    | inr (inl (_, s)) ↦ inr (strash_side-Promises p q r hp hq lp lq s)
    | inr (inr (inl (_, s))) ↦
        inr (rw (and_comm (holds x p) (holds x q)) (strash_side-Promises q p r hq hp lq lp s))
    | inr (inr (inr zero_result)) ↦ inl zero_result
  ]

  -- The calls go down: both new literals are below the larger of the old ones.
  step-again-lt :
      (p q q0 q1 : ℤ)
      → IsLiteral p
      → IsLiteral q
      → abs p < n
      → abs q < n
      → aig_and_step first ands values p q ≡ again q0 q1
      → (abs q0 < max (abs p) (abs q)) × (abs q1 < max (abs p) (abs q))
  step-again-lt p q q0 q1 hp hq lp lq e = elim (step-cases first ands values p q (again q0 q1) e) [
    | inl (r0, t, same) ↦ cc
    | inr (inl (t, s)) ↦
        let (ne, _, one) = trivial-none _ _ t in
        omega (arith, strash_side-again p q q0 q1 hp hq lp ne one s)
    | inr (inr (inl (t, s))) ↦
        let (ne, one, _) = trivial-none _ _ t in
        omega (
          arith,
          strash_side-again q p q0 q1 hq hp lq (λ w. ne (sym (neg-neg _) ∙ ap neg (sym w))) one s,
        )
    | inr (inr (inr zero_result)) ↦ cc
  ]

  -- Where the values below `n` mean what `x` assigns to the circuit's variables, the gates are in
  -- topological order and hold under `x`, variable 1 is false under both assignments, and `n` is
  -- above 1 and at most the number of variables: with more fuel than the larger variable of two
  -- literals of variables below `n`, `Aig_And` returns; unless it returns 0, which says that nothing
  -- applied, its result is an unfolded literal that means the conjunction of the two.
  pub aig_and_returns :
      (fuel : ℕ) (p q : ℤ)
      → IsLiteral p
      → IsLiteral q
      → abs p < n
      → abs q < n
      → max (abs p) (abs q) < fuel
      → (r : ℤ) × (aig_and first ands values fuel p q ≡ some r)
        × ((r ≡ pos 0) ⊎ IsLiteral r × (holds σ r ≡ (holds x p && holds x q)))
  unfolding aig_and
  aig_and_returns zero p q hp hq lp lq enough = absurd (omega arith)
  aig_and_returns (suc fuel) p q hp hq lp lq enough =
      elim (Outcome-cases (aig_and_step first ands values p q)) [
        | inl (r, e) ↦
            (r, rw (e, aig_and), result_case r (step-Promises p q (result r) hp hq lp lq e))
        | inr (q0, q1, e) ↦
            let (l0, l1) = step-again-lt p q q0 q1 hp hq lp lq e in
            let (h0, h1, same) = again_case q0 q1 (step-Promises p q (again q0 q1) hp hq lp lq e) in
            let (r, returns, meaning) =
              aig_and_returns fuel q0 q1 h0 h1 (omega arith) (omega arith) (omega arith) in
            (r, rw (e, aig_and) returns, rw same at meaning)
      ]
    where
      result_case :
          (r : ℤ)
          → (result r ≡ result (pos 0)) ⊎ Promises σ x (result r) (holds x p && holds x q)
          → (r ≡ pos 0) ⊎ IsLiteral r × (holds σ r ≡ (holds x p && holds x q))
      result_case r (inl e) = inl (cc)
      result_case r (inr h) = inr h

      again_case :
          (q0 q1 : ℤ)
          → (again q0 q1 ≡ result (pos 0)) ⊎ Promises σ x (again q0 q1) (holds x p && holds x q)
          → Promises σ x (again q0 q1) (holds x p && holds x q)
      again_case q0 q1 (inl e) = cc
      again_case q0 q1 (inr h) = h

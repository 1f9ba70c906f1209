-- ===== src/Bmc/AndGate/Parent.antt =====
-- The grandsons that `Aig_And` looks at: a literal is the conjunction of its two children.
use modelchecker.Common.{ℕ, ◌≤◌, ◌<◌, ◌≡◌, refl, false, not}
use modelchecker.Common.{leb, if◌then◌else◌, arith}
use modelchecker.Common.{ℤ, pos, negsuc, abs, is_neg, ap, sym, ◌∙◌}
use modelchecker.Circuit.{And, Assignment, holds, IsLiteral}
use modelchecker.Circuit.Order.{IsGate}
use modelchecker.Bmc.AndGate.{}
use modelchecker.Bmc.AndGate.Cases.{ChildrenOf}

-- What a node's children are to it.
pub record IsParent (x : Assignment) (first n : ℕ) (p fa fb : ℤ) : Type 0 where
  pub left : IsLiteral fa
  pub left_lt : abs fa < n
  pub right : IsLiteral fb
  pub right_lt : abs fb < n
  pub conjunction : ChildrenOf p (holds x p) (holds x fa) (holds x fb)
  pub shrinks : first ≤ abs p → (abs fa < abs p) × (abs fb < abs p)

-- The literal `p` means the variable |p|, negated if `p` is negative.
pub holds-abs :
    (x : Assignment) (p : ℤ) → holds x p ≡ (if is_neg p then not (x (abs p)) else x (abs p))
unfolding holds
holds-abs x (pos n) = refl
holds-abs x (negsuc n) = refl

pub gate-IsParent :
    (x : Assignment) (first n : ℕ) (p : ℤ) (g : And)
    → abs p < n
    → IsGate x (abs p) g
    → IsParent x first n p g.i1 g.i2
gate-IsParent x first n p g lt h = record {
  left = h.left;
  left_lt = omega arith;
  right = h.right;
  right_lt = omega arith;
  conjunction =
      holds-abs x p ∙ ap (λ b. if is_neg p then not b else b) (sym (ap x h.output) ∙ h.holds_gate);
  shrinks = λ _. (h.left_lt, h.right_lt);
}

pub leaf-IsParent :
    (x : Assignment) (first n : ℕ) (p : ℤ)
    → x 1 ≡ false
    → 1 < n
    → IsLiteral p
    → abs p < n
    → leb first (abs p) ≡ false
    → IsParent x first n p (pos (abs p)) (negsuc 0)
unfolding holds
leaf-IsParent x first n p c two h lt leaf = record {
  left = h;
  left_lt = lt;
  right = omega arith;
  right_lt = two;
  conjunction = ground (arith, holds-abs x p);
  shrinks = λ gate. absurd (ground arith);
}

-- ===== src/Circuit/Settle.antt =====
-- Evaluating the gates in order, over any assignment of the inputs and latches.
use modelchecker.Common.{
  ℕ, suc, ◌<◌, ◌≡◌, ◌≢◌, refl, sym, ap, ap₂, ◌∙◌, ◌&&◌, List, [], ◌∷◌, ◌==◌, if◌then◌else◌, Bool,
  arith, ℤ, pos, negsuc, abs, All, not,
}
use modelchecker.Circuit.{And, Assignment, holds, GateHolds}
use modelchecker.Circuit.Order.{IsOrderedFrom}

unfoldable pub update : Assignment → ℕ → Bool → Assignment
update a k b v = if k == v then b else a v

-- The meaning of the circuit: each gate takes the conjunction of what its inputs have by then.
unfoldable pub settle : List And → Assignment → Assignment
settle [] a = a
settle (g ∷ gs) a = settle gs (update a g.o (holds a g.i1 && holds a g.i2))

pub update_other : (a : Assignment) (k v : ℕ) (b : Bool) → k ≢ v → update a k b v ≡ a v
unfolding update
update_other a k v b h = ground arith

pub update_self : (a : Assignment) (k : ℕ) (b : Bool) → update a k b k ≡ b
unfolding update
update_self a k b = ground arith

-- Variables below the gates keep their value.
pub settle_below :
    (n : ℕ) (gs : List And) (a : Assignment) (v : ℕ)
    → IsOrderedFrom n gs
    → v < n
    → settle gs a v ≡ a v
unfolding settle
settle_below n [] a v o lt = refl
settle_below n (g ∷ gs) a v (e, _, _, _, _, o) lt =
    settle_below (suc n) gs _ v o (omega arith) ∙ update_other a g.o v _ (omega arith)

pub holds-agree : (a b : Assignment) (l : ℤ) → a (abs l) ≡ b (abs l) → holds a l ≡ holds b l
unfolding holds
holds-agree a b (pos n) e = e
holds-agree a b (negsuc n) e = ap not e

-- After the evaluation every gate holds.
pub settle-GateHolds :
    (n : ℕ) (gs : List And) (a : Assignment) → IsOrderedFrom n gs → All (GateHolds (settle gs a)) gs
unfolding settle
settle-GateHolds n [] a o = tt
settle-GateHolds n (g ∷ gs) a (e, _, l1, _, l2, o) =
    let a' = update a g.o (holds a g.i1 && holds a g.i2) in
    let out = settle_below (suc n) gs a' g.o o (omega arith) ∙ update_self a g.o _ in
    let in1 = holds-agree (settle gs a') a g.i1 (
      settle_below (suc n) gs a' (abs g.i1) o (omega arith)
      ∙ update_other a g.o _ _ (omega arith)) in
    let in2 = holds-agree (settle gs a') a g.i2 (
      settle_below (suc n) gs a' (abs g.i2) o (omega arith)
      ∙ update_other a g.o _ _ (omega arith)) in
    (out ∙ sym (ap₂ ◌&&◌ in1 in2), settle-GateHolds (suc n) gs a' o)

-- ===== src/Bmc/Check/Keeps.antt =====
-- Evaluating all gates keeps the variables whose gates hold already.
use modelchecker.Common.{
  ℕ, zero, suc, ◌≤◌, ◌<◌, ◌≡◌, refl, sym, ap₂, ◌∙◌, ◌&&◌, some, List, [], ◌∷◌, arith, abs,
  get_elem?, All,
}
use native.Mathlib.Decide.{ℕ_discrete}
use modelchecker.Circuit.{And, Assignment, holds, GateHolds, IsLiteral}
use modelchecker.Circuit.Order.{IsIncreasing, IsIncreasing-le}
use modelchecker.Circuit.Settle.{update, settle, update_other, update_self, holds-agree}

-- The variables of `P` are closed under the inputs of their gates, which hold under `σ`.
abbrev pub IsClosed : (ℕ → Type 0) → Assignment → And → Type 0
IsClosed P σ g = P g.o → GateHolds σ g × P (abs g.i1) × P (abs g.i2)

pub settle-keeps :
    (P : ℕ → Type 0) (σ : Assignment) (gs : List And) (a : Assignment)
    → All (IsClosed P σ) gs
    → ((v : ℕ) → P v → a v ≡ σ v)
    → (v : ℕ) → P v
    → settle gs a v ≡ σ v
unfolding settle
settle-keeps P σ [] a closed same v p = same v p
settle-keeps P σ (g ∷ gs) a (here, closed) same v p = settle-keeps P σ gs _ closed step v p
  where
    step : (w : ℕ) → P w → update a g.o (holds a g.i1 && holds a g.i2) w ≡ σ w
    step w q = elim (ℕ_discrete g.o w) [
      | yes e ↦
          let (gate, left, right) = here (rw e q) in
          rw (← e) (
            update_self a g.o _
            ∙ ap₂ ◌&&◌ (holds-agree a σ g.i1 (same (abs g.i1) left))
                (holds-agree a σ g.i2 (same (abs g.i2) right))
            ∙ sym gate)
      | no ne ↦ update_other a g.o w _ ne ∙ same w q
    ]

pub settle_under :
    (n end : ℕ) (gs : List And) (a : Assignment) (v : ℕ)
    → IsIncreasing n end gs
    → v < n
    → settle gs a v ≡ a v
unfolding settle
settle_under n end [] a v h lt = refl
settle_under n end (g ∷ gs) a v (o, _, _, _, _, h) lt =
    settle_under (suc g.o) end gs _ v h (omega arith) ∙ update_other a g.o v _ (omega arith)

-- After the evaluation every gate holds.
pub settle-IsIncreasing :
    (n end : ℕ) (gs : List And) (a : Assignment)
    → IsIncreasing n end gs
    → All (GateHolds (settle gs a)) gs
unfolding settle
settle-IsIncreasing n end [] a h = tt
settle-IsIncreasing n end (g ∷ gs) a (o, _, l1, _, l2, h) =
    let a' = update a g.o (holds a g.i1 && holds a g.i2) in
    let out = settle_under (suc g.o) end gs a' g.o h (omega arith) ∙ update_self a g.o _ in
    let in1 = holds-agree (settle gs a') a g.i1 (
      settle_under (suc g.o) end gs a' (abs g.i1) h (omega arith)
      ∙ update_other a g.o _ _ (omega arith)) in
    let in2 = holds-agree (settle gs a') a g.i2 (
      settle_under (suc g.o) end gs a' (abs g.i2) h (omega arith)
      ∙ update_other a g.o _ _ (omega arith)) in
    (out ∙ sym (ap₂ ◌&&◌ in1 in2), settle-IsIncreasing (suc g.o) end gs a' h)

pub increasing_least :
    (n end : ℕ) (gs : List And) (i : ℕ) (a : And)
    → IsIncreasing n end gs
    → get_elem? gs i ≡ some a
    → n ≤ a.o
increasing_least n end [] i a h e = cc
increasing_least n end (g ∷ gs) zero a (o, _, _, _, _, _) e = let same : g ≡ a = cc in rw (← same) o
increasing_least n end (g ∷ gs) (suc i) a (o, _, _, _, _, h) e =
    omega (arith, increasing_least (suc g.o) end gs i a h e)

-- Later gates have greater variables, and the inputs of a gate are smaller ones.
pub increasing_lt :
    (n end : ℕ) (gs : List And) (i k : ℕ) (a b : And)
    → IsIncreasing n end gs
    → get_elem? gs i ≡ some a
    → get_elem? gs k ≡ some b
    → i < k
    → a.o < b.o
increasing_lt n end [] i k a b h e f lt = cc
increasing_lt n end (g ∷ gs) i zero a b h e f lt = absurd (omega arith)
increasing_lt n end (g ∷ gs) zero (suc k) a b (_, _, _, _, _, h) e f lt =
    let same : g ≡ a = cc in rw (← same) (increasing_least (suc g.o) end gs k b h f)
increasing_lt n end (g ∷ gs) (suc i) (suc k) a b (_, _, _, _, _, h) e f lt =
    increasing_lt (suc g.o) end gs i k a b h e f (omega arith)

pub increasing_inputs :
    (n end : ℕ) (gs : List And) (i : ℕ) (a : And)
    → IsIncreasing n end gs
    → get_elem? gs i ≡ some a
    → (n ≤ a.o)
      × IsLiteral a.i1
      × (abs a.i1 < a.o)
      × IsLiteral a.i2
      × (abs a.i2 < a.o)
      × (a.o < end)
increasing_inputs n end [] i a h e = cc
increasing_inputs n end (g ∷ gs) zero a (o, l1, b1, l2, b2, h) e =
    let same : g ≡ a = cc in rw (← same) (o, l1, b1, l2, b2, IsIncreasing-le (suc g.o) end gs h)
increasing_inputs n end (g ∷ gs) (suc i) a (o, _, _, _, _, h) e =
    let (o', l1, b1, l2, b2, lt) = increasing_inputs (suc g.o) end gs i a h e in
    (omega arith, l1, b1, l2, b2, lt)

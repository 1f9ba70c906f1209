-- ===== src/Circuit/Unique.antt =====
-- A frame is determined by its inputs and latches.
use modelchecker.Common.{
  ℕ, suc, ◌+◌, ◌≤◌, ◌<◌, ◌≡◌, refl, sym, ap₂, ◌∙◌, ◌&&◌, List, [], ◌∷◌, All, arith, abs, length,
}
use mathlib.Core.Path.{fun_ext}
use native.Mathlib.Decide.{ℕ_discrete}
use modelchecker.Circuit.{And, Assignment, holds, GateHolds}
use modelchecker.Circuit.Order.{IsOrderedFrom}
use modelchecker.Circuit.Settle.{update, settle, update_other, update_self, holds-agree}

pub update-eq : (x : Assignment) (k : ℕ) → update x k (x k) ≡ x
update-eq x k = fun_ext λ v. elim (ℕ_discrete k v) [
  | yes e ↦ rw (← e) (update_self x k (x k))
  | no ne ↦ update_other x k v (x k) ne
]

-- Evaluating gates that hold changes nothing.
pub settle-eq : (gs : List And) (x : Assignment) → All (GateHolds x) gs → settle gs x ≡ x
unfolding settle
settle-eq [] x h = refl
settle-eq (g ∷ gs) x (gate, gates) =
    let same : update x g.o (holds x g.i1 && holds x g.i2) ≡ x = rw (← gate) (update-eq x g.o) in
    rw same (settle-eq gs x gates)

-- The evaluation reads its assignment below the gates only.
pub settle-agree :
    (n : ℕ) (gs : List And) (x y : Assignment)
    → IsOrderedFrom n gs
    → ((v : ℕ) → 1 ≤ v → v < n → x v ≡ y v)
    → (v : ℕ) → 1 ≤ v
    → v < n + length gs
    → settle gs x v ≡ settle gs y v
unfolding settle
settle-agree n [] x y o same v one lt = same v one (omega arith)
settle-agree n (g ∷ gs) x y (e, l1, lt1, l2, lt2, o) same v one lt =
    settle-agree (suc n) gs (update x g.o (holds x g.i1 && holds x g.i2))
      (update y g.o (holds y g.i1 && holds y g.i2)) o step v one (omega arith)
  where
    step :
        (w : ℕ)
        → 1 ≤ w
        → w < suc n
        → update x g.o (holds x g.i1 && holds x g.i2) w
          ≡ update y g.o (holds y g.i1 && holds y g.i2) w
    step w one' lt' = elim (ℕ_discrete g.o w) [
      | yes eq ↦ rw (← eq) (
          update_self x g.o _
          ∙ ap₂ ◌&&◌ (holds-agree x y g.i1 (same (abs g.i1) l1 lt1))
              (holds-agree x y g.i2 (same (abs g.i2) l2 lt2))
          ∙ sym (update_self y g.o _))
      | no ne ↦
          update_other x g.o w _ ne ∙ same w one' (omega arith) ∙ sym (update_other y g.o w _ ne)
    ]

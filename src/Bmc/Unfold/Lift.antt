-- ===== src/Bmc/Unfold/Lift.antt =====
-- Every assignment of the circuit carries over to the unfolded variables: a new gate is a new
-- variable, which takes the value of the gate.
use modelchecker.Common.{
  ℕ, suc, ◌≤◌, ◌<◌, ◌≡◌, refl, sym, ap₂, ◌∙◌, ◌&&◌, List, [], ◌∷◌, arith, ℤ, pos, abs, length,
  get_or, All, All-append, length-append,
}
use modelchecker.Circuit.{And, Assignment, holds, IsLiteral, GateHolds}
use modelchecker.Circuit.Order.{IsIncreasing, IsIncreasing-le}
use modelchecker.Circuit.Settle.{update, update_self, update_other, holds-agree}
use modelchecker.Bmc.AndGate.Bounds.{IsSmall}
use modelchecker.Bmc.Unfold.{Unfolding, new_gate}
use modelchecker.Bmc.Unfold.Updates.{IsEntry, length-add_father}
use modelchecker.Bmc.Unfold.Extends.{Respects}
use modelchecker.Bmc.Unfold.Gates.{Inv}
use modelchecker.Bmc.Unfold.Bounds.{IsBelow, IsBounded, new_gate-IsBounded}

-- The two assignments are the same on the nodes that there are.
abbrev pub SameBelow : ℕ → Assignment → Assignment → Type 0
SameBelow n σ τ = (v : ℕ) → v < n → τ v ≡ σ v

pub holds-SameBelow :
    (n : ℕ) (σ τ : Assignment) (l : ℤ) → SameBelow n σ τ → abs l < n → holds τ l ≡ holds σ l
holds-SameBelow n σ τ l h lt = holds-agree τ σ l (h (abs l) lt)

module _ (n : ℕ) (σ τ : Assignment) (same : SameBelow n σ τ) where
  GateHolds-SameBelow : (g : And) → IsBelow n g → GateHolds σ g → GateHolds τ g
  GateHolds-SameBelow g (lo, l1, l2) h =
      same g.o lo
      ∙ h
      ∙ sym (ap₂ ◌&&◌ (holds-SameBelow n σ τ g.i1 same l1) (holds-SameBelow n σ τ g.i2 same l2))

  pub entries-SameBelow :
      (gs : List And) → All (IsBelow n) gs → All (IsEntry σ) gs → All (IsEntry τ) gs
  entries-SameBelow [] b h = tt
  entries-SameBelow (g ∷ gs) (b, bs) ((p, h), hs) =
      ((p, GateHolds-SameBelow g b h), entries-SameBelow gs bs hs)

  gates-SameBelow :
      (k : ℕ) (gs : List And) → IsIncreasing k n gs → All (GateHolds σ) gs → All (GateHolds τ) gs
  gates-SameBelow k [] inc h = tt
  gates-SameBelow k (g ∷ gs) (_, _, l1, _, l2, inc) (h, hs) =
      let room = IsIncreasing-le (suc g.o) n gs inc in
      (
        GateHolds-SameBelow g (omega arith, omega arith, omega arith) h,
        gates-SameBelow (suc g.o) gs inc hs,
      )

-- The agreement of the values, the table and the gates goes by the nodes alone.
pub Inv-SameBelow :
    (σ τ x : Assignment) (n : ℕ) (u : Unfolding)
    → SameBelow (length u.nodes) σ τ
    → IsBounded u
    → Inv σ x n u
    → Inv τ x n u
Inv-SameBelow σ τ x n u same b h = record {
  agrees = record {
    constant = h.agrees.constant;
    nonzero = h.agrees.nonzero;
    same = λ v lo hi.
        holds-SameBelow (length u.nodes) σ τ (get_or u.values v (pos 0)) same (b.small v)
        ∙ h.agrees.same v lo hi;
  };
  table = λ k. entries-SameBelow (length u.nodes) σ τ same (u.hash_table k) (b.table k) (h.table k);
  nodes = h.nodes;
}

pub Respects-SameBelow :
    (σ τ : Assignment) (u : Unfolding)
    → SameBelow (length u.nodes) σ τ
    → IsBounded u
    → Respects σ u
    → Respects τ u
Respects-SameBelow σ τ u same b h = gates-SameBelow (length u.nodes) σ τ same 2 u.ands b.ands h

-- An assignment of the nodes of `w` that keeps `σ` on the first `n`, and satisfies the gates of `w`.
pub record Lift (σ : Assignment) (n : ℕ) (w : Unfolding) : Type 0 where
  pub lifted : Assignment
  pub same : SameBelow n σ lifted
  pub respects : Respects lifted w
  pub bounded : IsBounded w
  pub nodes : n ≤ length w.nodes

pub new_gate-Lift :
    (σ : Assignment) (u : Unfolding) (o : ℕ) (i1 i2 : ℤ)
    → IsBounded u
    → Respects σ u
    → IsLiteral i1
    → abs i1 < length u.nodes
    → IsLiteral i2
    → abs i2 < length u.nodes
    → Lift σ (length u.nodes) (new_gate u o i1 i2)
new_gate-Lift σ u o i1 i2 b respects l1 b1 l2 b2 = record {
  lifted = τ;
  same = same;
  respects =
      unfold new_gate in
      All-append (GateHolds τ) u.ands _ (Respects-SameBelow σ τ u same b respects) (new, tt);
  bounded = new_gate-IsBounded u o i1 i2 b l1 b1 l2 b2;
  nodes = unfold new_gate in rw (length-add_father, length-add_father, length-append) (omega arith);
}
  where
    τ : Assignment
    τ = update σ (length u.nodes) (holds σ i1 && holds σ i2)

    same : SameBelow (length u.nodes) σ τ
    same v lt = update_other σ (length u.nodes) v _ (omega arith)

    new : τ (length u.nodes) ≡ (holds τ i1 && holds τ i2)
    new =
        update_self σ (length u.nodes) _
        ∙ sym (
            ap₂ ◌&&◌ (holds-SameBelow (length u.nodes) σ τ i1 same b1)
              (holds-SameBelow (length u.nodes) σ τ i2 same b2))

-- Where only the values change, to small ones.
pub values-Lift :
    (σ : Assignment) (u : Unfolding) (values : List ℤ)
    → IsBounded u
    → Respects σ u
    → IsSmall (length u.nodes) values
    → Lift σ (length u.nodes) (record u { values = values })
values-Lift σ u values b respects small = record {
  lifted = σ;
  same = λ v lt. refl;
  respects = respects;
  bounded = record { one = b.one; small = small; table = b.table; ands = b.ands };
  nodes = omega arith;
}

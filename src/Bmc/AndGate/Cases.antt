-- ===== src/Bmc/AndGate/Cases.antt =====
-- The single cases of `Aig_And`: what each returns, and which calls it makes of itself.
use modelchecker.Common.{ℕ, zero, suc, ◌≡◌, ◌≢◌, ◌⊎◌, refl, Bool, true, false, not, ◌&&◌}
use modelchecker.Common.{none, some, List, if◌then◌else◌, Option-cases, arith, inl, inr}
use modelchecker.Common.{ℤ, pos, negsuc, abs, neg, is_neg, ==ℤ→eq, abs-neg, ==ℤ_refl}
use modelchecker.Circuit.{And, Assignment, holds, IsLiteral, holds-neg}
use modelchecker.Bmc.AndGate.{
  value, Outcome, result, again, trivial, strash, or_else, strash_side, aig_and_step,
}

-- The trivial cases give the conjunction.
pub trivial-holds :
    (σ : Assignment) (v0 v1 r : ℤ)
    → σ 1 ≡ false
    → IsLiteral v0
    → IsLiteral v1
    → trivial v0 v1 ≡ some r
    → IsLiteral r × (holds σ r ≡ (holds σ v0 && holds σ v1))
unfolding trivial holds
trivial-holds σ v0 v1 r c h0 h1 e = ground (arith)

abbrev pub ChildrenOf : ℤ → Bool → Bool → Bool → Type 0
ChildrenOf p b ba bb = b ≡ (if is_neg p then not (ba && bb) else ba && bb)

-- What an outcome promises of the conjunction `b`.
abbrev pub Promises : (σ x : Assignment) → Outcome → Bool → Type 0
Promises σ x (result r) b = IsLiteral r × (holds σ r ≡ b)
Promises σ x (again q0 q1) b = IsLiteral q0 × IsLiteral q1 × ((holds x q0 && holds x q1) ≡ b)

module _ (σ x : Assignment) where
  pub strash-Promises :
      (p v w fa fb va vb : ℤ) (r : Outcome)
      → σ 1 ≡ false
      → IsLiteral v
      → IsLiteral w
      → IsLiteral fa
      → IsLiteral fb
      → holds σ va ≡ holds x fa
      → holds σ vb ≡ holds x fb
      → ChildrenOf p (holds σ v) (holds σ va) (holds σ vb)
      → strash p v w fa fb va vb ≡ some r
      → Promises σ x r (holds σ v && holds σ w)
  unfolding strash
  strash-Promises (pos zero) v w fa fb va vb r c h hw ha hb ea eb hv e = cc
  strash-Promises (pos (suc p)) v w fa fb va vb (result r) c h hw ha hb ea eb hv e =
      unfold holds in ground (arith, holds-neg σ w hw)
  strash-Promises (pos (suc p)) v w fa fb va vb (again q0 q1) c h hw ha hb ea eb hv e = ground arith
  strash-Promises (negsuc p) v w fa fb va vb (result r) c h hw ha hb ea eb hv e =
      ground (arith, holds-neg σ w hw, ==ℤ→eq va (neg w), ==ℤ→eq vb (neg w))
  strash-Promises (negsuc p) v w fa fb va vb (again q0 q1) c h hw ha hb ea eb hv e = ground (
    arith,
    holds-neg x fa ha,
    holds-neg x fb hb,
    abs-neg fa,
    abs-neg fb,
    ==ℤ→eq va w,
    ==ℤ→eq vb w,
  )

-- A call of itself is on the children of a negated gate, one of them negated.
pub strash-again :
    (p v w fa fb va vb q0 q1 : ℤ)
    → strash p v w fa fb va vb ≡ some (again q0 q1)
    → (is_neg p ≡ true)
      × ((abs q0 ≡ abs fa) × (abs q1 ≡ abs fb) × (vb ≡ w)
          ⊎ (abs q0 ≡ abs fb) × (abs q1 ≡ abs fa) × (va ≡ w))
unfolding strash
strash-again p v w fa fb va vb q0 q1 e =
    ground (arith, abs-neg fa, abs-neg fb, ==ℤ→eq va w, ==ℤ→eq vb w)

pub trivial-none : (v w : ℤ) → trivial v w ≡ none → (v ≢ neg w) × (abs v ≢ 1) × (abs w ≢ 1)
unfolding trivial
trivial-none v w h = ground (arith, ==ℤ_refl v)

pub Outcome-cases :
    (o : Outcome) → ((r : ℤ) × (o ≡ result r)) ⊎ ((q0 : ℤ) × (q1 : ℤ) × (o ≡ again q0 q1))
Outcome-cases (result r) = inl (r, refl)
Outcome-cases (again q0 q1) = inr (q0, q1, refl)

pub step-cases :
    (first : ℕ) (ands : List And) (values : List ℤ) (p q : ℤ) (r : Outcome)
    → aig_and_step first ands values p q ≡ r
    → ((r0 : ℤ) × (trivial (value values p) (value values q) ≡ some r0) × (r ≡ result r0))
      ⊎ (trivial (value values p) (value values q) ≡ none)
        × (strash_side first ands values p q ≡ some r)
      ⊎ (trivial (value values p) (value values q) ≡ none)
        × (strash_side first ands values q p ≡ some r)
      ⊎ (r ≡ result (pos 0))
unfolding aig_and_step or_else
step-cases first ands values p q r e =
    elim (Option-cases (trivial (value values p) (value values q))) [
      | inl open_case ↦ inr (ground arith)
      | inr (r0, t) ↦ inl (r0, t, ground arith)
    ]

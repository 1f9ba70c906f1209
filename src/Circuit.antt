-- ===== src/Circuit.antt =====
-- AND gates (class And of aig.hpp) and what a DIMACS literal means under an assignment.
pub mod Order
pub mod Settle
pub mod Run
pub mod Unique
use modelchecker.Common.{
  ℕ, suc, ◌+◌, ◌<◌, ◌≡◌, refl, Bool, not, ◌&&◌, ℤ, pos, negsuc, abs, neg, arith,
}

-- `o` is the gate's variable (an int in the source, asserted to be positive).
pub record And : Type 0 where
  pub o : ℕ
  pub i1 : ℤ
  pub i2 : ℤ

abbrev pub Assignment : Type 0
Assignment = ℕ → Bool

-- The truth of a literal: a negative one negates its variable.
unfoldable pub holds : Assignment → ℤ → Bool
holds a (pos n) = a n
holds a (negsuc n) = not (a (suc n))

abbrev pub IsLiteral : ℤ → Type 0
IsLiteral l = 0 < abs l

-- The output of the gate is the conjunction of its inputs.
abbrev pub GateHolds : Assignment → And → Type 0
GateHolds a g = a g.o ≡ (holds a g.i1 && holds a g.i2)

pub holds-neg : (a : Assignment) (l : ℤ) → IsLiteral l → holds a (neg l) ≡ not (holds a l)
unfolding holds
holds-neg a l h = ground arith

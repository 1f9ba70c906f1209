-- ===== src/Bmc/AndGate.antt =====
-- BMC::Aig_And of BMC.cpp: the two-level simplification of one AND gate.
pub mod Agrees
mod Cases
mod Parent
pub mod Sound
pub mod Bounds
use modelchecker.Common.{ℕ, zero, suc, ◌-◌, ◌||◌, Option, none, some, List, leb}
use modelchecker.Common.{
  if◌then◌else◌, ◌==◌, ℤ, pos, negsuc, abs, neg, is_pos, is_neg, ◌==ℤ◌, get_or,
}
use modelchecker.Circuit.{And}

-- The macro `value`: primitive variables to unfolded variables.
unfoldable pub value : List ℤ → ℤ → ℤ
value values rc =
    if is_pos rc then get_or values (abs rc) (pos 0) else neg (get_or values (abs rc) (pos 0))

-- What one call of `Aig_And` does: it returns a literal, 0 if nothing applies, or calls itself.
pub data Outcome : Type 0 where
  result : ℤ → Outcome
  again : ℤ → ℤ → Outcome

-- The trivial cases.
unfoldable pub trivial : ℤ → ℤ → Option ℤ
trivial v0 v1 =
    if v0 ==ℤ v1
    then some v0
    else if v0 ==ℤ neg v1
    then some (pos 1)
    else if abs v0 == 1
    then some (if v0 ==ℤ negsuc 0 then v1 else pos 1)
    else if abs v1 == 1
    then some (if v1 ==ℤ negsuc 0 then v0 else pos 1)
    else none

-- The not so trivial cases on one side: `p` is the literal whose children are `fa` and `fb`, with
-- values `v`, `va` and `vb`, and `w` is the value of the other literal.
unfoldable pub strash : ℤ → ℤ → ℤ → ℤ → ℤ → ℤ → ℤ → Option Outcome
strash p v w fa fb va vb =
    if is_neg p
    then (if (va ==ℤ neg w) || (vb ==ℤ neg w)
        then some (result w)
        else if vb ==ℤ w
        then some (again (neg fa) fb)
        else if va ==ℤ w
        then some (again (neg fb) fa)
        else none)
    else if is_pos p
    then (if (va ==ℤ neg w) || (vb ==ℤ neg w)
        then some (result (pos 1))
        else if (va ==ℤ w) || (vb ==ℤ w)
        then some (result v)
        else none)
    else none

-- The second side is tried where the first gives nothing.
unfoldable pub or_else : Option Outcome → Option Outcome → Outcome
or_else (some r) s = r
or_else none (some r) = r
or_else none none = result (pos 0)

-- `first` is `first_ands_index`, the variable of ands[0].
module _ (first : ℕ) (ands : List And) (values : List ℤ) where
  abbrev pub gate_of : ℤ → And
  gate_of p = get_or ands (abs p - first) (record { o = 0; i1 = pos 0; i2 = pos 0 })

  -- The grandsons: those of an AND gate, or the latch or input itself with the constant true.
  unfoldable pub left_child : ℤ → ℤ
  left_child p = if leb first (abs p) then (gate_of p).i1 else pos (abs p)

  unfoldable pub right_child : ℤ → ℤ
  right_child p = if leb first (abs p) then (gate_of p).i2 else negsuc 0

  unfoldable pub strash_side : ℤ → ℤ → Option Outcome
  strash_side p q =
      let fa = left_child p in
      let fb = right_child p in
      strash p (value values p) (value values q) fa fb (value values fa) (value values fb)

  unfoldable pub aig_and_step : ℤ → ℤ → Outcome
  aig_and_step p0 p1 = elim (trivial (value values p0) (value values p1)) [
    | some r ↦ result r
    | none ↦
        if leb first (abs p0) || leb first (abs p1)
        then or_else (strash_side p0 p1) (strash_side p1 p0)
        else result (pos 0)
  ]

  -- `none` means that the fuel, a bound on the depth of the calls, ran out.
  unfoldable pub aig_and : ℕ → ℤ → ℤ → Option ℤ
  aig_and zero p0 p1 = none
  aig_and (suc fuel) p0 p1 = elim (aig_and_step p0 p1) [
    | result r ↦ some r
    | again q0 q1 ↦ aig_and fuel q0 q1
  ]

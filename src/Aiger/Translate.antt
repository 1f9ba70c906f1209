-- ===== src/Aiger/Translate.antt =====
-- Aiger::translate_to_dimacs of aig.cpp: the circuit as it is read, in DIMACS form.
pub mod Format
pub mod Loops
pub mod Sound
pub mod Means
use modelchecker.Common.{
  ℕ, zero, suc, ◌+◌, ◌*◌, false, Option, none, some, ◌>>=◌, List, [], ◌∷◌, ◌++◌, ℤ, pos, negsuc,
  abs, neg, length, get_elem?, get_or, ltb, leb, ◌==◌, if◌then◌else◌,
}
use modelchecker.Circuit.{And}
use modelchecker.Literal.{aiger_to_dimacs}
use modelchecker.Aiger.{
  Aiger, AigerLatch, AigerAnd, Variable, indexed, null_name, false_name, first_latch,
  first_ands_index,
}

-- `none` is a failed assert, or a read out of the range of a vector. The loops count `i` from 0.

-- Variable(dimacs_index, type, type_index, false), with the character's code as its type
abbrev pub variable : ℕ → ℕ → ℕ → Variable
variable v type i = record { dimacs_var = v; name = indexed type i false }

unfoldable pub load_inputs : ℕ → ℕ → List ℕ → List Variable → Option (List Variable)
load_inputs zero i inputs vs = some vs
load_inputs (suc n) i inputs vs = elim (get_elem? inputs i) [
  | none ↦ none
  | some l ↦
      if suc i * 2 == l
      then load_inputs n (suc i) inputs (vs ++ variable (i + 2) 105 i ∷ [])
      else none
]

unfoldable pub load_latches : ℕ → ℕ → ℕ → List AigerLatch → List Variable → Option (List Variable)
load_latches num_inputs zero i latches vs = some vs
load_latches num_inputs (suc n) i latches vs = elim (get_elem? latches i) [
  | none ↦ none
  | some a ↦
      if (num_inputs + suc i) * 2 == a.l
      then load_latches num_inputs n (suc i) latches
          (vs ++ variable (2 + num_inputs + i) 108 i ∷ [])
      else none
]

-- `before` is num_inputs + num_latches.
unfoldable pub load_ands :
    ℕ → ℕ → ℕ → List AigerAnd → List Variable → List And → Option (List Variable × List And)
load_ands before zero i gates vs gs = some (vs, gs)
load_ands before (suc n) i gates vs gs = elim (get_elem? gates i) [
  | none ↦ none
  | some a ↦
      if 2 * (before + suc i) == a.o
      then (let o = 2 + before + i in
          let i1 = aiger_to_dimacs (pos a.i1) in
          let i2 = aiger_to_dimacs (pos a.i2) in
          load_ands before n (suc i) gates (vs ++ variable o 97 i ∷ [])
            (gs ++ record { o = o; i1 = i1; i2 = i2 } ∷ []))
      else none
]

-- The reset literal of latch `l`: no literal if the latch keeps its own value.
unfoldable pub push_reset : ℕ → ℕ → List ℤ → List ℤ
push_reset l default_val init =
    if default_val == 0
    then init ++ neg (pos l) ∷ []
    else if default_val == 1
    then init ++ pos l ∷ []
    else init

unfoldable pub load_resets :
    ℕ → ℕ → ℕ → List AigerLatch → List ℤ → List ℤ → Option (List ℤ × List ℤ)
load_resets num_inputs zero i latches nexts init = some (nexts, init)
load_resets num_inputs (suc n) i latches nexts init = elim (get_elem? latches i) [
  | none ↦ none
  | some a ↦
      let l = 2 + num_inputs + i in
      if (num_inputs + suc i) * 2 == a.l
      then load_resets num_inputs n (suc i) latches (nexts ++ aiger_to_dimacs (pos a.next) ∷ [])
          (push_reset l a.default_val init)
      else none
]

-- The loops over the constraints, the bads and the outputs.
unfoldable pub load_literals : ℕ → ℕ → List ℕ → List ℤ → Option (List ℤ)
load_literals zero i source target = some target
load_literals (suc n) i source target = elim (get_elem? source i) [
  | none ↦ none
  | some l ↦ load_literals n (suc i) source (target ++ aiger_to_dimacs (pos l) ∷ [])
]

-- The bads are checked, or the outputs where there are no bads.
unfoldable pub load_properties : Aiger → List ℕ → ℕ → Option Aiger
load_properties c source n = do
  let index = if leb n c.property_index then 0 else c.property_index
  all ← load_literals n 0 source c.allbad
  some (record c {
    property_index = index;
    allbad = all;
    bad = get_or all index (pos 0);
    num_property = n;
  })

unfoldable pub load_bad : Aiger → Option Aiger
load_bad c =
    if ltb 0 c.num_bads
    then load_properties c c.aiger_bads c.num_bads
    else if ltb 0 c.num_outputs
    then load_properties c c.aiger_outputs c.num_outputs
    else none

-- The two asserts at the end.
unfoldable pub prepare_prime : Aiger → Option Aiger
prepare_prime c =
    let size = length c.variables in
    if leb (abs c.bad) size
    then (if size == 1 + c.num_inputs + c.num_latches + c.num_ands + 1
        then some (record c { primed_first_dimacs = size })
        else none)
    else none

unfoldable pub translate_to_dimacs : Aiger → Option Aiger
translate_to_dimacs c = do
  let null =
      record { dimacs_var = 0; name = null_name }
      ∷ record { dimacs_var = 1; name = false_name }
      ∷ []
  inputs ← load_inputs c.num_inputs 0 c.aiger_inputs (c.variables ++ null)
  latches ← load_latches c.num_inputs c.num_latches 0 c.aiger_latches inputs
  (vs, gs) ← load_ands (c.num_inputs + c.num_latches) c.num_ands 0 c.aiger_ands latches c.ands
  (nexts, init) ← load_resets c.num_inputs c.num_latches 0 c.aiger_latches c.nexts c.init_state
  cs ← load_literals c.num_constraints 0 c.aiger_constraints c.constraints
  checked ←
      load_bad
        (record c { variables = vs; ands = gs; nexts = nexts; init_state = init; constraints = cs })
  prepare_prime checked

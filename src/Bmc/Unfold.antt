-- ===== src/Bmc/Unfold.antt =====
-- BMC::unfold of BMC.cpp: one more copy of the circuit, over the unfolded variables.
pub mod Updates
pub mod Extends
pub mod Gates
pub mod Inputs
pub mod Bounds
pub mod Lift
pub mod LiftGates
pub mod LiftInputs
pub mod LiftFrame
pub mod LiftStep
pub mod LiftStart
pub mod Frame
pub mod Steps
pub mod Reset
pub mod Start
use Prim.Native.Nat.{max}
use modelchecker.Common.{
  ℕ, zero, suc, ◌+◌, Bool, true, ◌&&◌, ◌||◌, none, some, List, [], ◌∷◌, ◌++◌, map,
}
use modelchecker.Common.{
  if◌then◌else◌, ◌==◌, ℤ, pos, negsuc, abs, is_pos, is_neg, replicate, ◌==ℤ◌, get_or, length, set,
}
use modelchecker.Circuit.{And}
use modelchecker.Aiger.{Aiger, first_latch, first_ands_index}
use modelchecker.Bmc.AndGate.{value, aig_and}

-- type 0: null, 1: constant, 2: input, 3: and; `fathers` counts the gates that read the node
pub record Node : Type 0 where
  pub type : ℕ
  pub fathers : ℕ
  pub child1 : ℤ
  pub child2 : ℤ
  pub activate : Bool

-- `uaiger` and `values` of class BMC. hash_table[k] holds the gates that read variable k; its
-- 99999999 buckets are a function, empty where nothing was pushed.
pub record Unfolding : Type 0 where
  pub inputs : List ℕ
  pub outputs : List ℤ
  pub constraints : List ℤ
  pub ands : List And
  pub nodes : List Node
  pub hash_table : ℕ → List And
  pub values : List ℤ

unfoldable pub add_father : List Node → ℕ → List Node
add_father [] k = []
add_father (n ∷ ns) zero = record n { fathers = n.fathers + 1 } ∷ ns
add_father (n ∷ ns) (suc k) = n ∷ add_father ns k

-- (hash_table[k]).push_back(a)
unfoldable pub push_bucket : (ℕ → List And) → ℕ → And → ℕ → List And
push_bucket table k a j = if k == j then table j ++ a ∷ [] else table j

-- The loop over a bucket: the last gate with the same two inputs, in either order; 0 if none.
unfoldable pub find_gate : ℤ → ℤ → List And → ℤ → ℤ
find_gate i1 i2 [] output = output
find_gate i1 i2 (a ∷ rest) output =
    find_gate i1 i2 rest
      (if (a.i1 ==ℤ i1) && (a.i2 ==ℤ i2) || (a.i2 ==ℤ i1) && (a.i1 ==ℤ i2) then pos a.o else output)

-- Aig_And with fuel for the deepest chain of calls; 0 says that nothing applied.
unfoldable pub simplify : ℕ → List And → List ℤ → ℤ → ℤ → ℤ
simplify first ands values p0 p1 =
    elim (aig_and first ands values (suc (max (abs p0) (abs p1))) p0 p1) [
      | none ↦ pos 0
      | some r ↦ r
    ]

abbrev pub input_node : Node
input_node = record { type = 2; fathers = 0; child1 = pos 0; child2 = pos 0; activate = true }

-- One round of the loop over the inputs; `v` is the input's variable, i + 2.
unfoldable pub unfold_input : Unfolding → ℕ → Unfolding
unfold_input u v = record u {
  nodes = u.nodes ++ input_node ∷ [];
  inputs = u.inputs ++ length u.nodes ∷ [];
  values = set u.values v (pos (length u.nodes));
}

unfoldable pub unfold_inputs : ℕ → ℕ → Unfolding → Unfolding
unfold_inputs zero v u = u
unfold_inputs (suc n) v u = unfold_inputs n (suc v) (unfold_input u v)

-- A gate that nothing simplifies: a new node with its three places in `ands` and `hash_table`.
unfoldable pub new_gate : Unfolding → ℕ → ℤ → ℤ → Unfolding
new_gate u o i1 i2 =
    let output = length u.nodes in
    let a : And = record { o = output; i1 = i1; i2 = i2 } in
    let node : Node = record { type = 3; fathers = 0; child1 = i1; child2 = i2; activate = true } in
    record u {
      nodes = add_father (add_father (u.nodes ++ node ∷ []) (abs i1)) (abs i2);
      values = set u.values o (pos output);
      ands = u.ands ++ a ∷ [];
      hash_table = push_bucket (push_bucket u.hash_table (abs i1) a) (abs i2) a;
    }

-- Where the simplification fails: a gate with the same inputs, or a new one.
unfoldable pub share_gate : Unfolding → ℕ → ℤ → ℤ → Unfolding
share_gate u o i1 i2 =
    let found = find_gate i1 i2 (u.hash_table (abs i1)) (pos 0) in
    if found ==ℤ pos 0 then new_gate u o i1 i2 else record u { values = set u.values o found }

-- One round of the loop over the gates; the assert says that ands[i].o is the gate's own index.
unfoldable pub unfold_gate : ℕ → List And → Unfolding → And → Unfolding
unfold_gate first ands u g =
    let cleared = set u.values g.o (pos 0) in
    let v = simplify first ands cleared g.i1 g.i2 in
    if v ==ℤ pos 0
    then share_gate (record u { values = cleared }) g.o (value cleared g.i1) (value cleared g.i2)
    else record u { values = set cleared g.o v }

unfoldable pub unfold_gates : ℕ → List And → Unfolding → List And → Unfolding
unfold_gates first ands u [] = u
unfold_gates first ands u (g ∷ gs) = unfold_gates first ands (unfold_gate first ands u g) gs

-- `tempvalue` is read from all latches before any of them is written.
unfoldable pub set_latches : ℕ → List ℤ → List ℤ → List ℤ
set_latches v [] values = values
set_latches v (l ∷ ls) values = set_latches (suc v) ls (set values v l)

unfoldable pub unfold_constraints : List ℤ → Unfolding → Unfolding
unfold_constraints cs u = record u { constraints = u.constraints ++ map (value u.values) cs }

unfoldable pub unfold_output : ℤ → Unfolding → Unfolding
unfold_output bad u =
    let newbad = value u.values bad in
    record u { outputs = u.outputs ++ newbad ∷ []; nodes = add_father u.nodes (abs newbad) }

unfoldable pub unfold_latches : ℕ → List ℤ → Unfolding → Unfolding
unfold_latches v nexts u = record u { values = set_latches v (map (value u.values) nexts) u.values }

-- The property that this run checks: that of the thread, or the one asked for.
unfoldable pub checked_bad : Aiger → ℕ → ℤ
checked_bad c thread_index =
    if c.find_bug_only
    then get_or c.allbad thread_index (pos 0)
    else get_or c.allbad c.property_index (pos 0)

-- The inputs and gates of one frame, before the latches move on.
unfoldable pub unfold_frame : Aiger → Unfolding → Unfolding
unfold_frame c u = unfold_gates (first_ands_index c) c.ands (unfold_inputs c.num_inputs 2 u) c.ands

unfoldable pub unfold_step : Aiger → ℕ → Unfolding → Unfolding
unfold_step c thread_index u = unfold_latches (first_latch c) c.nexts (
    unfold_output (checked_bad c thread_index)
      (unfold_constraints c.constraints (unfold_frame c u)))

-- The loop over `init_state` in BMC::initialize: a latch with a reset value is that constant.
unfoldable pub reset_values : List ℤ → List ℤ → List ℤ
reset_values [] values = values
reset_values (l ∷ ls) values = reset_values ls (
    if is_pos l
    then set values (abs l) (negsuc 0)
    else if is_neg l
    then set values (abs l) (pos 1)
    else values)

-- The loop over the latches: each has a node, which a latch without reset value starts as.
unfoldable pub init_latches : ℕ → ℕ → Unfolding → Unfolding
init_latches zero v u = u
init_latches (suc n) v u =
    let values = u.values in
    init_latches n (suc v) (record u {
      nodes = u.nodes ++ input_node ∷ [];
      values =
          if get_or values v (pos 0) ==ℤ pos 0 then set values v (pos (length u.nodes)) else values;
    })

-- BMC::initialize, without the solver: node 0 is null and node 1 the constant false.
abbrev pub blank : Aiger → Unfolding
blank c = record {
  inputs = [];
  outputs = [];
  constraints = [];
  ands = [];
  nodes = record input_node { type = 0 } ∷ record input_node { type = 1 } ∷ [];
  hash_table = λ _. [];
  values = reset_values c.init_state (set (replicate (length c.variables) (pos 0)) 1 (pos 1));
}

unfoldable pub start : Aiger → Unfolding
start c = init_latches c.num_latches (first_latch c) (blank c)

-- The frames unfolded by the first `k` rounds of the main loop.
unfoldable pub unfold_frames : Aiger → ℕ → ℕ → Unfolding
unfold_frames c thread_index zero = start c
unfold_frames c thread_index (suc k) = unfold_step c thread_index (unfold_frames c thread_index k)

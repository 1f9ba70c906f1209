-- ===== src/Bmc/Unfold/Start.antt =====
-- BMC::initialize: the state before the first frame, and the initial states that it stands for.
use modelchecker.Common.{
  ℕ, zero, suc, ◌+◌, ◌≤◌, ◌<◌, ◌≡◌, ◌≢◌, inl, inr, refl, ap, ◌∙◌, true, false, Bool-cases, List, [],
  ◌∷◌, ◌++◌, arith, ℤ, pos, abs, ◌==ℤ◌, if◌then◌else◌, length, get_or, set, All, length-set,
  length-append, get_or-set_self, get_or-set_other,
}
use native.Mathlib.Decide.{dec_lt, ℕ_discrete}
use modelchecker.Circuit.{Assignment, holds, IsLiteral}
use modelchecker.Circuit.Run.{IsReset, IsWellFormed, IsInitial, num_variables}
use modelchecker.Aiger.{Aiger, first_latch, first_ands_index}
use modelchecker.Bmc.Unfold.{Unfolding, init_latches, start, input_node, blank}
use modelchecker.Bmc.Unfold.Inputs.{unfold_inputs_other}
use modelchecker.Bmc.Unfold.Frame.{IsReady, frame_assignment, frame_leaves, frame_assignment_leaf}
use modelchecker.Bmc.Unfold.Reset.{
  length-replicate, length-reset_values, reset_values_below, StartsAt, start_literal,
  reset_values-StartsAt,
}

-- What the loop over the latches leaves alone, and what it ends with.
pub record InitLatches (n v : ℕ) (u w : Unfolding) : Type 0 where
  sized : length w.values ≡ length u.values
  table : w.hash_table ≡ u.hash_table
  nodes : length u.nodes ≤ length w.nodes
  outputs : w.outputs ≡ u.outputs
  constraints : w.constraints ≡ u.constraints
  pub below : (k : ℕ) → k < v → get_or w.values k (pos 0) ≡ get_or u.values k (pos 0)
  kept :
      (k : ℕ)
      → IsLiteral (get_or u.values k (pos 0))
      → get_or w.values k (pos 0) ≡ get_or u.values k (pos 0)
  latches :
      v + n ≤ length u.values → (k : ℕ) → v ≤ k → k < v + n → IsLiteral (get_or w.values k (pos 0))

-- A latch that has no literal yet gets one.
unfoldable pub fill : ℕ → ℕ → List ℤ → List ℤ
fill node v values = if get_or values v (pos 0) ==ℤ pos 0 then set values v (pos node) else values

pub length-fill : (node v : ℕ) (values : List ℤ) → length (fill node v values) ≡ length values
unfolding fill
length-fill node v values = ground (arith, length-set values v (pos node))

pub fill_other :
    (node v k : ℕ) (values : List ℤ)
    → v ≢ k
    → get_or (fill node v values) k (pos 0) ≡ get_or values k (pos 0)
unfolding fill
fill_other node v k values ne = ground (arith, get_or-set_other values v k (pos node) (pos 0))

fill_kept :
    (node v k : ℕ) (values : List ℤ)
    → IsLiteral (get_or values k (pos 0))
    → get_or (fill node v values) k (pos 0) ≡ get_or values k (pos 0)
fill_kept node v k values lit = elim (ℕ_discrete v k) [
  | yes same ↦
      let full : (get_or values v (pos 0) ==ℤ pos 0) ≡ false =
        rw same (literal-test (get_or values k (pos 0)) lit) in
      unfold fill in rw full
  | no other ↦ fill_other node v k values other
]
  where
    literal-test : (l : ℤ) → IsLiteral l → (l ==ℤ pos 0) ≡ false
    literal-test l h = ground arith

fill-IsLiteral :
    (node v : ℕ) (values : List ℤ)
    → 0 < node
    → v < length values
    → IsLiteral (get_or (fill node v values) v (pos 0))
fill-IsLiteral node v values h room = elim (Bool-cases (get_or values v (pos 0) ==ℤ pos 0)) [
  | inl empty ↦ unfold fill in rw (empty, get_or-set_self values v (pos node) (pos 0) room) h
  | inr full ↦ unfold fill in rw full (ground arith)
]

pub init_latches-InitLatches :
    (n v : ℕ) (u : Unfolding) → 0 < length u.nodes → InitLatches n v u (init_latches n v u)
unfolding init_latches fill
init_latches-InitLatches zero v u nodes = record {
  sized = refl;
  table = refl;
  outputs = refl;
  constraints = refl;
  nodes = omega arith;
  below = λ k lt. refl;
  kept = λ k lit. refl;
  latches = λ room k lo hi. absurd (omega arith);
}
init_latches-InitLatches (suc n) v u nodes =
    let filled = fill (length u.nodes) v u.values in
    let u' = record u { nodes = u.nodes ++ input_node ∷ []; values = filled } in
    let h = init_latches-InitLatches n (suc v) u' (rw length-append (omega arith)) in
    record {
      sized = h.sized ∙ length-fill (length u.nodes) v u.values;
      table = h.table;
      outputs = h.outputs;
      constraints = h.constraints;
      nodes = omega (arith, h.nodes, length-append {0} u.nodes (input_node ∷ []));
      below =
          λ k lt. h.below k (omega arith) ∙ fill_other (length u.nodes) v k u.values (omega arith);
      kept = λ k lit.
          let same = fill_kept (length u.nodes) v k u.values lit in h.kept k (rw same lit) ∙ same;
      latches = λ room k lo hi. elim (dec_lt v k) [
        | yes later ↦ h.latches (rw length-fill (omega arith)) k (omega arith) (omega arith)
        | no first ↦
            let here : k ≡ v = omega arith in
            let lit = fill-IsLiteral (length u.nodes) v u.values nodes (omega arith) in
            rw (here, h.kept v lit) lit
      ];
    }

abbrev start_values : Aiger → List ℤ
start_values c = (blank c).values

start_latches : (c : Aiger) → InitLatches c.num_latches (first_latch c) (blank c) (start c)
unfolding start
start_latches c = init_latches-InitLatches c.num_latches (first_latch c) (blank c) (omega arith)

pub start_empty : (c : Aiger) → ((start c).outputs ≡ []) × ((start c).constraints ≡ [])
start_empty c = ((start_latches c).outputs, (start_latches c).constraints)

holds_start :
    (σ x : Assignment) (l : ℤ)
    → σ 1 ≡ false
    → IsLiteral l
    → x (abs l) ≡ holds σ (start_literal l)
    → holds x l ≡ true
unfolding holds
holds_start σ x l c lit e = ground arith

module _ (c : Aiger) (well : IsWellFormed c) (σ : Assignment) (σ-false : σ 1 ≡ false) where
  start_length : length (start_values c) ≡ num_variables c
  start_length =
      length-reset_values c.init_state _
      ∙ length-set _ 1 _
      ∙ length-replicate (length c.variables)
      ∙ well.sized

  start_constant : get_or (start_values c) 1 (pos 0) ≡ pos 1
  start_constant =
      reset_values_below (first_latch c) (first_ands_index c) 1 c.init_state _ well.reset
        (omega arith)
      ∙ get_or-set_self _ 1 (pos 1) (pos 0) (rw (length-replicate, well.sized) (omega arith))

  start_resets : All (StartsAt (start_values c)) c.init_state
  start_resets =
      reset_values-StartsAt (first_latch c) (first_ands_index c) c.init_state _ (omega arith)
        well.reset (rw (length-set, length-replicate, well.sized) (omega arith))

  pub start-IsReady : IsReady c σ (start c)
  start-IsReady =
      let h = start_latches c in
      record {
        constant = h.below 1 (omega arith) ∙ start_constant;
        latches = λ v lo hi. h.latches (rw start_length (omega arith)) v lo (omega arith);
        table = rw h.table (λ k. tt);
        nodes = omega (arith, h.nodes);
        sized = h.sized ∙ start_length;
      }

  resets-IsInitial :
      (n : ℕ) (ls : List ℤ)
      → first_latch c ≤ n
      → IsReset n (first_ands_index c) ls
      → All (StartsAt (start_values c)) ls
      → All (λ l. holds (frame_assignment c σ (start c)) l ≡ true) ls
  resets-IsInitial n [] le reset starts = tt
  resets-IsInitial n (l ∷ ls) le (lo, hi, reset) (at, starts) = (
    holds_start σ (frame_assignment c σ (start c)) l σ-false (omega arith) (
        frame_assignment_leaf c well σ σ-false (start c) (abs l) hi
        ∙ unfold frame_leaves in
          ap (holds σ) (
            unfold_inputs_other c.num_inputs 2 (abs l) (start c) (omega arith)
            ∙ (start_latches c).kept (abs l) (rw at (ground arith))
            ∙ at)),
    resets-IsInitial (suc (abs l)) ls (omega arith) reset starts,
  )

  -- The first frame starts in an initial state of the circuit.
  pub start-IsInitial : IsInitial c (frame_assignment c σ (start c))
  start-IsInitial =
      resets-IsInitial (first_latch c) c.init_state (omega arith) well.reset start_resets

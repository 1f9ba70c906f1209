-- ===== src/Bmc/Unfold/Steps.antt =====
-- From one frame to the next: the outputs, the constraints and the latches of BMC::unfold.
use modelchecker.Common.{
  ℕ, suc, ◌+◌, ◌≤◌, ◌<◌, ◌≡◌, refl, ap, ap₂, ◌∙◌, false, List, [], ◌∷◌, ◌++◌, map, arith, ℤ, pos,
  length, get_or, set, All, length-set, get_or-set_self, get_or-set_other,
}
use native.Mathlib.Decide.{dec_lt}
use modelchecker.Circuit.{Assignment, holds, IsLiteral}
use modelchecker.Circuit.Run.{IsVar, IsWellFormed, NextLatches, IsStep, num_variables}
use modelchecker.Aiger.{Aiger, first_latch, first_ands_index}
use modelchecker.Bmc.AndGate.{value}
use modelchecker.Bmc.AndGate.Agrees.{Agrees, value-Agrees}
use modelchecker.Bmc.Unfold.{
  Unfolding, set_latches, unfold_latches, unfold_output, unfold_constraints, unfold_frame,
  unfold_step, checked_bad,
}
use modelchecker.Bmc.Unfold.Updates.{length-add_father}
use modelchecker.Bmc.Unfold.Extends.{Respects, Extends-Respects, unfold_gates-Extends}
use modelchecker.Bmc.Unfold.Inputs.{unfold_inputs-KeepsGates, unfold_inputs_other}
use modelchecker.Bmc.Unfold.Gates.{Inv}
use modelchecker.Bmc.Unfold.Frame.{
  IsReady, frame_assignment, frame_leaves, frame_assignment_leaf, unfold_frame-Inv, IsKept,
  unfold_frame-IsKept,
}

pub length-set_latches :
    (v : ℕ) (ls values : List ℤ) → length (set_latches v ls values) ≡ length values
unfolding set_latches
length-set_latches v [] values = refl
length-set_latches v (l ∷ ls) values =
    length-set_latches (suc v) ls (set values v l) ∙ length-set values v l

pub set_latches_below :
    (v k : ℕ) (ls values : List ℤ)
    → k < v
    → get_or (set_latches v ls values) k (pos 0) ≡ get_or values k (pos 0)
unfolding set_latches
set_latches_below v k [] values lt = refl
set_latches_below v k (l ∷ ls) values lt =
    set_latches_below (suc v) k ls _ (omega arith)
    ∙ get_or-set_other values v k l (pos 0) (omega arith)

-- Every latch that is written has a literal.
set_latches-IsLiteral :
    (v k : ℕ) (ls values : List ℤ)
    → All IsLiteral ls
    → v + length ls ≤ length values
    → v ≤ k
    → k < v + length ls
    → IsLiteral (get_or (set_latches v ls values) k (pos 0))
unfolding set_latches
set_latches-IsLiteral v k [] values h room lo hi = absurd (omega arith)
set_latches-IsLiteral v k (l ∷ ls) values (h, hs) room lo hi = elim (dec_lt v k) [
  | yes later ↦
      set_latches-IsLiteral (suc v) k ls (set values v l) hs (rw length-set (omega arith))
        (omega arith) (omega arith)
  | no first ↦
      let here : k ≡ v = omega arith in
      rw
        (
          here,
          set_latches_below (suc v) v ls _ (omega arith),
          get_or-set_self values v l (pos 0) (omega arith),
        )
        h
]

module _ {σ x : Assignment} {values : List ℤ} {n : ℕ} (agrees : Agrees σ x values n) where
  values-IsLiteral : (ls : List ℤ) → All (IsVar n) ls → All IsLiteral (map (value values) ls)
  values-IsLiteral [] h = tt
  values-IsLiteral (l ∷ ls) ((lit, lt), h) =
      ((value-Agrees agrees l lit lt).0, values-IsLiteral ls h)

  -- The literals of the constraints, or of any other variables, mean what the circuit makes them.
  pub values-same :
      (ls : List ℤ) → All (IsVar n) ls → map (holds σ) (map (value values) ls) ≡ map (holds x) ls
  values-same [] h = refl
  values-same (l ∷ ls) ((lit, lt), h) = ap₂ ◌∷◌ (value-Agrees agrees l lit lt).1 (values-same ls h)

-- If `y` reads the latches as they are written, its latches are the next values of `x`.
set_latches-NextLatches :
    {σ x : Assignment} {n : ℕ} (old : List ℤ) (agrees : Agrees σ x old n) (y : Assignment) (v : ℕ)
    (ls values : List ℤ)
    → All (IsVar n) ls
    → v + length ls ≤ length values
    → ((k : ℕ)
        → v ≤ k
        → k < v + length ls
        → y k ≡ holds σ (get_or (set_latches v (map (value old) ls) values) k (pos 0)))
    → NextLatches x y v ls
unfolding set_latches
set_latches-NextLatches old agrees y v [] values h room reads = tt
set_latches-NextLatches {σ} old agrees y v (l ∷ ls) values ((lit, lt), h) room reads = (
  reads v (omega arith) (omega arith)
      ∙ ap (holds σ) (
          set_latches_below (suc v) v (map (value old) ls) _ (omega arith)
          ∙ get_or-set_self values v _ (pos 0) (omega arith))
      ∙ (value-Agrees agrees l lit lt).1,
  set_latches-NextLatches old agrees y (suc v) ls (set values v (value old l)) h
      (rw length-set (omega arith)) (λ k lo hi. reads k (omega arith) (omega arith)),
)

pub length-map {ℓ κ} :
    {A : Type ℓ} {B : Type κ} (f : A → B) (xs : List A) → length (map f xs) ≡ length xs
length-map f [] = refl
length-map f (x ∷ xs) = ap suc (length-map f xs)

module _ (c : Aiger) (well : IsWellFormed c) (σ : Assignment) (σ-false : σ 1 ≡ false) (thread : ℕ)
    (u : Unfolding) (ready : IsReady c σ u) (respects : Respects σ (unfold_step c thread u)) where
  abbrev pub frame : Unfolding
  frame = unfold_frame c u

  kept : IsKept u frame
  kept = unfold_frame-IsKept c u

  frame-Inv : Inv σ (frame_assignment c σ u) (num_variables c) frame
  unfolding unfold_step unfold_latches unfold_output unfold_constraints
  frame-Inv = unfold_frame-Inv c well σ σ-false u ready respects

  next_values-IsLiteral : All IsLiteral (map (value frame.values) c.nexts)
  next_values-IsLiteral = values-IsLiteral frame-Inv.agrees c.nexts well.next_vars

  pub unfold_step-IsReady : IsReady c σ (unfold_step c thread u)
  unfolding unfold_step unfold_latches unfold_output unfold_constraints
  unfold_step-IsReady = record {
    constant = set_latches_below _ 1 _ frame.values (omega arith) ∙ frame-Inv.agrees.constant;
    latches = λ v lo hi.
        set_latches-IsLiteral (first_latch c) v _ frame.values next_values-IsLiteral
          (rw length-map (rw (kept.sized, ready.sized) (omega (arith, well.next_count)))) lo
          (rw length-map (omega (arith, well.next_count)));
    table = frame-Inv.table;
    nodes = rw length-add_father frame-Inv.nodes;
    sized = length-set_latches _ _ frame.values ∙ kept.sized ∙ ready.sized;
  }

  -- The latches of the next frame have the next values of this one.
  pub unfold_step-IsStep :
      IsStep c (frame_assignment c σ u) (frame_assignment c σ (unfold_step c thread u))
  unfolding unfold_step unfold_latches unfold_output unfold_constraints
  unfold_step-IsStep =
      set_latches-NextLatches frame.values frame-Inv.agrees _ (first_latch c) c.nexts frame.values
        well.next_vars (rw (kept.sized, ready.sized) (omega (arith, well.next_count)))
        (λ k lo hi.
          frame_assignment_leaf c well σ σ-false (unfold_step c thread u) k
            (omega (arith, well.next_count))
          ∙ unfold frame_leaves in
            ap (holds σ)
              (unfold_inputs_other c.num_inputs 2 k (unfold_step c thread u) (omega arith)))

  -- The new constraints and the new output mean what the frame makes the circuit's.
  pub unfold_step_outputs :
      IsVar (num_variables c) (checked_bad c thread)
      → (l : ℤ) × ((unfold_step c thread u).outputs ≡ u.outputs ++ l ∷ [])
        × IsLiteral l
        × (holds σ l ≡ holds (frame_assignment c σ u) (checked_bad c thread))
  unfolding unfold_step unfold_latches unfold_output unfold_constraints
  unfold_step_outputs (lit, lt) = (
    value frame.values (checked_bad c thread),
    ap (λ (os : List ℤ). os ++ value frame.values (checked_bad c thread) ∷ []) kept.outputs,
    (value-Agrees frame-Inv.agrees (checked_bad c thread) lit lt).0,
    (value-Agrees frame-Inv.agrees (checked_bad c thread) lit lt).1,
  )

  pub unfold_step_constraints :
      (ls : List ℤ) × ((unfold_step c thread u).constraints ≡ u.constraints ++ ls)
      × (map (holds σ) ls ≡ map (holds (frame_assignment c σ u)) c.constraints)
  unfolding unfold_step unfold_latches unfold_output unfold_constraints
  unfold_step_constraints = (
    map (value frame.values) c.constraints,
    ap (λ (cs : List ℤ). cs ++ map (value frame.values) c.constraints) kept.constraints,
    values-same frame-Inv.agrees c.constraints well.constraint_vars,
  )

pub unfold_step-Respects :
    (c : Aiger) (thread : ℕ) (σ : Assignment) (u : Unfolding)
    → Respects σ (unfold_step c thread u)
    → Respects σ u
unfolding unfold_step unfold_latches unfold_output unfold_constraints unfold_frame
unfold_step-Respects c thread σ u h =
    rw (unfold_inputs-KeepsGates c.num_inputs 2 u).ands at
      (Extends-Respects σ (unfold_gates-Extends (first_ands_index c) c.ands _ c.ands) h)

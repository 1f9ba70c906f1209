-- ===== src/Bmc/Unfold/LiftStep.antt =====
-- From a frame carried over to the next: the latches, the output and the constraints.
use modelchecker.Common.{
  ℕ, suc, ◌+◌, ◌≤◌, ◌<◌, ◌≡◌, refl, sym, ap, ap₂, ◌∙◌, List, [], ◌∷◌, ◌++◌, map, arith, ℤ, pos, abs,
  length, get_or, set, All, length-set, get_or-set_self,
}
use native.Mathlib.Decide.{dec_lt}
use modelchecker.Circuit.{Assignment, holds}
use modelchecker.Circuit.Run.{IsVar, IsWellFormed, NextLatches, IsStep, num_variables}
use modelchecker.Aiger.{Aiger, first_latch}
use modelchecker.Bmc.AndGate.{value}
use modelchecker.Bmc.AndGate.Agrees.{Agrees, value-Agrees}
use modelchecker.Bmc.AndGate.Bounds.{IsSmall, abs-value-lt}
use modelchecker.Bmc.Unfold.{
  Unfolding, unfold_frame, set_latches, unfold_latches, unfold_output, unfold_constraints,
  unfold_step, checked_bad,
}
use modelchecker.Bmc.Unfold.Updates.{length-add_father}
use modelchecker.Bmc.Unfold.Extends.{Respects}
use modelchecker.Bmc.Unfold.Frame.{IsReady, unfold_frame-IsKept}
use modelchecker.Bmc.Unfold.Bounds.{IsBounded, set-IsSmall}
use modelchecker.Bmc.Unfold.Lift.{SameBelow, holds-SameBelow, entries-SameBelow}
use modelchecker.Bmc.Unfold.LiftFrame.{ReadsLatches, FrameLift}
use modelchecker.Bmc.Unfold.Steps.{set_latches_below, values-same}

set_latches-IsSmall :
    (n v : ℕ) (ls values : List ℤ)
    → All (λ l. abs l < n) ls
    → IsSmall n values
    → IsSmall n (set_latches v ls values)
unfolding set_latches
set_latches-IsSmall n v [] values h small = small
set_latches-IsSmall n v (l ∷ ls) values (h, hs) small =
    set_latches-IsSmall n (suc v) ls (set values v l) hs (set-IsSmall n values v l small h)

pub values-lt :
    (n : ℕ) (values ls : List ℤ) → IsSmall n values → All (λ l. abs l < n) (map (value values) ls)
values-lt n values [] h = tt
values-lt n values (l ∷ ls) h = (abs-value-lt n values l h, values-lt n values ls h)

pub map-holds-SameBelow :
    (n : ℕ) (σ τ : Assignment) (ls : List ℤ)
    → SameBelow n σ τ
    → All (λ l. abs l < n) ls
    → map (holds τ) ls ≡ map (holds σ) ls
map-holds-SameBelow n σ τ [] same h = refl
map-holds-SameBelow n σ τ (l ∷ ls) same (h, hs) =
    ap₂ ◌∷◌ (holds-SameBelow n σ τ l same h) (map-holds-SameBelow n σ τ ls same hs)

-- The latch of variable `k` reads what was written for it.
set_latches-reads :
    {σ x : Assignment} {n : ℕ} (old : List ℤ) (agrees : Agrees σ x old n) (y : Assignment) (v k : ℕ)
    (ls values : List ℤ)
    → All (IsVar n) ls
    → v + length ls ≤ length values
    → NextLatches x y v ls
    → v ≤ k
    → k < v + length ls
    → holds σ (get_or (set_latches v (map (value old) ls) values) k (pos 0)) ≡ y k
unfolding set_latches
set_latches-reads old agrees y v k [] values h room next lo hi = absurd (omega arith)
set_latches-reads {σ} old agrees y v k (l ∷ ls) values ((lit, lt), h) room (e, next) lo hi =
    elim (dec_lt v k) [
      | yes later ↦
          set_latches-reads old agrees y (suc v) k ls (set values v (value old l)) h
            (rw length-set (omega arith)) next later (omega arith)
      | no first ↦
          let here : k ≡ v = omega arith in
          rw here (
            ap (holds σ) (
              set_latches_below (suc v) v (map (value old) ls) _ (omega arith)
              ∙ get_or-set_self values v _ (pos 0) (omega arith))
            ∙ (value-Agrees agrees l lit lt).1
            ∙ sym e)
    ]

module _ (c : Aiger) (well : IsWellFormed c) (σ x : Assignment) (thread : ℕ) (u : Unfolding)
    (ready : IsReady c σ u) (b : IsBounded u) (h : FrameLift c σ x u (unfold_frame c u)) where
  abbrev frame : Unfolding
  frame = unfold_frame c u

  pub unfold_step-IsBounded : IsBounded (unfold_step c thread u)
  unfolding unfold_step unfold_latches unfold_output unfold_constraints
  unfold_step-IsBounded = record {
    one = rw length-add_father h.lift.bounded.one;
    small = rw length-add_father (
        set_latches-IsSmall (length frame.nodes) (first_latch c) _ frame.values
          (values-lt (length frame.nodes) frame.values c.nexts h.lift.bounded.small)
          h.lift.bounded.small);
    table = rw length-add_father h.lift.bounded.table;
    ands = rw length-add_father h.lift.bounded.ands;
  }

  -- The same assignment serves for the whole step.
  pub lifted-Respects : Respects h.lift.lifted (unfold_step c thread u)
  unfolding unfold_step unfold_latches unfold_output unfold_constraints
  lifted-Respects = h.lift.respects

  -- What the new output and the new constraints are, and what they mean.
  pub lifted_output :
      IsVar (num_variables c) (checked_bad c thread)
      → (l : ℤ) × ((unfold_step c thread u).outputs ≡ u.outputs ++ l ∷ [])
        × (abs l < length (unfold_step c thread u).nodes)
        × (holds h.lift.lifted l ≡ holds x (checked_bad c thread))
  unfolding unfold_step unfold_latches unfold_output unfold_constraints
  lifted_output (lit, lt) = (
    value frame.values (checked_bad c thread),
    ap (λ (os : List ℤ). os ++ value frame.values (checked_bad c thread) ∷ [])
        (unfold_frame-IsKept c u).outputs,
    rw length-add_father (abs-value-lt (length frame.nodes) frame.values _ h.lift.bounded.small),
    (value-Agrees h.inv.agrees (checked_bad c thread) lit lt).1,
  )

  pub lifted_constraints :
      (ls : List ℤ) × ((unfold_step c thread u).constraints ≡ u.constraints ++ ls)
      × All (λ l. abs l < length (unfold_step c thread u).nodes) ls
      × (map (holds h.lift.lifted) ls ≡ map (holds x) c.constraints)
  unfolding unfold_step unfold_latches unfold_output unfold_constraints
  lifted_constraints = (
    map (value frame.values) c.constraints,
    ap (λ (cs : List ℤ). cs ++ map (value frame.values) c.constraints)
        (unfold_frame-IsKept c u).constraints,
    rw length-add_father
        (values-lt (length frame.nodes) frame.values c.constraints h.lift.bounded.small),
    values-same h.inv.agrees c.constraints well.constraint_vars,
  )

  pub unfold_step_nodes : length u.nodes ≤ length (unfold_step c thread u).nodes
  unfolding unfold_step unfold_latches unfold_output unfold_constraints
  unfold_step_nodes = rw length-add_father h.lift.nodes

  -- The old literals of the latches are still literals.
  pub lifted-IsReady : IsReady c h.lift.lifted u
  lifted-IsReady = record {
    constant = ready.constant;
    latches = ready.latches;
    table = λ k.
        entries-SameBelow (length u.nodes) σ h.lift.lifted h.lift.same (u.hash_table k) (b.table k)
          (ready.table k);
    nodes = ready.nodes;
    sized = ready.sized;
  }

  pub unfold_step-ReadsLatches :
      (y : Assignment) → IsStep c x y → ReadsLatches c h.lift.lifted y (unfold_step c thread u)
  unfolding unfold_step unfold_latches unfold_output unfold_constraints
  unfold_step-ReadsLatches y next v lo hi =
      set_latches-reads frame.values h.inv.agrees y (first_latch c) v c.nexts frame.values
        well.next_vars
        (rw ((unfold_frame-IsKept c u).sized, ready.sized) (omega (arith, well.next_count))) next lo
        (omega (arith, well.next_count))

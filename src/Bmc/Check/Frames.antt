-- ===== src/Bmc/Check/Frames.antt =====
-- One round of BMC::check: what its clauses rule out, and what its answer says.
use modelchecker.Common.{
  ℕ, suc, ◌<◌, ◌≡◌, refl, ap, ◌∙◌, false, not, ◌&&◌, Bool-cases, inl, inr, List, [], ◌∷◌, ◌++◌,
  arith, ℤ, neg, length, All, All-append, All-left,
}
use modelchecker.Circuit.{And, Assignment, holds, IsLiteral, holds-neg}
use modelchecker.Circuit.Order.{IsIncreasing}
use modelchecker.Circuit.Run.{IsVar, IsWellFormed, num_variables}
use modelchecker.Aiger.{Aiger}
use modelchecker.Sat.Laws.{Satisfies, AllTrue, unit-Satisfies}
use modelchecker.Bmc.Unfold.{Unfolding, unfold_step, unfold_frames, checked_bad}
use modelchecker.Bmc.Unfold.Extends.{Respects}
use modelchecker.Bmc.Unfold.Steps.{
  unfold_step-Respects, unfold_step_outputs, unfold_step_constraints,
}
use modelchecker.Bmc.Run.{frames-IsReady}
use modelchecker.Bmc.AnyRun.{unfold_frames-IsBounded}
use modelchecker.Bmc.Solve.{
  Answer, unsat, SolverState, add_frame, back, is_skipped, solve_one_frame,
}
use modelchecker.Bmc.Solve.Implied.{IsTrueGate, add_frame-Satisfies, Answer-cases}

abbrev pub AllFalse : Assignment → List ℤ → Type 0
AllFalse σ ls = All (λ l. holds σ l ≡ false) ls

-- The answer `unsat` means that no assignment satisfies the clauses and the assumption.
abbrev pub IsUnsatRight : (List (List ℤ) → ℤ → Answer) → Type 0
IsUnsatRight solve =
    (cs : List (List ℤ)) (l : ℤ) (σ : Assignment)
    → solve cs l ≡ unsat
    → Satisfies σ cs
    → holds σ l ≡ false

pub back-append : (ls : List ℤ) (l : ℤ) → back (ls ++ l ∷ []) ≡ l
unfolding back
back-append [] l = refl
back-append (k ∷ []) l = refl
back-append (k ∷ j ∷ ls) l = back-append (j ∷ ls) l

IsIncreasing-IsTrueGate :
    (σ : Assignment) (n end : ℕ) (gs : List And)
    → 0 < n
    → IsIncreasing n end gs
    → All (λ g. σ g.o ≡ (holds σ g.i1 && holds σ g.i2)) gs
    → All (IsTrueGate σ) gs
IsIncreasing-IsTrueGate σ n end [] pos_n h gates = tt
IsIncreasing-IsTrueGate σ n end (g ∷ gs) pos_n (o, l, _, r, _, h) (gate, gates) =
    ((omega arith, l, r, gate), IsIncreasing-IsTrueGate σ (suc g.o) end gs (omega arith) h gates)

module _ (solve : List (List ℤ) → ℤ → Answer) (max_thread_index thread_index k n : ℕ)
    (u : Unfolding) (s : SolverState) (σ : Assignment) where
  -- Where the bad literal is false, the clauses added last are true.
  pub solve_one_frame_clauses :
      IsLiteral (back u.outputs)
      → Satisfies σ (add_frame n u s).clauses
      → holds σ (back u.outputs) ≡ false
      → Satisfies σ (solve_one_frame solve max_thread_index thread_index k n u s).1.clauses
  unfolding solve_one_frame
  solve_one_frame_clauses lit h false_bad =
      let excluded =
        All-append _ (add_frame n u s).clauses ((neg (back u.outputs) ∷ []) ∷ []) h
          (unit-Satisfies σ _ (holds-neg σ (back u.outputs) lit ∙ ap not false_bad)) in
      elim (Bool-cases (is_skipped max_thread_index thread_index k)) [
        | inl skip ↦ rw skip excluded
        | inr checked ↦ elim (Answer-cases (solve (add_frame n u s).clauses (back u.outputs))) [
          | inl e ↦ rw (checked, e) excluded
          | inr (inl e) ↦ rw (checked, e) h
          | inr (inr e) ↦ rw (checked, e) h
        ]
      ]

  -- A frame that is checked and answered `unsat` has a false bad literal.
  pub solve_one_frame_unsat :
      IsUnsatRight solve
      → is_skipped max_thread_index thread_index k ≡ false
      → (solve_one_frame solve max_thread_index thread_index k n u s).0 ≡ unsat
      → Satisfies σ (add_frame n u s).clauses
      → holds σ (back u.outputs) ≡ false
  unfolding solve_one_frame
  solve_one_frame_unsat right checked answer h =
      elim (Answer-cases (solve (add_frame n u s).clauses (back u.outputs))) [
        | inl e ↦ right _ _ σ e h
        | inr (inl e) ↦ let w = rw (checked, e) at answer in cc
        | inr (inr e) ↦ let w = rw (checked, e) at answer in cc
      ]

-- `σ` stands for a run of `j` frames that satisfies the constraints and is never bad.
pub record Fits (c : Aiger) (thread j : ℕ) (σ : Assignment) : Type 0 where
  pub constant : σ 1 ≡ false
  pub respects : Respects σ (unfold_frames c thread j)
  pub constraints : AllTrue σ (unfold_frames c thread j).constraints
  pub outputs : AllFalse σ (unfold_frames c thread j).outputs

-- What the run does in its next frame.
pub record Goes (c : Aiger) (thread j : ℕ) (σ : Assignment) : Type 0 where
  pub before : Fits c thread j σ
  pub respects : Respects σ (unfold_frames c thread (suc j))
  pub constraints : AllTrue σ (unfold_frames c thread (suc j)).constraints

module _ (c : Aiger) (well : IsWellFormed c) (thread j : ℕ)
    (bad : IsVar (num_variables c) (checked_bad c thread)) (σ : Assignment) where
  -- The new output is the last one.
  pub next_output :
      σ 1 ≡ false
      → Respects σ (unfold_frames c thread (suc j))
      → ((unfold_frames c thread (suc j)).outputs
          ≡ (unfold_frames c thread j).outputs
            ++ back (unfold_frames c thread (suc j)).outputs ∷ [])
        × IsLiteral (back (unfold_frames c thread (suc j)).outputs)
  unfolding unfold_frames
  next_output constant respects =
      let u = unfold_frames c thread j in
      let ready =
        frames-IsReady c well σ constant thread j (unfold_step-Respects c thread σ u respects) in
      let (l, e, lit, _) = unfold_step_outputs c well σ constant thread u ready respects bad in
      let last : back (unfold_step c thread u).outputs ≡ l = rw e (back-append u.outputs l) in
      rw last (e, lit)

  -- The clauses of the next frame hold.
  pub Goes-Satisfies :
      (n : ℕ) (s : SolverState)
      → Goes c thread j σ
      → Satisfies σ s.clauses
      → Satisfies σ (add_frame n (unfold_frames c thread (suc j)) s).clauses
  Goes-Satisfies n s h clauses =
      let u = unfold_frames c thread (suc j) in
      let bounded = unfold_frames-IsBounded c well thread (suc j) bad in
      add_frame-Satisfies σ n u s
        (IsIncreasing-IsTrueGate σ 2 (length u.nodes) u.ands (omega arith) bounded.ands h.respects)
        h.constraints clauses

  -- The constraints so far are among those of the next frame.
  pub Goes-intro :
      σ 1 ≡ false
      → Respects σ (unfold_frames c thread (suc j))
      → AllTrue σ (unfold_frames c thread (suc j)).constraints
      → AllFalse σ (unfold_frames c thread j).outputs
      → Goes c thread j σ
  unfolding unfold_frames
  Goes-intro constant respects constraints outputs =
      let u = unfold_frames c thread j in
      let before = unfold_step-Respects c thread σ u respects in
      let ready = frames-IsReady c well σ constant thread j before in
      let (ls, e, _) = unfold_step_constraints c well σ constant thread u ready respects in
      record {
        before = record {
          constant = constant;
          respects = before;
          constraints = All-left _ u.constraints ls (rw e at constraints);
          outputs = outputs;
        };
        respects = respects;
        constraints = constraints;
      }

  pub Fits-Goes : Fits c thread (suc j) σ → Goes c thread j σ
  Fits-Goes h = Goes-intro h.constant h.respects h.constraints (
      All-left _ (unfold_frames c thread j).outputs _
        (rw (next_output h.constant h.respects).0 at h.outputs))

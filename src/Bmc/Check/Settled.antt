-- ===== src/Bmc/Check/Settled.antt =====
-- A frame that is answered `sat` has a run, whose other gates are evaluated.
use modelchecker.Common.{
  ℕ, zero, suc, ◌≡◌, refl, sym, ap, ◌∙◌, true, Bool-cases, inl, inr, List, [], ◌∷◌, ◌++◌, map,
  arith, ℤ, neg, abs, length, All, All-left, All-right, get_elem?, some,
}
use native.Mathlib.Decide.{dec_lt}
use mathlib.Core.List.{map-append}
use modelchecker.Circuit.{And, Assignment, holds}
use modelchecker.Circuit.Settle.{settle, holds-agree}
use modelchecker.Circuit.Run.{IsVar, IsWellFormed, num_variables}
use modelchecker.Aiger.{Aiger}
use modelchecker.Sat.Laws.{Satisfies, AllTrue}
use modelchecker.Bmc.Unfold.{Unfolding, unfold_frames, checked_bad}
use modelchecker.Bmc.Run.{IsRun, bad_trace, constraint_trace, unfold_frames-IsRun}
use modelchecker.Bmc.AnyRun.{unfold_frames-IsBounded}
use modelchecker.Bmc.Solve.{Answer, sat, SolverState, back, add_frame, is_skipped, solve_one_frame}
use modelchecker.Bmc.Solve.Implied.{Answer-cases}
use modelchecker.Bmc.Check.Keeps.{settle-keeps, settle_under, settle-IsIncreasing}
use modelchecker.Bmc.Check.Cone.{IsDefined}
use modelchecker.Bmc.Check.Built.{Built}
use modelchecker.Bmc.Check.Frames.{next_output}
use modelchecker.Bmc.Check.Traces.{IsConstrained, snoc_inj}

-- The answer `sat` means that some assignment satisfies the clauses and the assumption.
abbrev pub IsSatRight : (List (List ℤ) → ℤ → Answer) → Type 0
IsSatRight solve =
    (cs : List (List ℤ)) (l : ℤ)
    → solve cs l ≡ sat
    → (σ : Assignment) × Satisfies σ cs × (holds σ l ≡ true)

-- Clauses that are added change nothing of what is built.
Built-more :
    (c : Aiger) (u : Unfolding) (s : SolverState) (more : List (List ℤ))
    → Built c u s
    → Built c u (record s { clauses = s.clauses ++ more })
Built-more c u s more h = record {
  small = h.small;
  inserted = record {
    inputs = h.inserted.inputs;
    gates = λ k b e there σ all. h.inserted.gates k b e there σ (All-left _ s.clauses more all);
  };
  constraints = h.constraints;
  clauses = λ σ all. h.clauses σ (All-left _ s.clauses more all);
}

All-index :
    (P : And → Type 0) (gs : List And)
    → ((k : ℕ) (b : And) → get_elem? gs k ≡ some b → P b)
    → All P gs
All-index P [] h = tt
All-index P (g ∷ gs) h = (h 0 g refl, All-index P gs (λ k b e. h (suc k) b e))

module _ (solve : List (List ℤ) → ℤ → Answer) (max_thread_index thread k n : ℕ) (u : Unfolding)
    (s : SolverState) where
  pub solve_one_frame-Built :
      (c : Aiger)
      → Built c u (add_frame n u s)
      → Built c u (solve_one_frame solve max_thread_index thread k n u s).1
  unfolding solve_one_frame
  solve_one_frame-Built c h =
      let more = Built-more c u (add_frame n u s) ((neg (back u.outputs) ∷ []) ∷ []) h in
      elim (Bool-cases (is_skipped max_thread_index thread k)) [
        | inl skip ↦ rw skip more
        | inr checked ↦ elim (Answer-cases (solve (add_frame n u s).clauses (back u.outputs))) [
          | inl e ↦ rw (checked, e) more
          | inr (inl e) ↦ rw (checked, e) h
          | inr (inr e) ↦ rw (checked, e) h
        ]
      ]

  pub solve_one_frame_sat :
      IsSatRight solve
      → (solve_one_frame solve max_thread_index thread k n u s).0 ≡ sat
      → (σ : Assignment) × Satisfies σ (add_frame n u s).clauses × (holds σ (back u.outputs) ≡ true)
  unfolding solve_one_frame
  solve_one_frame_sat right answer = elim (Bool-cases (is_skipped max_thread_index thread k)) [
    | inl skip ↦ let w = rw (skip, solve_one_frame) at answer in cc
    | inr checked ↦ elim (Answer-cases (solve (add_frame n u s).clauses (back u.outputs))) [
      | inr (inl e) ↦ right _ _ e
      | inl e ↦ let w = rw (checked, e, solve_one_frame) at answer in cc
      | inr (inr e) ↦ let w = rw (checked, e, solve_one_frame) at answer in cc
    ]
  ]

-- The frames of a run, as the traces tell them.
constraint_trace-IsConstrained :
    (c : Aiger) (x : ℕ → Assignment) (k : ℕ)
    → All (λ t. t ≡ true) (constraint_trace x c.constraints k)
    → IsConstrained c k x
unfolding constraint_trace
constraint_trace-IsConstrained c x zero h i lt = absurd (omega arith)
constraint_trace-IsConstrained c x (suc k) h i lt = elim (dec_lt i k) [
  | yes earlier ↦
      constraint_trace-IsConstrained c x k
        (All-left (λ t. t ≡ true) (constraint_trace x c.constraints k) _ h) i earlier
  | no last ↦
      let here : i ≡ k = omega arith in
      rw here (
        values_true c.constraints
          (All-right (λ t. t ≡ true) (constraint_trace x c.constraints k) _ h))
]
  where
    values_true : (ls : List ℤ) → All (λ t. t ≡ true) (map (holds (x k)) ls) → AllTrue (x k) ls
    values_true [] p = tt
    values_true (l ∷ ls) (p, ps) = (p, values_true ls ps)

module _ (c : Aiger) (well : IsWellFormed c) (thread j : ℕ)
    (bad : IsVar (num_variables c) (checked_bad c thread)) (s : SolverState)
    (built : Built c (unfold_frames c thread (suc j)) s)
    (defined : IsDefined
      (unfold_frames c thread (suc j)).ands
      s.lit_has_insert
      (abs (back (unfold_frames c thread (suc j)).outputs)))
    (σ : Assignment) (clauses : Satisfies σ s.clauses)
    (is_bad : holds σ (back (unfold_frames c thread (suc j)).outputs) ≡ true) where
  abbrev w : Unfolding
  w = unfold_frames c thread (suc j)

  abbrev settled : Assignment
  settled = settle w.ands σ

  settled-keeps : (v : ℕ) → IsDefined w.ands s.lit_has_insert v → settled v ≡ σ v
  settled-keeps =
      settle-keeps (IsDefined w.ands s.lit_has_insert) σ w.ands σ
        (All-index _ w.ands (λ k b e defined_b.
          let there = defined_b k b e refl in
          let (left, right) = built.inserted.inputs k b e there in
          (built.inserted.gates k b e there σ clauses, left, right)))
        (λ v p. refl)

  settled-AllTrue :
      (ls : List ℤ)
      → All (λ l. IsDefined w.ands s.lit_has_insert (abs l)) ls
      → AllTrue σ ls
      → All (λ t. t ≡ true) (map (holds settled) ls)
  settled-AllTrue [] h t = tt
  settled-AllTrue (l ∷ ls) (h, hs) (t, ts) =
      (holds-agree settled σ l (settled-keeps (abs l) h) ∙ t, settled-AllTrue ls hs ts)

  -- The gates that no clause mentions are evaluated, and the others keep the values of `σ`.
  pub settled-IsRun :
      (x : ℕ → Assignment) × IsRun c (suc j) x
      × IsConstrained c (suc j) x
      × (holds (x j) (checked_bad c thread) ≡ true)
  unfolding bad_trace
  settled-IsRun =
      let increasing = (unfold_frames-IsBounded c well thread (suc j) bad).ands in
      let (constant, trues) = built.clauses σ clauses in
      let false_1 =
        settle_under 2 (length w.nodes) w.ands σ 1 increasing (omega arith) ∙ constant in
      let respects = settle-IsIncreasing 2 (length w.nodes) w.ands σ increasing in
      let (x, run, outs, cons) =
        unfold_frames-IsRun c thread (suc j) settled well bad false_1 respects in
      let (split, _) = next_output c well thread j bad settled false_1 respects in
      let (_, last) = snoc_inj _ (bad_trace x (checked_bad c thread) j) _ _ (
        sym (map-append (holds settled) (unfold_frames c thread j).outputs _)
        ∙ ap (map (holds settled)) (sym split)
        ∙ outs) in
      (
        x,
        run,
        constraint_trace-IsConstrained c x (suc j)
            (rw cons at (settled-AllTrue w.constraints built.constraints trues)),
        sym last ∙ holds-agree settled σ (back w.outputs) (settled-keeps _ defined) ∙ is_bad,
      )

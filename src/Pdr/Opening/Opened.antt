-- ===== src/Pdr/Opening/Opened.antt =====
-- The calls before the loop leave what the loop relies on.
use modelchecker.Common.{
  ℕ, suc, ◌+◌, ◌≡◌, refl, sym, ◌∙◌, false, Option, none, some, List, [], ◌∷◌, ◌++◌, ℤ, pos, length,
  All-append, All-left, All-right, Bool-cases, inl, inr,
}
use mathlib.Core.List.{append-nil, append_assoc}
use modelchecker.Circuit.{Assignment, holds}
use modelchecker.Circuit.Run.{IsVar, IsWellFormed, IsFrame, num_variables}
use modelchecker.Aiger.{Aiger}
use modelchecker.Sat.{Clause, Answer}
use modelchecker.Sat.Laws.{Satisfies, IsSolver, units}
use modelchecker.Sat.Cadical.{Cadical, new_cadical, add_clause, add_clauses}
use modelchecker.Sat.Cadical.Bounds.{add_clauses-Satisfies}
use modelchecker.Pdr.Init.{init_clauses, State, state_of}
use modelchecker.Pdr.Init.Counterexample.{Answer-cases, check_bmc0_right, Matches, IsBadStart}
use modelchecker.Pdr.Frames.{Setup, Pdr, depth, frame_solver, new_frame, first_frame}
use modelchecker.Pdr.Frames.Prepared.{IsGoodStep, IsSetup, frames_of}
use modelchecker.Pdr.Frames.Invariant.{cubes_of, IsPdr}
use modelchecker.Pdr.Frames.Initial.{IsStart}
use modelchecker.Pdr.Frames.Chain.{IsChain}
use modelchecker.Pdr.Frames.Start.{initial_frames, init_clauses-now, initial_frames-IsPdr}
use modelchecker.Pdr.Opening.{
  add_translation, two_step_solver, Opening, counterexample, ready, check_bmc1, enter_loop,
  open_search, next_state_of,
}

add_clauses_append : (cs : List Clause) (s : Cadical) → (add_clauses cs s).clauses ≡ s.clauses ++ cs
unfolding add_clauses add_clause
add_clauses_append [] s = sym (append-nil s.clauses)
add_clauses_append (c ∷ cs) s =
    add_clauses_append cs (add_clause c s) ∙ append_assoc s.clauses (c ∷ []) cs

module _ (σ : Assignment) (s : Setup) (solver : Cadical) where
  -- The same clauses are added to a new frame and to these.
  translation-Satisfies :
      Satisfies σ (frame_solver s).clauses
      → Satisfies σ solver.clauses
      → Satisfies σ
          (add_clauses (units s.primed.constraints_prime) (add_translation s solver)).clauses
  unfolding add_translation frame_solver add_clause new_cadical
  translation-Satisfies h base = elim (Bool-cases s.satelite_unsat) [
    | inl on ↦
        let w : Satisfies σ ((s.simplified_cnf ++ (pos 1 ∷ []) ∷ []) ++ last) =
          rw (on, add_clauses_append, add_clauses_append) at h in
        let front = All-left _ (s.simplified_cnf ++ (pos 1 ∷ []) ∷ []) last w in
        rw on (
          add_clauses-Satisfies σ last _
            (All-append _ _ ((pos 1 ∷ []) ∷ [])
              (add_clauses-Satisfies σ s.simplified_cnf solver base
                (All-left _ s.simplified_cnf ((pos 1 ∷ []) ∷ []) front))
              (All-right _ s.simplified_cnf ((pos 1 ∷ []) ∷ []) front))
            (All-right _ (s.simplified_cnf ++ (pos 1 ∷ []) ∷ []) last w))
    | inr off ↦
        let w : Satisfies σ (s.simplified_cnf ++ last) =
          rw (off, add_clauses_append, add_clauses_append) at h in
        rw off (
          add_clauses-Satisfies σ last _
            (add_clauses-Satisfies σ s.simplified_cnf solver base
              (All-left _ s.simplified_cnf last w))
            (All-right _ s.simplified_cnf last w))
  ]
    where
      last : List Clause
      last = units s.primed.constraints_prime

-- What the calls before the loop leave: their answer, and in the frames what the loop relies on.
pub record Opened (c : Aiger) (s : Pdr) (r : Option (Opening × Pdr)) : Type 0 where
  pub answer : Opening
  pub after : Pdr
  pub returns : r ≡ some (answer, after)
  pub bad_start :
      (first : State)
      → answer ≡ counterexample (first ∷ [])
      → ((x : Assignment) × IsFrame c x × Matches first x)
        × ((x : Assignment) → IsFrame c x → Matches first x → IsBadStart c x)
  pub pdr : answer ≡ ready → IsPdr c after × IsChain c (cubes_of after.frames)
  pub frames :
      answer ≡ ready
      → (length after.frames ≡ 3) × (depth after ≡ 1) × (after.earliest_strengthened_frame ≡ 1)
  pub no_bad_start : answer ≡ ready → (x : Assignment) → IsStart c x → holds x c.bad ≡ false
  pub no_bad_step :
      answer ≡ ready → (x y : Assignment) → IsStart c x → IsGoodStep c x y → holds y c.bad ≡ false

module _ (solve : ℕ → List Clause → List ℤ → Answer) (c : Aiger) (law : IsSolver solve)
    (well : IsWellFormed c) (bad : IsVar (num_variables c) c.bad)
    (first : c.primed_first_dimacs ≡ num_variables c) where
  later_law : (q : ℕ) → IsSolver (λ n. solve (q + n))
  later_law q = record {
    answers = λ n cs a. law.answers (q + n) cs a;
    sat_right = λ n cs a val σ. law.sat_right (q + n) cs a val σ;
    unsat_right = λ n cs a failed σ. law.unsat_right (q + n) cs a failed σ;
  }

  two_step-Satisfies :
      (s : Pdr) (x y : Assignment)
      → IsSetup c s.setup
      → IsStart c x
      → IsGoodStep c x y
      → Satisfies (frames_of c s.setup x y) (two_step_solver c s.setup).clauses
  unfolding two_step_solver
  two_step-Satisfies s x y h (_, initial, _) g =
      let σ = frames_of c s.setup x y in
      translation-Satisfies σ s.setup (add_clauses (init_clauses c) new_cadical)
        (h.clauses_hold x y g)
        (add_clauses-Satisfies σ (init_clauses c) new_cadical (unfold new_cadical in tt)
          (init_clauses-now c well first s x y g initial))

  -- For a well-formed circuit whose primed variables start right after the others, with a right solver
  -- and prepared clauses, and no frames yet: the calls before the loop return. If the answer is a
  -- counterexample of one state, a frame has its literals, and every frame that has them is initial,
  -- satisfies the constraints and is bad. If the search is ready for the loop, there are three frames,
  -- their solvers and cubes are right, no initial state that satisfies the constraints is bad, and no
  -- good step from one leads to a bad state.
  pub open_search-Opened :
      (s : Pdr) → IsSetup c s.setup → s.init ≡ none → Opened c s (open_search solve c s)
  unfolding open_search check_bmc1 enter_loop
  open_search-Opened s h no_init =
      let n = s.queries in
      let three : Pdr = initial_frames c (record s { queries = suc (suc n) }) in
      elim (check_bmc0_right (λ k. solve (n + k)) c (later_law n) well bad) [
        | inl (start, e, exists, right) ↦ record {
          answer = counterexample (start ∷ []);
          after = record s { queries = suc n };
          returns = rw (e, open_search) refl;
          bad_start = λ st w. let same : start ≡ st = cc in rw (← same) (exists, right);
          pdr = λ w. absurd (cc);
          frames = λ w. absurd (cc);
          no_bad_start = λ w. absurd (cc);
          no_bad_step = λ w. absurd (cc);
        }
        | inr (e, no_start) ↦
            elim (Answer-cases
              (solve (suc n) (two_step_solver c s.setup).clauses (s.setup.primed.bad_prime ∷ []))) [
                | inl (val, two) ↦ record {
                  answer = counterexample (state_of c val ∷ next_state_of c val ∷ []);
                  after = first_frame c (record s { queries = suc (suc n) });
                  returns = unfold first_frame in rw (e, two, open_search) refl;
                  bad_start = λ st w. absurd (one_state w);
                  pdr = λ w. absurd (cc);
                  frames = λ w. absurd (cc);
                  no_bad_start = λ w. absurd (cc);
                  no_bad_step = λ w. absurd (cc);
                }
                | inr (inl (failed, two)) ↦ record {
                  answer = ready;
                  after = three;
                  returns =
                      unfold first_frame in
                      unfold initial_frames in unfold new_frame in rw (e, two, open_search) refl;
                  bad_start = λ st w. absurd (cc);
                  pdr = λ w.
                      initial_frames-IsPdr c well first (record s { queries = suc (suc n) }) h
                        (λ i f. let g : none ≡ some i = sym no_init ∙ f in absurd (cc));
                  frames = λ w.
                      unfold initial_frames in
                      unfold first_frame in unfold new_frame in unfold depth in (refl, refl, refl);
                  no_bad_start = λ w x (frame, initial, cons). no_start x frame initial cons;
                  no_bad_step = λ w x y st g. elim (Bool-cases (holds y c.bad)) [
                    | inr off ↦ off
                    | inl on ↦ absurd (
                        law.unsat_right (suc n) _ _ failed (frames_of c s.setup x y) two
                          (two_step-Satisfies s x y h st g) (λ v. h.bad_means x y g ∙ on, tt))
                  ];
                }
                | inr (inr two) ↦ absurd (law.answers (suc n) _ _ two)
              ]
      ]
    where
      one_state : {a b d : State} → ¬ (counterexample (a ∷ b ∷ []) ≡ counterexample (d ∷ []))
      one_state w = cc

-- ===== src/Bmc/Check/Rounds.antt =====
-- The rounds of BMC::check that were answered `unsat`.
use modelchecker.Common.{
  ℕ, zero, suc, ◌+◌, ◌≤◌, ◌<◌, ◌≡◌, ap, false, not, Bool, Bool-cases, inl, inr, List, arith, ℤ,
  negsuc, abs, length, ltb, All-right,
}
use native.Mathlib.Decide.{dec_lt}
use modelchecker.Circuit.{Assignment, holds}
use modelchecker.Circuit.Run.{IsVar, IsWellFormed, num_variables}
use modelchecker.Aiger.{Aiger}
use modelchecker.Sat.Laws.{Satisfies, unit-Satisfies}
use modelchecker.Bmc.Unfold.{Unfolding, unfold_step, unfold_frames, checked_bad}
use modelchecker.Bmc.Solve.{Answer, unsat, SolverState, back, is_skipped, solve_one_frame}
use modelchecker.Bmc.Solve.Implied.{Answer-cases}
use modelchecker.Bmc.Check.{exhausted, check_frames, check, first_solver}
use modelchecker.Bmc.Check.Frames.{
  IsUnsatRight, Fits, Goes, next_output, Fits-Goes, Goes-Satisfies, solve_one_frame_clauses,
  solve_one_frame_unsat,
}

module _ (solve : List (List ℤ) → ℤ → Answer) (has_result : ℕ → Bool)
    (max_thread_index thread max_nodes : ℕ) (c : Aiger) where
  abbrev round : ℕ → Unfolding → SolverState → Answer × SolverState
  round k u s = solve_one_frame solve max_thread_index thread k (length c.constraints) u s

  -- A search that goes through goes on after each round.
  check_frames_next :
      (rounds k : ℕ) (u : Unfolding) (s : SolverState)
      → check_frames solve has_result max_thread_index thread max_nodes c (suc rounds) k u s
        ≡ exhausted
      → ((round k (unfold_step c thread u) s).0 ≡ unsat)
        × (check_frames solve has_result max_thread_index thread max_nodes c rounds
              (suc k)
              (unfold_step c thread u)
              (round k (unfold_step c thread u) s).1
            ≡ exhausted)
  unfolding check_frames
  check_frames_next rounds k u s h =
      let v = unfold_step c thread u in
      elim (Bool-cases (has_result k)) [
        | inl e ↦ let w = rw (e, check_frames) at h in cc
        | inr go ↦ elim (Answer-cases (round k v s).0) [
          | inr (inl e) ↦ let w = rw (go, e, check_frames) at h in cc
          | inr (inr e) ↦ let w = rw (go, e, check_frames) at h in cc
          | inl e ↦ elim (Bool-cases (ltb max_nodes (abs (back v.outputs)))) [
            | inl large ↦ let w = rw (go, e, large, check_frames) at h in cc
            | inr small ↦ (e, rw (go, e, small, check_frames) at h)
          ]
        ]
      ]

  module _ (well : IsWellFormed c) (bad : IsVar (num_variables c) (checked_bad c thread))
      (right : IsUnsatRight solve) where
    -- The clauses say no more than that the frames so far are not bad.
    abbrev Knows : ℕ → SolverState → Type 0
    Knows j s = (σ : Assignment) → Fits c thread j σ → Satisfies σ s.clauses

    round-Knows :
        (j : ℕ) (s : SolverState)
        → Knows j s
        → Knows (suc j) (round (suc j) (unfold_frames c thread (suc j)) s).1
    round-Knows j s known σ h =
        let u = unfold_frames c thread (suc j) in
        let (split, lit) = next_output c well thread j bad σ h.constant h.respects in
        let goes = Fits-Goes c well thread j bad σ h in
        let clauses =
          Goes-Satisfies c well thread j bad σ (length c.constraints) s goes
            (known σ goes.before) in
        solve_one_frame_clauses solve max_thread_index thread (suc j) (length c.constraints) u s σ
          lit clauses
          (All-right (λ l. holds σ l ≡ false) (unfold_frames c thread j).outputs _
            (rw split at h.outputs)).0

    check_frames_not_bad :
        (rounds j : ℕ) (s : SolverState)
        → Knows j s
        → check_frames solve has_result max_thread_index thread max_nodes c rounds
            (suc j)
            (unfold_frames c thread j)
            s
          ≡ exhausted
        → (i : ℕ) (σ : Assignment) → j ≤ i
        → i < j + rounds
        → is_skipped max_thread_index thread (suc i) ≡ false
        → Goes c thread i σ
        → holds σ (back (unfold_frames c thread (suc i)).outputs) ≡ false
    check_frames_not_bad zero j s known h i σ le lt checked goes = absurd (omega arith)
    check_frames_not_bad (suc rounds) j s known h i σ le lt checked goes =
        let (answer, rest) = check_frames_next rounds (suc j) (unfold_frames c thread j) s h in
        elim (dec_lt j i) [
          | yes later ↦
              check_frames_not_bad rounds (suc j)
                (round (suc j) (unfold_frames c thread (suc j)) s).1 (round-Knows j s known)
                (unfold unfold_frames in rest) i σ (omega arith) (omega arith) checked goes
          | no first ↦
              let here : i ≡ j = omega arith in
              let goes' : Goes c thread j σ = rw here at goes in
              rw here (
                solve_one_frame_unsat solve max_thread_index thread (suc j) (length c.constraints)
                  (unfold_frames c thread (suc j)) s σ right (rw here at checked)
                  (unfold unfold_frames in answer)
                  (Goes-Satisfies c well thread j bad σ (length c.constraints) s goes'
                    (known σ goes'.before)))
        ]

    pub check_not_bad :
        (nframes : ℕ)
        → check solve has_result max_thread_index thread max_nodes c nframes ≡ exhausted
        → (i : ℕ) (σ : Assignment) → i < nframes
        → is_skipped max_thread_index thread (suc i) ≡ false
        → Goes c thread i σ
        → holds σ (back (unfold_frames c thread (suc i)).outputs) ≡ false
    unfolding check
    check_not_bad nframes h i σ lt checked goes =
        check_frames_not_bad nframes 0 first_solver first (unfold unfold_frames in h) i σ
          (omega arith) (omega arith) checked goes
      where
        first : Knows 0 first_solver
        first τ fits = unit-Satisfies τ (negsuc 0) (unfold holds in ap not fits.constant)

-- ===== src/Bmc/Check/Found.antt =====
-- If BMC::check finds a bad frame, there is a run that reaches it.
use modelchecker.Common.{
  ℕ, zero, suc, ◌+◌, ◌<◌, ◌≡◌, refl, true, false, not, Bool, Bool-cases, inl, inr, List, [], ◌∷◌,
  arith, ℤ, negsuc, abs, length, ltb,
}
use modelchecker.Circuit.{Assignment, holds}
use modelchecker.Circuit.Run.{IsVar, IsWellFormed, num_variables}
use modelchecker.Aiger.{Aiger}
use modelchecker.Sat.{clause_holds}
use modelchecker.Sat.Laws.{units, Satisfies-units}
use modelchecker.Bmc.Unfold.{Unfolding, start, unfold_frames, checked_bad}
use modelchecker.Bmc.Unfold.Start.{start_empty}
use modelchecker.Bmc.Run.{IsRun}
use modelchecker.Bmc.Solve.{Answer, SolverState, back, add_frame, solve_one_frame}
use modelchecker.Bmc.Solve.Implied.{Answer-cases}
use modelchecker.Bmc.Check.{found, check_frames, check, first_solver}
use modelchecker.Bmc.Check.Built.{Built}
use modelchecker.Bmc.Check.Added.{add_frame-Built}
use modelchecker.Bmc.Check.Traces.{IsConstrained}
use modelchecker.Bmc.Check.Settled.{
  IsSatRight, solve_one_frame-Built, solve_one_frame_sat, settled-IsRun,
}

-- A search that finds a bad frame has a round that is answered `sat`.
module _ (solve : List (List ℤ) → ℤ → Answer) (has_result : ℕ → Bool)
    (max_thread_index thread max_nodes : ℕ) (c : Aiger) (well : IsWellFormed c)
    (bad : IsVar (num_variables c) (checked_bad c thread)) (right : IsSatRight solve) where
  abbrev round : ℕ → Unfolding → SolverState → Answer × SolverState
  round k u s = solve_one_frame solve max_thread_index thread k (length c.constraints) u s

  -- The frame that was found is the last one of a run that is bad there.
  abbrev IsBadAt : ℕ → Type 0
  IsBadAt k =
      (x : ℕ → Assignment) × IsRun c (suc k) x
      × IsConstrained c (suc k) x
      × (holds (x k) (checked_bad c thread) ≡ true)

  check_frames-IsBadAt :
      (rounds j : ℕ) (s : SolverState)
      → Built c (unfold_frames c thread j) s
      → (k : ℕ)
      → check_frames solve has_result max_thread_index thread max_nodes c rounds
          (suc j)
          (unfold_frames c thread j)
          s
        ≡ found k
      → (i : ℕ) × (k ≡ suc i) × (i < j + rounds) × IsBadAt i
  unfolding check_frames unfold_frames
  check_frames-IsBadAt zero j s built k h = cc
  check_frames-IsBadAt (suc rounds) j s built k h =
      let w = unfold_frames c thread (suc j) in
      let (added, defined) = add_frame-Built c well thread j bad s built in
      elim (Bool-cases (has_result (suc j))) [
        | inl e ↦ let v = rw (e, check_frames) at h in cc
        | inr go ↦ elim (Answer-cases (round (suc j) w s).0) [
          | inr (inl e) ↦
              let (σ, clauses, is_bad) =
                solve_one_frame_sat solve max_thread_index thread (suc j) (length c.constraints) w s
                  right e in
              let here : found (suc j) ≡ found k = rw (go, e, check_frames) at h in
              (
                j,
                cc,
                omega arith,
                settled-IsRun c well thread j bad (add_frame (length c.constraints) w s) added
                    defined σ clauses is_bad,
              )
          | inr (inr e) ↦ let v = rw (go, e, check_frames) at h in cc
          | inl e ↦ elim (Bool-cases (ltb max_nodes (abs (back w.outputs)))) [
            | inl large ↦ let v = rw (go, e, large, check_frames) at h in cc
            | inr small ↦
                let (i, e1, lt, run) =
                  check_frames-IsBadAt rounds (suc j) (round (suc j) w s).1
                    (solve_one_frame-Built solve max_thread_index thread (suc j)
                      (length c.constraints) w s c added)
                    k (rw (go, e, small, check_frames) at h) in
                (i, e1, omega arith, run)
          ]
        ]
      ]

  start-Built : Built c (start c) first_solver
  unfolding clause_holds
  start-Built = record {
    small = omega arith;
    inserted = record { inputs = λ k b e there. cc; gates = λ k b e there σ h. cc };
    constraints = rw (start_empty c).1 tt;
    clauses = λ σ h. (
      not_false (σ 1) (unfold holds in (Satisfies-units σ (negsuc 0 ∷ []) (unfold units in h)).0),
      rw (start_empty c).1 tt,
    );
  }
    where
      not_false : (b : Bool) → not b ≡ true → b ≡ false
      not_false true e = cc
      not_false false e = refl

-- If BMC::check answers that frame `k` is bad on a well-formed circuit, and the solver answers `sat`
-- only where some assignment satisfies its clauses and its assumption, then `k` is one of the frames
-- asked for, counted from 1, and there is a run of `k` frames from an initial state that satisfies the
-- constraints and is bad in the last of them: the cone of clauses that the solver is given leaves out
-- nothing that matters.
pub check-IsBad :
    (c : Aiger) (max_thread_index thread max_nodes nframes k : ℕ) (has_result : ℕ → Bool)
    (solve : List (List ℤ) → ℤ → Answer)
    → IsWellFormed c
    → IsVar (num_variables c) (checked_bad c thread)
    → IsSatRight solve
    → check solve has_result max_thread_index thread max_nodes c nframes ≡ found k
    → (i : ℕ) × (k ≡ suc i)
      × (i < nframes)
      × (x : ℕ → Assignment) × IsRun c (suc i) x
      × IsConstrained c (suc i) x
      × (holds (x i) (checked_bad c thread) ≡ true)
unfolding check unfold_frames
check-IsBad c max_thread_index thread max_nodes nframes k has_result solve well bad right h =
    let (i, counted, lt, (x, run, constrained, is_bad)) =
      check_frames-IsBadAt solve has_result max_thread_index thread max_nodes c well bad right
        nframes 0 first_solver
        (start-Built solve has_result max_thread_index thread max_nodes c well bad right) k h in
    (i, counted, omega arith, x, run, constrained, is_bad)

-- ===== src/Bmc/Check.antt =====
-- BMC::check of BMC.cpp: one more frame is unfolded and checked, until one reaches the bad literal.
pub mod Frames
pub mod Rounds
pub mod Traces
pub mod Safe
pub mod Grows
pub mod Keeps
pub mod Cone
pub mod ConeLoop
pub mod Built
pub mod Added
pub mod Settled
pub mod Found
use modelchecker.Common.{
  ℕ, zero, suc, ◌+◌, ◌≡◌, Bool, true, false, List, [], ◌∷◌, ℤ, negsuc, abs, length, ltb,
  if◌then◌else◌,
}
use modelchecker.Aiger.{Aiger}
use modelchecker.Bmc.Unfold.{Unfolding, start, unfold_step}
use modelchecker.Bmc.Solve.{Answer, sat, unsat, terminated, SolverState, back, solve_one_frame}

-- `found` has the number of the frame, 10 in the source; the other two are both 0 there.
pub data Verdict : Type 0 where
  found : ℕ → Verdict
  stopped exhausted : Verdict

-- BMC::initialize: variable 1 is false, and no gate is in the solver.
abbrev pub first_solver : SolverState
first_solver = record { clauses = (negsuc 0 ∷ []) ∷ []; lit_has_insert = [] }

module _ (solve : List (List ℤ) → ℤ → Answer) (has_result : ℕ → Bool)
    (max_thread_index thread_index max_nodes : ℕ) (c : Aiger) where
  -- `rounds` more frames, the first of which is frame `k`; `has_result k` says that RESULT was set
  -- by another thread when frame `k` begins.
  unfoldable pub check_frames : (rounds : ℕ) (k : ℕ) → Unfolding → SolverState → Verdict
  check_frames zero k u s = exhausted
  check_frames (suc rounds) k u s =
      let v = unfold_step c thread_index u in
      let (res, t) =
        solve_one_frame solve max_thread_index thread_index k (length c.constraints) v s in
      elim (has_result k) [
        | true ↦ stopped
        | false ↦ elim res [
          | sat ↦ found k
          | terminated ↦ stopped
          | unsat ↦ elim (ltb max_nodes (abs (back v.outputs))) [
            | true ↦ stopped
            | false ↦ check_frames rounds (suc k) v t
          ]
        ]
      ]

  unfoldable pub check : (nframes : ℕ) → Verdict
  check nframes = check_frames nframes 1 (start c) first_solver

-- ===== src/Bmc/Check/Safe.antt =====
-- If BMC::check goes through all its frames, no run reaches the bad literal within them.
use modelchecker.Common.{
  ℕ, zero, suc, ◌%◌, ◌≤◌, ◌<◌, ◌≡◌, refl, sym, ◌∙◌, false, Bool, Bool-cases, inl, inr, List, arith,
  ℤ, ◌==◌, ==_refl,
}
use native.Mathlib.Nat.{mod-lt}
use native.Mathlib.Decide.{dec_lt}
use modelchecker.Circuit.{Assignment, holds}
use modelchecker.Circuit.Run.{IsVar, IsWellFormed, num_variables}
use modelchecker.Aiger.{Aiger}
use modelchecker.Bmc.Unfold.{checked_bad}
use modelchecker.Bmc.Run.{IsRun}
use modelchecker.Bmc.Solve.{Answer, is_skipped}
use modelchecker.Bmc.Check.{Verdict, exhausted, check}
use modelchecker.Bmc.Check.Frames.{IsUnsatRight}
use modelchecker.Bmc.Check.Rounds.{check_not_bad}
use modelchecker.Bmc.Check.Traces.{IsConstrained, run-Goes, IsRun-shorter}

module _ (c : Aiger) (well : IsWellFormed c) (has_result : ℕ → ℕ → Bool)
    (solve : ℕ → List (List ℤ) → ℤ → Answer) (max_thread_index max_nodes nframes : ℕ) where
  abbrev check_of : ℕ → Verdict
  check_of t = check (solve t) (has_result t) max_thread_index t max_nodes c nframes

  -- A thread that goes through all frames and checks frame `suc i`.
  abbrev Covers : ℤ → ℕ → ℕ → Type 0
  Covers bad i t =
      IsUnsatRight (solve t)
      × (checked_bad c t ≡ bad)
      × (is_skipped max_thread_index t (suc i) ≡ false)
      × (check_of t ≡ exhausted)

  module _ (bad : ℤ) (var : IsVar (num_variables c) bad)
      (cover : (i : ℕ) → (t : ℕ) × Covers bad i t) (x : ℕ → Assignment) where
    covered_before :
        (j : ℕ)
        → j ≤ nframes
        → IsRun c j x
        → IsConstrained c j x
        → (i : ℕ) → i < j
        → holds (x i) bad ≡ false
    covered_before zero le run constrained i lt = absurd (omega arith)
    covered_before (suc j) le run constrained i lt =
        let before =
          covered_before j (omega arith) (IsRun-shorter run)
            (λ k below. constrained k (omega arith)) in
        elim (dec_lt i j) [
          | yes earlier ↦ before i earlier
          | no last ↦
              let here : i ≡ j = omega arith in
              let (t, (right, same, checked, through)) = cover j in
              let var' : IsVar (num_variables c) (checked_bad c t) = rw same var in
              let (σ, goes, e) = run-Goes c well t j var' x run constrained (rw same before) in
              rw (here, ← same)
                (sym e
                  ∙ check_not_bad (solve t) (has_result t) max_thread_index t max_nodes c well var'
                      right nframes through j σ (omega arith) checked goes)
        ]

not_skipped : (n k t : ℕ) → k % n ≡ t → is_skipped n t k ≡ false
unfolding is_skipped
not_skipped n k t e =
    rw (← e, ==_refl (k % n))
      (elim (Bool-cases (n == 1)) [ inl one ↦ rw one refl | inr more ↦ rw more refl ])

-- One thread alone checks every frame.
alone : (k t : ℕ) → is_skipped 1 t k ≡ false
unfolding is_skipped
alone k t = refl

-- If BMC::check, run alone for the property of its thread on a well-formed circuit, goes through all
-- its frames, and the solver answers `unsat` only where no assignment satisfies its clauses and its
-- assumption, then no run from an initial state that satisfies the constraints is bad in one of these
-- frames.
pub check-IsSafe :
    (c : Aiger) (thread max_nodes nframes : ℕ) (has_result : ℕ → Bool)
    (solve : List (List ℤ) → ℤ → Answer)
    → IsWellFormed c
    → IsVar (num_variables c) (checked_bad c thread)
    → IsUnsatRight solve
    → check solve has_result 1 thread max_nodes c nframes ≡ exhausted
    → (j : ℕ) (x : ℕ → Assignment) → j < nframes
    → IsRun c (suc j) x
    → IsConstrained c (suc j) x
    → holds (x j) (checked_bad c thread) ≡ false
check-IsSafe c thread max_nodes nframes has_result solve well bad right through j x lt run
      constrained =
    covered_before c well (λ _. has_result) (λ _. solve) 1 max_nodes nframes (checked_bad c thread)
      bad (λ i. (thread, (right, refl, alone (suc i) thread, through))) x (suc j) lt run constrained
      j (omega arith)

-- If BMC::check goes through all its frames in each of `max_thread_index` threads, which run for one
-- property of a well-formed circuit and of which frame `k` is checked by number `k % max_thread_index`,
-- and each thread's solver answers `unsat` only where no assignment satisfies its clauses and its
-- assumption, then no run from an initial state that satisfies the constraints is bad in one of these
-- frames: the frames that a thread leaves out are checked by the others.
pub threads-IsSafe :
    (c : Aiger) (max_thread_index max_nodes nframes : ℕ) (has_result : ℕ → ℕ → Bool)
    (solve : ℕ → List (List ℤ) → ℤ → Answer)
    → IsWellFormed c
    → IsVar (num_variables c) (checked_bad c 0)
    → c.find_bug_only ≡ false
    → 0 < max_thread_index
    → ((t : ℕ) → t < max_thread_index → IsUnsatRight (solve t))
    → ((t : ℕ)
        → t < max_thread_index
        → check (solve t) (has_result t) max_thread_index t max_nodes c nframes ≡ exhausted)
    → (j : ℕ) (x : ℕ → Assignment) → j < nframes
    → IsRun c (suc j) x
    → IsConstrained c (suc j) x
    → holds (x j) (checked_bad c 0) ≡ false
threads-IsSafe c max_thread_index max_nodes nframes has_result solve well bad one_property
      some_thread right through j x lt run constrained =
    covered_before c well has_result solve max_thread_index max_nodes nframes (checked_bad c 0) bad
      cover x (suc j) lt run constrained j (omega arith)
  where
    cover :
        (i : ℕ)
        → (t : ℕ) × Covers c well has_result solve max_thread_index max_nodes nframes
            (checked_bad c 0)
            i
            t
    cover i =
        let t = suc i % max_thread_index in
        let small : t < max_thread_index = mod-lt (suc i) some_thread in
        (
          t,
          (
            right t small,
            unfold checked_bad in rw one_property refl,
            not_skipped max_thread_index (suc i) t refl,
            through t small,
          ),
        )

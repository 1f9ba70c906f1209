-- ===== src/CommandLine/Printed.antt =====
-- What main prints, and what it says about the circuit.
use modelchecker.Common.{
  ℕ, suc, ◌+◌, ◌<◌, ◌≡◌, ◌≢◌, ◌↔◌, ◌∙◌, ◌≤◌, refl, true, false, Bool, Bool-cases, inl, inr, List,
  if◌then◌else◌, ◌==◌, ==→eq, ℤ, pos, abs, arith, ◌&&◌, ◌==ℤ◌,
}
use modelchecker.Circuit.{Assignment, holds}
use modelchecker.Circuit.Run.{IsVar, IsWellFormed, num_variables}
use modelchecker.Aiger.{Aiger}
use modelchecker.Bmc.Unfold.{checked_bad}
use modelchecker.Bmc.Run.{IsRun}
use modelchecker.Bmc.Solve.{Answer}
use modelchecker.Bmc.Check.{exhausted}
use modelchecker.Bmc.Check.Frames.{IsUnsatRight}
use modelchecker.Bmc.Check.Traces.{IsConstrained}
use modelchecker.Bmc.Check.Safe.{check-IsSafe, threads-IsSafe}
use modelchecker.CommandLine.{
  Options, plan, sharing, bmc_threads, start_bmc, no_output_asserted, unsafe, safe, code_2, code_1,
  code_0, report,
}

not_ten : (result : ℕ) → (result == 10) ≡ false → result ≢ 10
not_ten result e h = let w = rw h at e in cc

-- The result line tells in each mode whether the result is 10, and nothing else: it is
-- 'result: unsafe', or the code 1 for -findbug, where the result is 10, and 'No output asserted', or
-- the code 2, for every other one, so that 20, which means that the circuit is safe, is printed as 0,
-- which means that nothing was found; 'result: safe' and the code 0 are never printed.
pub report_tells_unsafe :
    (find_bug_only : Bool) (result : ℕ)
    → (report find_bug_only result ≡ (if find_bug_only then code_1 else unsafe) ↔ result ≡ 10)
      × (report find_bug_only result ≡ (if find_bug_only then code_2 else no_output_asserted)
          ↔ result ≢ 10)
      × (report find_bug_only 20 ≡ report find_bug_only 0)
      × (report find_bug_only result ≢ safe)
      × (report find_bug_only result ≢ code_0)
unfolding report
report_tells_unsafe true result = elim (Bool-cases (result == 10)) [
  | inl e ↦
      let ten = ==→eq result 10 e in
      rw e ((λ h. ten, λ h. refl), (λ h. cc, λ h. absurd (h ten)), refl, λ w. cc, λ w. cc)
  | inr e ↦
      let other = not_ten result e in
      rw e ((λ h. cc, λ h. absurd (other h)), (λ h. other, λ h. refl), refl, λ w. cc, λ w. cc)
]
report_tells_unsafe false result = elim (Bool-cases (result == 10)) [
  | inl e ↦
      let ten = ==→eq result 10 e in
      rw e ((λ h. ten, λ h. refl), (λ h. cc, λ h. absurd (h ten)), refl, λ w. cc, λ w. cc)
  | inr e ↦
      let other = not_ten result e in
      rw e ((λ h. cc, λ h. absurd (other h)), (λ h. other, λ h. refl), refl, λ w. cc, λ w. cc)
]

-- If every thread of BMC that main starts goes through all its frames, on a well-formed circuit and
-- with solvers that answer `unsat` only where no assignment satisfies their clauses and their
-- assumption, then none of the properties that they check is reached, from an initial state and under
-- the constraints, in frame 0 or in one of the `nframes` frames after it: this holds for the threads
-- that share one property, and for -findbug, where each has its own.
pub start_bmc-IsSafe :
    (o : Options) (c : Aiger) (max_nodes : ℕ) (has_result : ℕ → ℕ → Bool)
    (solve : ℕ → List (List ℤ) → ℤ → Answer)
    → IsWellFormed c
    → c.find_bug_only ≡ o.find_bug_only
    → ((t : ℕ) → IsUnsatRight (solve t))
    → ((t : ℕ)
        → t < bmc_threads (plan o c.num_property)
        → IsVar (num_variables c) (checked_bad c t)
          × (start_bmc solve has_result max_nodes o c t ≡ exhausted))
    → (t j : ℕ) (x : ℕ → Assignment) → t < bmc_threads (plan o c.num_property)
    → j ≤ abs o.nframes
    → IsRun c (suc j) x
    → IsConstrained c (suc j) x
    → holds (x j) (checked_bad c t) ≡ false
unfolding start_bmc plan sharing bmc_threads
start_bmc-IsSafe o c max_nodes has_result solve well mode right through t j x started lt run
      constrained =
    elim (Bool-cases o.find_bug_only) [
      | inl each ↦
          let (bad, done) = through t started in
          check-IsSafe c t max_nodes (abs o.nframes + 1) (has_result t) (solve t) well bad (right t)
            (rw each at done) j x (omega arith) run constrained
      | inr one ↦ elim (Bool-cases ((o.pdr_thread ==ℤ pos 0) && (o.bmc_thread ==ℤ pos 0))) [
        | inl single ↦ let none_started = rw (one, single) at started in absurd (omega arith)
        | inr several ↦
            let some_started : t < abs o.bmc_thread = rw (one, several) at started in
            let same : (k : ℕ) → checked_bad c k ≡ checked_bad c 0 =
              λ k. unfold checked_bad in rw (mode, one) refl in
            let all = rw (one, several) at through in
            rw same (
              threads-IsSafe c (abs o.bmc_thread) max_nodes (abs o.nframes + 1) has_result solve
                well (all 0 (omega arith)).0 (mode ∙ one) (omega arith) (λ k below. right k)
                (λ k below. (all k below).1) j x (omega arith) run constrained)
      ]
    ]

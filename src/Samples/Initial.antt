-- ===== src/Samples/Initial.antt =====
-- The initial states and one step of the sample circuit.
use modelchecker.Common.{ℕ, ◌<◌, ◌≡◌, ◌⊎◌, refl, true, false, arith}
use modelchecker.Circuit.{Assignment, holds}
use modelchecker.Circuit.Settle.{settle}
use modelchecker.Circuit.Run.{IsFrame, IsInitial}
use modelchecker.Aiger.{first_ands_index}
use modelchecker.Sat.Laws.{Satisfies, AllTrue}
use modelchecker.Pdr.Init.{init_clauses, State, check_bmc0, found, none_found}
use modelchecker.Pdr.Init.Exact.{init_clauses_exact}
use modelchecker.Pdr.Init.Counterexample.{check_bmc0_right, Matches, IsBadStart}
use modelchecker.Pdr.Translation.Holds.{IsTranslated, StepClauses, encode_translation-StepClauses}
use modelchecker.Samples.Circuits.{sample, sample-IsWellFormed, bad_run}
use modelchecker.Samples.BmcRuns.{bad_run-IsFrame, bad_run-IsStep}
use modelchecker.Samples.Solver.{brute_solve, brute_solve-IsSolver}

init_clauses_exact_example :
    (IsFrame sample (bad_run 0)
        × IsInitial sample (bad_run 0)
        × AllTrue (bad_run 0) sample.constraints
      → Satisfies (bad_run 0) (init_clauses sample))
    × (Satisfies (bad_run 1) (init_clauses sample)
        → IsFrame sample (settle sample.ands (bad_run 1))
          × IsInitial sample (settle sample.ands (bad_run 1))
          × AllTrue (settle sample.ands (bad_run 1)) sample.constraints
          × ((v : ℕ)
              → v < first_ands_index sample
              → settle sample.ands (bad_run 1) v ≡ bad_run 1 v))
init_clauses_exact_example = init_clauses_exact sample (bad_run 0) (bad_run 1) sample-IsWellFormed

check_bmc0_right_example :
    ((s : State) × (check_bmc0 brute_solve sample ≡ found s)
      × ((x : Assignment) × IsFrame sample x × Matches s x)
      × ((x : Assignment) → IsFrame sample x → Matches s x → IsBadStart sample x))
    ⊎ ((check_bmc0 brute_solve sample ≡ none_found)
        × ((x : Assignment)
            → IsFrame sample x
            → IsInitial sample x
            → AllTrue x sample.constraints
            → holds x sample.bad ≡ false))
check_bmc0_right_example =
    check_bmc0_right brute_solve sample brute_solve-IsSolver sample-IsWellFormed (omega arith)

pub sample-IsTranslated : IsTranslated sample
sample-IsTranslated = record {
  well = sample-IsWellFormed;
  bad_var = (omega arith, omega arith);
  first_primed = refl;
}

encode_translation-StepClauses_example : StepClauses sample true (bad_run 0) (bad_run 1)
unfolding holds
encode_translation-StepClauses_example =
    encode_translation-StepClauses sample true (bad_run 0) (bad_run 1) sample-IsTranslated
      (bad_run-IsFrame 0 (omega arith)) (bad_run-IsFrame 1 (omega arith))
      (bad_run-IsStep 0 (omega arith)) refl tt

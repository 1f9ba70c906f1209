-- ===== src/Samples/Arguments.antt =====
-- The command line at concrete arguments.
use modelchecker.Common.{◌<◌, ◌≡◌, ◌≢◌, ◌↔◌, refl, false, [], ◌∷◌, ℕ, ℤ, pos, negsuc, arith}
use modelchecker.Circuit.{holds}
use modelchecker.Circuit.Run.{IsVar, num_variables}
use modelchecker.Bmc.Unfold.{checked_bad}
use modelchecker.Bmc.Check.{exhausted}
use modelchecker.Aiger.Read.{is_digit}
use modelchecker.CommandLine.{
  Options, default_options, codes, parse_options, parse_option, parse_value, same_text,
  validate_input, is_number, all_digits, digits_value, atoi, starts_with_digit, plan, sharing,
  bmc_threads, start_bmc, report, no_output_asserted, unsafe, safe, code_0,
}
use modelchecker.CommandLine.Ranges.{IsInRange, parse_options-IsInRange}
use modelchecker.CommandLine.Printed.{start_bmc-IsSafe, report_tells_unsafe}
use modelchecker.Samples.Frames.{weak_solve, weak_solve_right}
use modelchecker.Samples.Checks.{
  idle, idle-IsWellFormed, idle_exhausted, idle_frame, idle_frame-IsRun,
}

-- What a too large number wraps to.
abbrev wrapped : ℕ → ℤ
wrapped n = negsuc 0

abbrev two_threads : Options
two_threads = record default_options { bmc_thread = pos 2; nframes = pos 1 }

-- The second value is out of range; the third option takes the file's name as its value.
parsed :
    (parse_options wrapped
      (codes "-bmc" ∷ codes "4" ∷ codes "-pdr" ∷ codes "5" ∷ codes "-pindex" ∷ codes "a.aig" ∷ [])
      default_options)
    ≡ record default_options { bmc_thread = pos 4 }
unfolding parse_options parse_option parse_value same_text validate_input is_number all_digits
    digits_value atoi starts_with_digit is_digit
parsed = refl

parse_options-IsInRange_example :
    IsInRange
      (parse_options wrapped (codes "-bmc" ∷ codes "4" ∷ codes "a.aig" ∷ []) default_options)
parse_options-IsInRange_example =
    parse_options-IsInRange wrapped (codes "-bmc" ∷ codes "4" ∷ codes "a.aig" ∷ [])

report_tells_unsafe_example :
    (report false 20 ≡ unsafe ↔ ◌≡◌ {A = ℕ} 20 10)
    × (report false 20 ≡ no_output_asserted ↔ ◌≢◌ {A = ℕ} 20 10)
    × (report false 20 ≡ report false 0)
    × (report false 20 ≢ safe)
    × (report false 20 ≢ code_0)
report_tells_unsafe_example = report_tells_unsafe false 20

started :
    (t : ℕ)
    → t < bmc_threads (plan two_threads idle.num_property)
    → IsVar (num_variables idle) (checked_bad idle t)
      × (start_bmc (λ _. weak_solve) (λ _ _. false) 100 two_threads idle t ≡ exhausted)
unfolding plan bmc_threads start_bmc sharing checked_bad
started t lt = (omega arith, idle_exhausted t (omega arith))

start_bmc-IsSafe_example : holds (idle_frame 1) (checked_bad idle 1) ≡ false
start_bmc-IsSafe_example =
    start_bmc-IsSafe two_threads idle 100 (λ _ _. false) (λ _. weak_solve) idle-IsWellFormed refl
      (λ t. weak_solve_right) started 1 1 idle_frame
      (unfold plan in unfold bmc_threads in omega arith) (omega arith) idle_frame-IsRun (λ i lt. tt)

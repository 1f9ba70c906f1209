-- ===== src/Pdr/Lift.antt =====
-- PDR::encode_lift of PDR.cpp: the clauses of a step, without the constraints, for lifting a state.
pub mod Lifted
use modelchecker.Common.{Bool, false, Option, some, ◌>>=◌, List, ℕ}
use modelchecker.Aiger.{Aiger}
use modelchecker.Sat.{Clause}
use modelchecker.Sat.Cadical.{simplify}
use modelchecker.Pdr.Primes.{Primes}
use modelchecker.Pdr.Translation.{Primed, encode_translation}
use modelchecker.Pdr.Frames.{Setup, satelite}

-- The primed literals that translate_to_dimacs made, and the maps as they are by now.
abbrev pub primed_now : Setup → Primed
primed_now s = record s.primed { primes = s.primes }

-- What satelite2 simplifies, and the maps afterwards. The asserts and the loops are those of
-- encode_translation, of which only the clauses of the constraints are left out.
unfoldable pub encode_lift :
    (List Clause → (ℕ → Bool) → List Clause) → Aiger → Setup → Option (List Clause × Primes)
encode_lift eliminate c s = do
  e ← encode_translation c false (primed_now s)
  some (simplify eliminate (satelite c (primed_now s) e), e.primes)

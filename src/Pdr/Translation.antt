-- ===== src/Pdr/Translation.antt =====
-- PDR::translate_to_dimacs and PDR::encode_translation of PDR.cpp: the clauses of one step.
pub mod Gates
pub mod Total
pub mod Holds
use modelchecker.Common.{
  ℕ, zero, suc, ◌+◌, Bool, true, false, ◌&&◌, ◌||◌, Option, none, some, ◌>>=◌, List, [], ◌∷◌, ◌++◌,
  ◌==◌, ℤ, pos, negsuc, neg, abs, if◌then◌else◌, length, map,
}
use modelchecker.Circuit.{And}
use modelchecker.Aiger.{Aiger, first_latch}
use modelchecker.Pdr.Primes.{Primes, prime_var, prime_lit}
use modelchecker.Sat.{Clause, and_clauses, gate_clauses}
use modelchecker.Sat.Laws.{units}
use modelchecker.Sat.Cone.{insert, var_set}

-- num_inputs + num_latches, which prime_var compares with.
abbrev pub leaves : Aiger → ℕ
leaves c = c.num_inputs + c.num_latches

unfoldable pub prime_lits : ℕ → ℕ → List ℤ → Primes → Option (List ℤ × Primes)
prime_lits n first [] s = some ([], s)
prime_lits n first (l ∷ ls) s = do
  (p, t) ← prime_lit n first l s
  (ps, u) ← prime_lits n first ls t
  some (p ∷ ps, u)

-- The bad literal and the constraints of the next state.
pub record Primed : Type 0 where
  pub bad_prime : ℤ
  pub constraints_prime : List ℤ
  pub primes : Primes

-- The variables of the primed inputs and latches come first.
abbrev pub first_primes : Aiger → Primes
first_primes c = record {
  num_variables = length c.variables + leaves c;
  map_to_prime = λ _. none;
  map_to_unprime = λ _. none;
}

unfoldable pub translate_to_dimacs : Aiger → Option Primed
translate_to_dimacs c = do
  (bad, s) ← prime_lit (leaves c) c.primed_first_dimacs c.bad (first_primes c)
  (cs, t) ← prime_lits (leaves c) c.primed_first_dimacs c.constraints s
  some (record { bad_prime = bad; constraints_prime = cs; primes = t })

-- assert(prime_var(abs(constraints[i])) == abs(constraints_prime[i])), one after the other.
unfoldable pub check_constraints : ℕ → ℕ → List ℤ → List ℤ → Primes → Option Primes
check_constraints n first [] ps s = some s
check_constraints n first (l ∷ ls) [] s = none
check_constraints n first (l ∷ ls) (p ∷ ps) s = elim (prime_var n first (abs l) s) [
  | none ↦ none
  | some (v, t) ↦ elim (v == abs p) [ true ↦ check_constraints n first ls ps t | false ↦ none ]
]

-- Each latch `v` takes its next state: two clauses for its primed literal.
unfoldable pub latch_clauses : ℕ → ℕ → ℕ → List ℤ → Primes → Option (List Clause × Primes)
latch_clauses n first v [] s = some ([], s)
latch_clauses n first v (next ∷ nexts) s = do
  (pl, t) ← prime_lit n first (pos v) s
  (rest, u) ← latch_clauses n first (suc v) nexts t
  some ((neg pl ∷ next ∷ []) ∷ (neg next ∷ pl ∷ []) ∷ rest, u)

-- The state of the loop over the gates.
pub record Encoding : Type 0 where
  pub lit_set : ℕ → Bool
  pub prime_lit_set : ℕ → Bool
  pub primes : Primes
  pub clauses : List Clause

-- The primed copy of a gate, where the primed bad literal or constraints need it.
unfoldable pub prime_gate_clauses : ℕ → ℕ → And → Encoding → Option Encoding
prime_gate_clauses n first a e =
    if e.prime_lit_set a.o
    then (do
      (po, s) ← prime_lit n first (pos a.o) e.primes
      (pi1, t) ← prime_lit n first a.i1 s
      (pi2, u) ← prime_lit n first a.i2 t
      some (record e {
        prime_lit_set = insert (abs a.i2) (insert (abs a.i1) e.prime_lit_set);
        primes = u;
        clauses = e.clauses ++ and_clauses po pi1 pi2;
      }))
    else some e

unfoldable pub translate_gate : ℕ → ℕ → And → Encoding → Option Encoding
translate_gate n first a e =
    if e.lit_set a.o
    then prime_gate_clauses n first a (record e {
      lit_set = insert (abs a.i2) (insert (abs a.i1) e.lit_set);
      clauses = e.clauses ++ gate_clauses a;
    })
    else some e

-- The loop over the gates, of which the last comes first.
unfoldable pub translate_gates : ℕ → ℕ → List And → Encoding → Option Encoding
translate_gates n first [] e = some e
translate_gates n first (a ∷ rest) e = do
  later ← translate_gates n first rest e
  translate_gate n first a later

-- `cons` says whether the constraints are asserted of the current state.
unfoldable pub step_clauses : Aiger → Bool → List Clause
step_clauses c cons =
    (negsuc 0 ∷ []) ∷ (neg c.bad ∷ []) ∷ (if cons then units c.constraints else [])

-- What is added to `satelite` before it simplifies, and the asserts on the constraints before that.
unfoldable pub encode_translation : Aiger → Bool → Primed → Option Encoding
encode_translation c cons p = do
  checked ←
      check_constraints (leaves c) c.primed_first_dimacs c.constraints p.constraints_prime p.primes
  let needed = insert (abs c.bad) (var_set c.constraints)
  let lits = λ (v : ℕ). needed v || var_set c.nexts v
  (steps, s) ← latch_clauses (leaves c) c.primed_first_dimacs (first_latch c) c.nexts checked
  translate_gates (leaves c) c.primed_first_dimacs c.ands (record {
    lit_set = lits;
    prime_lit_set = needed;
    primes = s;
    clauses = step_clauses c cons ++ steps;
  })

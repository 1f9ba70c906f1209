-- ===== src/Sat.antt =====
-- Clauses, the answers of a SAT solver, and the three clauses of an AND gate.
pub mod Laws
pub mod Cadical
pub mod Gates
pub mod Cone
use modelchecker.Common.{ℕ, Bool, false, ◌||◌, Option, List, [], ◌∷◌, ℤ, pos, neg}
use modelchecker.Circuit.{And, Assignment, holds}

abbrev pub Clause : Type 0
Clause = List ℤ

-- A clause holds if one of its literals does.
unfoldable pub clause_holds : Assignment → Clause → Bool
clause_holds σ [] = false
clause_holds σ (l ∷ ls) = holds σ l || clause_holds σ ls

-- What solve, val and failed of a solver give: the value of a variable, where it has one, or the
-- assumptions that were used.
pub data Answer : Type 0 where
  sat : (ℕ → Option Bool) → Answer
  unsat : (ℤ → Bool) → Answer
  terminated : Answer

-- Three clauses say that `o` is the conjunction of `i1` and `i2`.
unfoldable pub and_clauses : ℤ → ℤ → ℤ → List Clause
and_clauses o i1 i2 = (neg o ∷ i1 ∷ []) ∷ (neg o ∷ i2 ∷ []) ∷ (o ∷ neg i1 ∷ neg i2 ∷ []) ∷ []

unfoldable pub gate_clauses : And → List Clause
unfolding and_clauses
gate_clauses a = and_clauses (pos a.o) a.i1 a.i2

-- ===== src/Sat/Laws.antt =====
-- What is relied on of a solver, and facts on the clauses that an assignment satisfies.
use modelchecker.Common.{ℕ, ◌≡◌, ◌≢◌, true, Bool, Option, some, List, [], ◌∷◌, ℤ, All, map, arith}
use modelchecker.Circuit.{Assignment, holds}
use modelchecker.Sat.{Clause, clause_holds, Answer, sat, unsat, terminated}

abbrev pub Satisfies : Assignment → List Clause → Type 0
Satisfies σ cs = All (λ c. clause_holds σ c ≡ true) cs

abbrev pub AllTrue : Assignment → List ℤ → Type 0
AllTrue σ ls = All (λ l. holds σ l ≡ true) ls

-- `σ` has the values that the solver reports; the variables without a value are free.
abbrev pub Completes : Assignment → (ℕ → Option Bool) → Type 0
Completes σ val = (v : ℕ) (b : Bool) → val v ≡ some b → σ v ≡ b

-- The documented behaviour of ipasir_solve, ipasir_val and ipasir_failed, for the solver's n-th call:
-- it answers; the values of `sat` satisfy the clauses and assumptions, however they are completed; and
-- no assignment satisfies the clauses with the failed assumptions of `unsat`.
pub record IsSolver (solve : ℕ → List Clause → List ℤ → Answer) : Type 0 where
  pub answers : (n : ℕ) (cs : List Clause) (assumed : List ℤ) → solve n cs assumed ≢ terminated
  pub sat_right :
      (n : ℕ) (cs : List Clause) (assumed : List ℤ) (val : ℕ → Option Bool) (σ : Assignment)
      → solve n cs assumed ≡ sat val
      → Completes σ val
      → Satisfies σ cs × AllTrue σ assumed
  pub unsat_right :
      (n : ℕ) (cs : List Clause) (assumed : List ℤ) (failed : ℤ → Bool) (σ : Assignment)
      → solve n cs assumed ≡ unsat failed
      → Satisfies σ cs
      → ¬ All (λ a. failed a ≡ true → holds σ a ≡ true) assumed

pub unit-Satisfies : (σ : Assignment) (l : ℤ) → holds σ l ≡ true → Satisfies σ ((l ∷ []) ∷ [])
unfolding clause_holds
unit-Satisfies σ l h = (ground (arith, h), tt)

unfoldable pub units : List ℤ → List Clause
units ls = map (λ l. l ∷ []) ls

pub units-Satisfies : (σ : Assignment) (ls : List ℤ) → AllTrue σ ls → Satisfies σ (units ls)
unfolding units clause_holds
units-Satisfies σ [] h = tt
units-Satisfies σ (l ∷ ls) (h, hs) = (ground (arith, h), units-Satisfies σ ls hs)

pub Satisfies-units : (σ : Assignment) (ls : List ℤ) → Satisfies σ (units ls) → AllTrue σ ls
unfolding units clause_holds
Satisfies-units σ [] h = tt
Satisfies-units σ (l ∷ ls) (h, hs) = (ground (arith, h), Satisfies-units σ ls hs)

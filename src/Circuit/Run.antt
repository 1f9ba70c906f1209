-- ===== src/Circuit/Run.antt =====
-- The transition system that a circuit stands for: its frames, its initial states and its steps.
use modelchecker.Common.{
  ℕ, suc, ◌+◌, ◌≤◌, ◌<◌, ◌≡◌, true, false, List, [], ◌∷◌, ℤ, abs, length, All,
}
use modelchecker.Circuit.{Assignment, holds, IsLiteral, GateHolds}
use modelchecker.Circuit.Order.{IsOrderedFrom}
use modelchecker.Aiger.{Aiger, first_latch, first_ands_index}

-- A literal of the circuit's variables.
abbrev pub IsVar : ℕ → ℤ → Type 0
IsVar bound l = IsLiteral l × (abs l < bound)

-- The number of variables, which is also variables.size().
abbrev pub num_variables : Aiger → ℕ
num_variables c = first_ands_index c + length c.ands

-- One literal at most for each latch, in the order of the latches.
abbrev pub IsReset : ℕ → ℕ → List ℤ → Type 0
IsReset n end [] = Unit {0}
IsReset n end (l ∷ ls) = (n ≤ abs l) × (abs l < end) × IsReset (suc (abs l)) end ls

-- What translate_to_dimacs leaves, and the checkers rely on.
pub record IsWellFormed (c : Aiger) : Type 0 where
  pub ordered : IsOrderedFrom (first_ands_index c) c.ands
  pub sized : length c.variables ≡ num_variables c
  pub next_count : length c.nexts ≡ c.num_latches
  pub next_vars : All (IsVar (num_variables c)) c.nexts
  pub reset : IsReset (first_latch c) (first_ands_index c) c.init_state
  pub constraint_vars : All (IsVar (num_variables c)) c.constraints
  pub bad_vars : All (IsVar (num_variables c)) c.allbad

-- One frame: variable 1 is false, and the gates hold.
pub record IsFrame (c : Aiger) (x : Assignment) : Type 0 where
  pub constant : x 1 ≡ false
  pub gates : All (GateHolds x) c.ands

-- The latches start at their reset values.
abbrev pub IsInitial : Aiger → Assignment → Type 0
IsInitial c x = All (λ l. holds x l ≡ true) c.init_state

-- From variable `v` on, the latches of `y` have the next values of `x`.
abbrev pub NextLatches : Assignment → Assignment → ℕ → List ℤ → Type 0
NextLatches x y v [] = Unit {0}
NextLatches x y v (l ∷ ls) = (y v ≡ holds x l) × NextLatches x y (suc v) ls

abbrev pub IsStep : Aiger → Assignment → Assignment → Type 0
IsStep c x y = NextLatches x y (first_latch c) c.nexts

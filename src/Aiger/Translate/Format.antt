-- ===== src/Aiger/Translate/Format.antt =====
-- What the AIGER format promises of a circuit that is read.
use modelchecker.Common.{ℕ, suc, ◌+◌, ◌*◌, ◌<◌, ◌≡◌, some, List, [], get_elem?}
use modelchecker.Aiger.{Aiger, AigerLatch, AigerAnd}

-- A vector has a literal of variables below `bound` at each of its first `n` places.
abbrev pub HasLiterals : ℕ → ℕ → List ℕ → Type 0
HasLiterals bound n source =
    (i : ℕ) → i < n → (l : ℕ) × (get_elem? source i ≡ some l) × (l < 2 * bound)

abbrev pub HasInputs : ℕ → List ℕ → Type 0
HasInputs n inputs = (i : ℕ) → i < n → get_elem? inputs i ≡ some (2 * suc i)

-- The latches follow the inputs, and their next states are literals of variables below `bound`.
abbrev pub HasLatches : ℕ → ℕ → ℕ → List AigerLatch → Type 0
HasLatches bound num_inputs n latches =
    (i : ℕ)
    → i < n
    → (a : AigerLatch) × (get_elem? latches i ≡ some a)
      × (a.l ≡ 2 * (num_inputs + suc i))
      × (a.next < 2 * bound)

-- The gates follow the latches, and read smaller literals.
abbrev pub HasGates : ℕ → ℕ → List AigerAnd → Type 0
HasGates before n gates =
    (i : ℕ)
    → i < n
    → (a : AigerAnd) × (get_elem? gates i ≡ some a)
      × (a.o ≡ 2 * (before + suc i))
      × (a.i1 < a.o)
      × (a.i2 < a.o)

-- A circuit that is read and not translated, with variables and literals as in the format, and with
-- a bad literal or an output.
pub record IsLoaded (c : Aiger) (bound : ℕ) : Type 0 where
  pub all_vars : bound ≡ suc (c.num_inputs + c.num_latches + c.num_ands)
  pub inputs : HasInputs c.num_inputs c.aiger_inputs
  pub latches : HasLatches bound c.num_inputs c.num_latches c.aiger_latches
  pub gates : HasGates (c.num_inputs + c.num_latches) c.num_ands c.aiger_ands
  pub constraint_literals : HasLiterals bound c.num_constraints c.aiger_constraints
  pub bad_literals : HasLiterals bound c.num_bads c.aiger_bads
  pub output_literals : HasLiterals bound c.num_outputs c.aiger_outputs
  pub has_property : 0 < c.num_bads + c.num_outputs
  pub no_variables : c.variables ≡ []
  pub no_ands : c.ands ≡ []
  pub no_nexts : c.nexts ≡ []
  pub no_init_state : c.init_state ≡ []
  pub no_constraints : c.constraints ≡ []
  pub no_allbad : c.allbad ≡ []

-- ===== src/Sat/Cadical.antt =====
-- The classes CaDiCaL and minisatSimp of sat_solver.hpp around the solvers' own libraries. The
-- literals of a clause and the 0 that ends it are added in one step, and so are the assumptions of a
-- call and the call.
pub mod Bounds
use modelchecker.Common.{
  ℕ, suc, Bool, true, false, ◌||◌, Option, none, List, [], ◌∷◌, ◌++◌, ◌==◌, ℤ, pos, neg, abs,
  if◌then◌else◌,
}
use Prim.Native.Nat.{max}
use modelchecker.Sat.{Clause}

-- `nv` is the largest variable so far; `model` is what val reads after a call.
pub record Cadical : Type 0 where
  pub clauses : List Clause
  pub nv : ℕ
  pub clear_flag : Bool
  pub model : ℕ → Option Bool

unfoldable pub new_cadical : Cadical
new_cadical = record { clauses = []; nv = 0; clear_flag = false; model = λ _. none }

-- The largest variable of a clause.
unfoldable pub top_var : Clause → ℕ
top_var [] = 0
top_var (l ∷ ls) = max (abs l) (top_var ls)

unfoldable pub add_clause : Clause → Cadical → Cadical
add_clause c s = record s { clauses = s.clauses ++ c ∷ []; nv = max s.nv (top_var c) }

unfoldable pub add_clauses : List Clause → Cadical → Cadical
add_clauses [] s = s
add_clauses (c ∷ cs) s = add_clauses cs (add_clause c s)

unfoldable pub max_var : Cadical → ℕ
max_var s = s.nv

unfoldable pub set_clear_act : Cadical → Cadical
set_clear_act s = record s { clear_flag = true }

-- The last activation variable is the largest one, and is set to false.
unfoldable pub clear_act : Cadical → Cadical
clear_act s =
    let cleared = if s.clear_flag then add_clause (neg (pos s.nv) ∷ []) s else s in
    record cleared { clear_flag = false }

-- The simplifier, with the number of its variables and those that it must keep.
pub record MinisatSimp : Type 0 where
  pub clauses : List Clause
  pub num_vars : ℕ
  pub frozen : ℕ → Bool

abbrev pub new_simp : MinisatSimp
new_simp = record { clauses = []; num_vars = 0; frozen = λ _. false }

unfoldable pub var_enlarge_to : ℕ → MinisatSimp → MinisatSimp
var_enlarge_to v s = record s { num_vars = max s.num_vars v }

unfoldable pub set_frozen : ℤ → MinisatSimp → MinisatSimp
set_frozen lit s =
    let grown = var_enlarge_to (abs lit) s in
    record grown { frozen = λ w. (abs lit == w) || grown.frozen w }

unfoldable pub set_all_frozen : List ℤ → MinisatSimp → MinisatSimp
set_all_frozen [] s = s
set_all_frozen (l ∷ ls) s = set_all_frozen ls (set_frozen l s)

unfoldable pub add_to_simp : Clause → MinisatSimp → MinisatSimp
add_to_simp c s =
    let grown = var_enlarge_to (top_var c) s in record grown { clauses = grown.clauses ++ c ∷ [] }

unfoldable pub add_all_to_simp : List Clause → MinisatSimp → MinisatSimp
add_all_to_simp [] s = s
add_all_to_simp (c ∷ cs) s = add_all_to_simp cs (add_to_simp c s)

-- minisatSimp::simplify: the eliminated clauses and the fixed literals, after a clause that holds
-- always and makes the largest variable known. `eliminate` is the library's.
unfoldable pub simplify : (List Clause → (ℕ → Bool) → List Clause) → MinisatSimp → List Clause
simplify eliminate s = let n = pos s.num_vars in (n ∷ neg n ∷ []) ∷ eliminate s.clauses s.frozen

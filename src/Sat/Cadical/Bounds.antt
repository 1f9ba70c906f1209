-- ===== src/Sat/Cadical/Bounds.antt =====
-- The variables of the clauses of a solver are at most `nv`, and a new variable is free.
use modelchecker.Common.{
  ℕ, ◌≤◌, ◌≡◌, refl, sym, ◌∙◌, ap₂, ◌||◌, List, [], ◌∷◌, ℤ, abs, All, All-append, arith,
}
use Prim.Native.Nat.{max}
use modelchecker.Circuit.{Assignment}
use modelchecker.Circuit.Settle.{holds-agree}
use modelchecker.Sat.{Clause, clause_holds}
use modelchecker.Sat.Laws.{Satisfies}
use modelchecker.Sat.Cadical.{
  Cadical, top_var, add_clause, add_clauses, MinisatSimp, var_enlarge_to, set_frozen,
  set_all_frozen, add_to_simp, add_all_to_simp,
}

abbrev pub IsBelow : ℕ → List Clause → Type 0
IsBelow n cs = All (λ c. top_var c ≤ n) cs

pub IsBelow-later : (n m : ℕ) (cs : List Clause) → IsBelow n cs → n ≤ m → IsBelow m cs
IsBelow-later n m [] h le = tt
IsBelow-later n m (c ∷ cs) (h, hs) le = (omega arith, IsBelow-later n m cs hs le)

pub add_clause-IsBelow :
    (c : Clause) (s : Cadical)
    → IsBelow s.nv s.clauses
    → IsBelow (add_clause c s).nv (add_clause c s).clauses
unfolding add_clause
add_clause-IsBelow c s h =
    All-append (λ d. top_var d ≤ max s.nv (top_var c)) s.clauses (c ∷ [])
      (IsBelow-later s.nv (max s.nv (top_var c)) s.clauses h (omega arith)) (omega arith, tt)

pub add_clauses-IsBelow :
    (cs : List Clause) (s : Cadical)
    → IsBelow s.nv s.clauses
    → IsBelow (add_clauses cs s).nv (add_clauses cs s).clauses
unfolding add_clauses
add_clauses-IsBelow [] s h = h
add_clauses-IsBelow (c ∷ cs) s h =
    add_clauses-IsBelow cs (add_clause c s) (add_clause-IsBelow c s h)

pub nv-le-add_clauses : (cs : List Clause) (s : Cadical) → s.nv ≤ (add_clauses cs s).nv
unfolding add_clauses add_clause
nv-le-add_clauses [] s = omega arith
nv-le-add_clauses (c ∷ cs) s =
    let rest = nv-le-add_clauses cs (add_clause c s) in omega (arith, rest)

pub add_clauses-Satisfies :
    (σ : Assignment) (cs : List Clause) (s : Cadical)
    → Satisfies σ s.clauses
    → Satisfies σ cs
    → Satisfies σ (add_clauses cs s).clauses
unfolding add_clauses add_clause
add_clauses-Satisfies σ [] s h k = h
add_clauses-Satisfies σ (c ∷ cs) s h (k, ks) =
    add_clauses-Satisfies σ cs (add_clause c s) (All-append _ s.clauses (c ∷ []) h (k, tt)) ks

-- Assignments that agree up to the largest variable satisfy the same clauses.
clause_holds-agree :
    (n : ℕ) (σ τ : Assignment) (c : Clause)
    → top_var c ≤ n
    → ((v : ℕ) → v ≤ n → σ v ≡ τ v)
    → clause_holds σ c ≡ clause_holds τ c
unfolding clause_holds top_var
clause_holds-agree n σ τ [] le same = refl
clause_holds-agree n σ τ (l ∷ ls) le same =
    ap₂ ◌||◌ (holds-agree σ τ l (same (abs l) (omega arith)))
      (clause_holds-agree n σ τ ls (omega arith) same)

pub Satisfies-agree :
    (n : ℕ) (σ τ : Assignment) (cs : List Clause)
    → IsBelow n cs
    → ((v : ℕ) → v ≤ n → σ v ≡ τ v)
    → Satisfies σ cs
    → Satisfies τ cs
Satisfies-agree n σ τ [] below same h = tt
Satisfies-agree n σ τ (c ∷ cs) (b, below) same (h, hs) =
    (sym (clause_holds-agree n σ τ c b same) ∙ h, Satisfies-agree n σ τ cs below same hs)

-- The clauses of the simplifier, and how its variables grow.
pub add_all_to_simp_clauses :
    (cs : List Clause) (s : MinisatSimp) (P : Clause → Type 0)
    → All P s.clauses
    → All P cs
    → All P (add_all_to_simp cs s).clauses
unfolding add_all_to_simp add_to_simp var_enlarge_to
add_all_to_simp_clauses [] s P h k = h
add_all_to_simp_clauses (c ∷ cs) s P h (k, ks) =
    add_all_to_simp_clauses cs (add_to_simp c s) P (All-append P s.clauses (c ∷ []) h (k, tt)) ks

pub add_all_to_simp_num_vars :
    (cs : List Clause) (s : MinisatSimp)
    → (s.num_vars ≤ (add_all_to_simp cs s).num_vars) × IsBelow (add_all_to_simp cs s).num_vars cs
unfolding add_all_to_simp add_to_simp var_enlarge_to
add_all_to_simp_num_vars [] s = (omega arith, tt)
add_all_to_simp_num_vars (c ∷ cs) s =
    let (le, below) = add_all_to_simp_num_vars cs (add_to_simp c s) in
    (omega (arith, le), (omega (arith, le), below))

pub num_vars-le-set_all_frozen :
    (ls : List ℤ) (s : MinisatSimp) → s.num_vars ≤ (set_all_frozen ls s).num_vars
unfolding set_all_frozen set_frozen var_enlarge_to
num_vars-le-set_all_frozen [] s = omega arith
num_vars-le-set_all_frozen (l ∷ ls) s =
    let rest = num_vars-le-set_all_frozen ls (set_frozen l s) in omega (arith, rest)

pub set_all_frozen_clauses :
    (ls : List ℤ) (s : MinisatSimp) → (set_all_frozen ls s).clauses ≡ s.clauses
unfolding set_all_frozen set_frozen var_enlarge_to
set_all_frozen_clauses [] s = refl
set_all_frozen_clauses (l ∷ ls) s = set_all_frozen_clauses ls (set_frozen l s)

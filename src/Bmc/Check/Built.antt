-- ===== src/Bmc/Check/Built.antt =====
-- What the solver has after a number of rounds of BMC::check: enough clauses for every constraint.
use modelchecker.Common.{
  ℕ, zero, suc, ◌≤◌, ◌<◌, ◌≡◌, refl, ap, ◌∙◌, true, false, ◌||◌, Bool, inl, inr, ◌⊎◌, some, List,
  [], ◌∷◌, ◌++◌, map, arith, ℤ, abs, length, get_elem?, get_or, replicate, All, All-left, All-right,
  length-set, Bool-cases, Option-cases, not,
}
use modelchecker.Circuit.{And, Assignment, holds}
use modelchecker.Aiger.{Aiger}
use modelchecker.Sat.{clause_holds}
use modelchecker.Sat.Laws.{Satisfies, AllTrue}
use modelchecker.Bmc.AndGate.{value}
use modelchecker.Bmc.Unfold.{
  Unfolding, unfold_step, unfold_frame, unfold_latches, unfold_output, unfold_constraints,
}
use modelchecker.Bmc.Unfold.Frame.{unfold_frame-IsKept}
use modelchecker.Bmc.Unfold.Steps.{length-map}
use modelchecker.Bmc.Solve.{SolverState, Cone, cone_gate, cone_loop, add_constraints, last_from}
use modelchecker.Bmc.Check.Cone.{IsDefined, Inserted}

pub last_from-append : (xs ys : List ℤ) → last_from (length xs) (xs ++ ys) ≡ ys
unfolding last_from
last_from-append [] ys = refl
last_from-append (x ∷ xs) ys = last_from-append xs ys

pub append_cases :
    (P : And → Type 0) (xs ys : List And) (k : ℕ) (b : And)
    → All P ys
    → get_elem? (xs ++ ys) k ≡ some b
    → (get_elem? xs k ≡ some b) ⊎ P b
append_cases P [] [] k b h e = cc
append_cases P [] (y ∷ ys) zero b h e = let same : y ≡ b = cc in inr (rw (← same) h.0)
append_cases P [] (y ∷ ys) (suc k) b h e = elim (append_cases P [] ys k b h.1 e) [
  | inl out ↦ cc
  | inr p ↦ inr p
]
append_cases P (x ∷ xs) ys zero b h e = inl e
append_cases P (x ∷ xs) ys (suc k) b h e = append_cases P xs ys k b h e

pub get_elem?-append :
    (xs ys : List And) (k : ℕ) → k < length xs → get_elem? (xs ++ ys) k ≡ get_elem? xs k
get_elem?-append [] ys k lt = absurd (omega arith)
get_elem?-append (x ∷ xs) ys zero lt = refl
get_elem?-append (x ∷ xs) ys (suc k) lt = get_elem?-append xs ys k (omega arith)

pub length-replicate : (m : ℕ) → length (replicate m false) ≡ m
length-replicate zero = refl
length-replicate (suc m) = ap suc (length-replicate m)

pub get_or-grown :
    (ins : List Bool) (m k : ℕ) → get_or (ins ++ replicate m false) k false ≡ get_or ins k false
get_or-grown [] zero k = refl
get_or-grown [] (suc m) zero = refl
get_or-grown [] (suc m) (suc k) = get_or-grown [] m k
get_or-grown (x ∷ xs) m zero = refl
get_or-grown (x ∷ xs) m (suc k) = get_or-grown xs m k

pub get_or-lt : (ins : List Bool) (k : ℕ) → get_or ins k false ≡ true → k < length ins
get_or-lt [] k h = cc
get_or-lt (x ∷ xs) zero h = omega arith
get_or-lt (x ∷ xs) (suc k) h = omega (arith, get_or-lt xs k h)

-- The constraints of the frame are needed, and are unit clauses.
pub add_constraints_more :
    (ls : List ℤ) (s : Cone) (v : ℕ) → s.lit_set v ≡ true → (add_constraints ls s).lit_set v ≡ true
unfolding add_constraints
add_constraints_more [] s v h = h
add_constraints_more (l ∷ ls) s v h = add_constraints_more ls _ v (ground (arith, h))

pub add_constraints_needed :
    (ls : List ℤ) (s : Cone) → All (λ l. (add_constraints ls s).lit_set (abs l) ≡ true) ls
unfolding add_constraints
add_constraints_needed [] s = tt
add_constraints_needed (l ∷ ls) s =
    (add_constraints_more ls _ (abs l) (ground arith), add_constraints_needed ls _)

pub add_constraints-clauses :
    (ls : List ℤ) (s : Cone) (σ : Assignment)
    → Satisfies σ (add_constraints ls s).added.clauses
    → Satisfies σ s.added.clauses × AllTrue σ ls
unfolding add_constraints clause_holds
add_constraints-clauses [] s σ h = (h, tt)
add_constraints-clauses (l ∷ ls) s σ h =
    let (rest, trues) = add_constraints-clauses ls _ σ h in
    let unit = All-right _ s.added.clauses ((l ∷ []) ∷ []) rest in
    let true_l : holds σ l ≡ true = ground (arith, unit.0) in
    (All-left _ s.added.clauses ((l ∷ []) ∷ []) rest, (true_l, trues))

pub length-cone_loop :
    (n : ℕ) (gs : List And) (s : Cone)
    → length (cone_loop n gs s).added.lit_has_insert ≡ length s.added.lit_has_insert
unfolding cone_loop cone_gate
length-cone_loop zero gs s = refl
length-cone_loop (suc i) gs s = elim (Option-cases (get_elem? gs i)) [
  | inl at ↦ rw (at, cone_loop) (length-cone_loop i gs s)
  | inr (a, at) ↦ rw (at, cone_loop) (length-cone_loop i gs (cone_gate i a s) ∙ gate a)
]
  where
    gate : (a : And) → length (cone_gate i a s).added.lit_has_insert ≡ length s.added.lit_has_insert
    gate a = elim (Bool-cases (get_or s.added.lit_has_insert i false || not (s.lit_set a.o))) [
      | inl skip ↦ rw (skip, cone_gate) refl
      | inr add ↦ rw (add, cone_gate) (length-set s.added.lit_has_insert i true)
    ]

pub new_constraints :
    (c : Aiger) (thread : ℕ) (u : Unfolding)
    → (ls : List ℤ) × ((unfold_step c thread u).constraints ≡ u.constraints ++ ls)
      × (length ls ≡ length c.constraints)
unfolding unfold_step unfold_latches unfold_output unfold_constraints
new_constraints c thread u = (
  map (value (unfold_frame c u).values) c.constraints,
  ap (λ (cs : List ℤ). cs ++ map (value (unfold_frame c u).values) c.constraints)
      (unfold_frame-IsKept c u).constraints,
  length-map _ c.constraints,
)

pub record Built (c : Aiger) (u : Unfolding) (s : SolverState) : Type 0 where
  pub small : length s.lit_has_insert ≤ length u.ands
  pub inserted : Inserted u.ands (IsDefined u.ands s.lit_has_insert) s
  pub constraints : All (λ l. IsDefined u.ands s.lit_has_insert (abs l)) u.constraints
  pub clauses : (σ : Assignment) → Satisfies σ s.clauses → (σ 1 ≡ false) × AllTrue σ u.constraints

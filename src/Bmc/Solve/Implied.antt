-- ===== src/Bmc/Solve/Implied.antt =====
-- The clauses of a frame follow from its gates and constraints.
use modelchecker.Common.{
  ℕ, zero, suc, ◌-◌, ◌<◌, ◌≡◌, refl, ◌∙◌, false, not, ◌||◌, Option-cases, some, List, [], ◌∷◌, ℤ,
  neg, length, get_elem?, get_or, All, All-append, Bool-cases, inl, inr, ap, ◌⊎◌,
}
use modelchecker.Circuit.{And, Assignment, holds, GateHolds, IsLiteral, holds-neg}
use modelchecker.Sat.{gate_clauses}
use modelchecker.Sat.Laws.{Satisfies, AllTrue, unit-Satisfies}
use modelchecker.Sat.Gates.{gate_clauses-Satisfies}
use modelchecker.Bmc.Unfold.{Unfolding}
use modelchecker.Bmc.Solve.{
  Answer, sat, unsat, terminated, SolverState, Cone, cone_gate, cone_loop, add_constraints,
  add_frame, last_from, back, is_skipped, solve_one_frame,
}

-- A gate over literals that holds under `σ`.
abbrev pub IsTrueGate : Assignment → And → Type 0
IsTrueGate σ a = (0 < a.o) × IsLiteral a.i1 × IsLiteral a.i2 × GateHolds σ a

cone_gate-Satisfies :
    (σ : Assignment) (i : ℕ) (a : And) (s : Cone)
    → IsTrueGate σ a
    → Satisfies σ s.added.clauses
    → Satisfies σ (cone_gate i a s).added.clauses
unfolding cone_gate
cone_gate-Satisfies σ i a s gate h =
    elim (Bool-cases (get_or s.added.lit_has_insert i false || not (s.lit_set a.o))) [
      | inl skip ↦ rw skip h
      | inr add ↦ rw add (
          All-append _ s.added.clauses (gate_clauses a) h
            (gate_clauses-Satisfies σ a (gate.0, gate.1, gate.2) gate.3))
    ]

All-get_elem? :
    (P : And → Type 0) (gs : List And) (i : ℕ) (a : And) → All P gs → get_elem? gs i ≡ some a → P a
All-get_elem? P [] i a h e = cc
All-get_elem? P (g ∷ gs) zero a h e = let same : g ≡ a = cc in rw (← same) h.0
All-get_elem? P (g ∷ gs) (suc i) a h e = All-get_elem? P gs i a h.1 e

cone_loop-Satisfies :
    (σ : Assignment) (n : ℕ) (gs : List And) (s : Cone)
    → All (IsTrueGate σ) gs
    → Satisfies σ s.added.clauses
    → Satisfies σ (cone_loop n gs s).added.clauses
unfolding cone_loop
cone_loop-Satisfies σ zero gs s gates h = h
cone_loop-Satisfies σ (suc i) gs s gates h = elim (Option-cases (get_elem? gs i)) [
  | inl out ↦ rw (out, cone_loop) (cone_loop-Satisfies σ i gs s gates h)
  | inr (a, found) ↦
      rw (found, cone_loop)
        (cone_loop-Satisfies σ i gs (cone_gate i a s) gates
          (cone_gate-Satisfies σ i a s (All-get_elem? (IsTrueGate σ) gs i a gates found) h))
]

add_constraints-Satisfies :
    (σ : Assignment) (ls : List ℤ) (s : Cone)
    → AllTrue σ ls
    → Satisfies σ s.added.clauses
    → Satisfies σ (add_constraints ls s).added.clauses
unfolding add_constraints
add_constraints-Satisfies σ [] s all h = h
add_constraints-Satisfies σ (l ∷ ls) s (true_l, all) h =
    add_constraints-Satisfies σ ls _ all
      (All-append _ s.added.clauses ((l ∷ []) ∷ []) h (unit-Satisfies σ l true_l))

last_from-AllTrue :
    (σ : Assignment) (n : ℕ) (ls : List ℤ) → AllTrue σ ls → AllTrue σ (last_from n ls)
unfolding last_from
last_from-AllTrue σ zero ls h = h
last_from-AllTrue σ (suc n) [] h = h
last_from-AllTrue σ (suc n) (l ∷ ls) h = last_from-AllTrue σ n ls h.1

pub add_frame-Satisfies :
    (σ : Assignment) (n : ℕ) (u : Unfolding) (s : SolverState)
    → All (IsTrueGate σ) u.ands
    → AllTrue σ u.constraints
    → Satisfies σ s.clauses
    → Satisfies σ (add_frame n u s).clauses
unfolding add_frame
add_frame-Satisfies σ n u s gates all h = cone_loop-Satisfies σ (length u.ands) u.ands _ gates (
    add_constraints-Satisfies σ (last_from (length u.constraints - n) u.constraints) _
      (last_from-AllTrue σ (length u.constraints - n) u.constraints all) h)

pub Answer-cases : (r : Answer) → (r ≡ unsat) ⊎ (r ≡ sat) ⊎ (r ≡ terminated)
Answer-cases unsat = inl refl
Answer-cases sat = inr (inl refl)
Answer-cases terminated = inr (inr refl)

-- In a frame that this thread checks, if the solver answers `unsat` only where no assignment
-- satisfies its clauses and its assumption, then an assignment that satisfies the clauses so far, the
-- unfolded gates and the constraints satisfies the clauses afterwards, those that exclude the bad
-- literal included, and makes the bad literal false if the frame is answered `unsat`.
pub solve_one_frame-Satisfies :
    (solve : List (List ℤ) → ℤ → Answer) (max_thread_index thread_index k n : ℕ) (u : Unfolding)
    (s : SolverState) (σ : Assignment)
    → ((cs : List (List ℤ)) (l : ℤ) (τ : Assignment)
        → solve cs l ≡ unsat
        → Satisfies τ cs
        → holds τ l ≡ false)
    → is_skipped max_thread_index thread_index k ≡ false
    → IsLiteral (back u.outputs)
    → All (IsTrueGate σ) u.ands
    → AllTrue σ u.constraints
    → Satisfies σ s.clauses
    → Satisfies σ (solve_one_frame solve max_thread_index thread_index k n u s).1.clauses
      × ((solve_one_frame solve max_thread_index thread_index k n u s).0 ≡ unsat
          → holds σ (back u.outputs) ≡ false)
unfolding solve_one_frame
solve_one_frame-Satisfies solve max_thread_index thread_index k n u s σ right checked bad gates all
      h =
    let added = add_frame n u s in
    let base = add_frame-Satisfies σ n u s gates all h in
    elim (Answer-cases (solve added.clauses (back u.outputs))) [
      | inl e ↦
          let false_bad = right added.clauses (back u.outputs) σ e base in
          rw (checked, e)
            (
              All-append _ added.clauses ((neg (back u.outputs) ∷ []) ∷ []) base
                  (unit-Satisfies σ _ (holds-neg σ (back u.outputs) bad ∙ ap not false_bad)),
              λ _. false_bad,
            )
      | inr (inl e) ↦ rw (checked, e) (base, λ w. cc)
      | inr (inr e) ↦ rw (checked, e) (base, λ w. cc)
    ]

-- ===== src/Pdr/Translation/Holds.antt =====
-- Every step of the circuit satisfies the clauses of encode_translation, under the assignment of the
-- two frames.
use modelchecker.Common.{
  ℕ, ◌≤◌, ◌<◌, ◌≡◌, refl, sym, ◌∙◌, ap, Bool, true, false, not, ◌||◌, some, List, [], ◌∷◌, ◌++◌,
  map, ℤ, negsuc, neg, abs, if◌then◌else◌, length, All, All-append, arith,
}
use modelchecker.Circuit.{Assignment, holds, holds-neg}
use modelchecker.Circuit.Settle.{holds-agree}
use modelchecker.Circuit.Run.{IsVar, IsWellFormed, IsFrame, IsStep, num_variables}
use modelchecker.Aiger.{Aiger, first_latch, first_ands_index}
use modelchecker.Pdr.Primes.Means.{
  pair, pair_low, IsPrimes, Grows-refl, Grows-trans, prime_lit_means,
}
use modelchecker.Sat.Laws.{Satisfies, AllTrue, units, units-Satisfies, unit-Satisfies}
use modelchecker.Sat.Cone.{insert, var_set}
use modelchecker.Pdr.Translation.{
  leaves, Primed, first_primes, translate_to_dimacs, Encoding, step_clauses, encode_translation,
}
use modelchecker.Pdr.Translation.Gates.{
  latch_clauses-Stable, IsGood, translate_gates-Next, step_gates, prime_lits_means,
}

-- What translate_to_dimacs and encode_translation give for one step of the circuit.
pub record StepClauses (c : Aiger) (cons : Bool) (x y : Assignment) : Type 0 where
  pub primed : Primed
  pub encoding : Encoding
  pub translates : translate_to_dimacs c ≡ some primed
  pub encodes : encode_translation c cons primed ≡ some encoding
  pub clauses_hold :
      Satisfies (pair x y (leaves c) c.primed_first_dimacs encoding.primes) encoding.clauses
  pub bad_means :
      holds (pair x y (leaves c) c.primed_first_dimacs encoding.primes) primed.bad_prime
      ≡ holds y c.bad
  pub constraints_mean :
      map
        (holds (pair x y (leaves c) c.primed_first_dimacs encoding.primes))
        primed.constraints_prime
      ≡ map (holds y) c.constraints

-- A circuit as translate_to_dimacs of Aiger leaves it.
pub record IsTranslated (c : Aiger) : Type 0 where
  pub well : IsWellFormed c
  pub bad_var : IsVar (num_variables c) c.bad
  pub first_primed : c.primed_first_dimacs ≡ num_variables c

pub start-IsPrimes :
    (c : Aiger)
    → length c.variables ≡ c.primed_first_dimacs
    → IsPrimes (leaves c) c.primed_first_dimacs (first_primes c)
start-IsPrimes c e = record {
  paired = record { there = λ v p h. cc; back = λ v p h. cc };
  high = λ v p h. cc;
  room = omega arith;
}

AllTrue-low :
    (first : ℕ) (x σ : Assignment) (ls : List ℤ)
    → ((v : ℕ) → v < first → σ v ≡ x v)
    → All (IsVar first) ls
    → AllTrue x ls
    → AllTrue σ ls
AllTrue-low first x σ [] low vars h = tt
AllTrue-low first x σ (l ∷ ls) low ((_, lt), vars) (t, h) =
    (holds-agree σ x l (low (abs l) lt) ∙ t, AllTrue-low first x σ ls low vars h)

step_clauses-Satisfies :
    (c : Aiger) (cons : Bool) (x σ : Assignment)
    → IsTranslated c
    → IsFrame c x
    → holds x c.bad ≡ false
    → AllTrue x c.constraints
    → ((v : ℕ) → v < c.primed_first_dimacs → σ v ≡ x v)
    → Satisfies σ (step_clauses c cons)
unfolding step_clauses
step_clauses-Satisfies c cons x σ h fx not_bad all low =
    let first = h.first_primed in
    let one : holds σ (negsuc 0) ≡ true =
      unfold holds in ap not (low 1 (omega arith) ∙ fx.constant) in
    let bad : holds σ (neg c.bad) ≡ true =
      holds-neg σ c.bad h.bad_var.0
      ∙ ap not (
          holds-agree σ x c.bad (low (abs c.bad) (let lt = h.bad_var.1 in omega arith))
          ∙ not_bad) in
    let (u1, _) = unit-Satisfies σ (negsuc 0) one in
    let (u2, _) = unit-Satisfies σ (neg c.bad) bad in
    (
      u1,
      (
        u2,
        if_cons cons (
            units-Satisfies σ c.constraints (
              AllTrue-low c.primed_first_dimacs x σ c.constraints low
                (rw first h.well.constraint_vars) all)),
      ),
    )
  where
    if_cons :
        (b : Bool)
        → Satisfies σ (units c.constraints)
        → Satisfies σ (if b then units c.constraints else [])
    if_cons true s = s
    if_cons false s = tt

-- PDR's translate_to_dimacs and encode_translation pass their asserts; and for every step of the
-- circuit from a frame in which the bad literal is false and the constraints hold, the assignment of
-- the two frames satisfies all clauses, and gives the primed bad literal and the primed constraints the
-- values of the bad literal and of the constraints in the second frame.
pub encode_translation-StepClauses :
    (c : Aiger) (cons : Bool) (x y : Assignment)
    → IsTranslated c
    → IsFrame c x
    → IsFrame c y
    → IsStep c x y
    → holds x c.bad ≡ false
    → AllTrue x c.constraints
    → StepClauses c cons x y
unfolding translate_to_dimacs encode_translation step_clauses
encode_translation-StepClauses c cons x y h fx fy step not_bad all =
    let first = c.primed_first_dimacs in
    let n = leaves c in
    let two : 2 ≤ first = let e = h.first_primed in omega arith in
    let start = start-IsPrimes c (h.well.sized ∙ sym h.first_primed) in
    let bad =
      prime_lit_means x y n first fx.constant fy.constant two c.bad (first_primes c) h.bad_var.0
        start in
    let in_first : (ls : List ℤ) → All (IsVar (num_variables c)) ls → All (IsVar first) ls =
      λ ls vars. let e = h.first_primed in rw e vars in
    let cs =
      prime_lits_means x y n first fx.constant fy.constant two c.constraints bad.after
        (in_first c.constraints h.well.constraint_vars) bad.primes in
    let latches =
      latch_clauses-Stable x y n first fx.constant fy.constant two (first_latch c) c.nexts cs.after
        (omega arith) cs.primes (in_first c.nexts h.well.next_vars) step in
    let primed : Primed = record {
      bad_prime = bad.result;
      constraints_prime = cs.result;
      primes = cs.after;
    } in
    let needed = insert (abs c.bad) (var_set c.constraints) in
    let e0 : Encoding = record {
      lit_set = λ v. needed v || var_set c.nexts v;
      prime_lit_set = needed;
      primes = latches.after;
      clauses = step_clauses c cons ++ latches.result;
    } in
    let gates =
      step_gates x y n first fx.constant fy.constant two (first_ands_index c) c.ands (omega arith)
        (let e = h.first_primed in omega arith) h.well.ordered fx.gates fy.gates in
    let good : IsGood x y n first fx.constant fy.constant two e0 = record {
      primes = latches.primes;
      stable = λ t g.
          All-append _ (step_clauses c cons) latches.result
            (now_holds (pair x y n first t) (pair_low x y n first t)) (latches.stable t g);
    } in
    let end = translate_gates-Next x y n first fx.constant fy.constant two c.ands e0 gates good in
    let t = end.after.primes in
    record {
      primed = primed;
      encoding = end.after;
      translates =
          let r1 = bad.returns in let r2 = cs.returns in rw (r1, r2, translate_to_dimacs) refl;
      encodes =
          let r0 = cs.checks cs.after (Grows-refl cs.after) cs.primes.paired in
          let r1 = latches.returns in let r2 = end.returns in rw (r0, r1, encode_translation) r2;
      clauses_hold = end.good.stable t (Grows-refl t);
      bad_means = bad.means t (Grows-trans cs.grows (Grows-trans latches.grows end.grows));
      constraints_mean = cs.means t (Grows-trans latches.grows end.grows);
    }
  where
    now_holds :
        (σ : Assignment)
        → ((v : ℕ) → v < c.primed_first_dimacs → σ v ≡ x v)
        → Satisfies σ (step_clauses c cons)
    now_holds σ low = step_clauses-Satisfies c cons x σ h fx not_bad all low

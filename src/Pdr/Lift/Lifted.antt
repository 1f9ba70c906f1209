-- ===== src/Pdr/Lift/Lifted.antt =====
-- The clauses of encode_lift hold of every step from a frame that is not bad.
use modelchecker.Common.{
  ℕ, ◌-◌, ◌≤◌, ◌<◌, ◌≡◌, refl, sym, subst, ap, ◌∙◌, false, true, not, ◌||◌, Bool, Option, some,
  List, ◌++◌, negsuc, neg, abs, All, All-append, arith,
}
use modelchecker.Circuit.{Assignment, holds, holds-neg}
use modelchecker.Circuit.Settle.{holds-agree}
use modelchecker.Circuit.Run.{IsVar, IsFrame, IsStep}
use modelchecker.Aiger.{Aiger, first_latch, first_ands_index}
use modelchecker.Sat.{Clause, clause_holds}
use modelchecker.Sat.Laws.{Satisfies, unit-Satisfies}
use modelchecker.Sat.Cone.{insert, var_set}
use modelchecker.Sat.Cadical.{new_simp, var_enlarge_to, set_all_frozen, simplify}
use modelchecker.Sat.Cadical.Bounds.{
  add_all_to_simp_clauses, add_all_to_simp_num_vars, num_vars-le-set_all_frozen,
  set_all_frozen_clauses,
}
use modelchecker.Pdr.Primes.{Primes}
use modelchecker.Pdr.Primes.Means.{pair, pair_low, IsPrimes, Grows, Grows-refl, Grows-trans}
use modelchecker.Pdr.Translation.{leaves, Encoding, step_clauses, encode_translation}
use modelchecker.Pdr.Translation.Holds.{IsTranslated}
use modelchecker.Pdr.Translation.Gates.{
  latch_clauses-Stable, IsGood, translate_gates-Next, step_gates,
}
use modelchecker.Pdr.Frames.{Setup, set_up, satelite, frozen_literals}
use modelchecker.Pdr.Frames.Prepare.{either-holds}
use modelchecker.Pdr.Frames.Prepared.{IsEliminate, IsSetup, set_up-IsSetup}
use modelchecker.Pdr.Lift.{primed_now, encode_lift}

-- What encode_lift returns, of which the clauses hold of the step; the maps have the variables that
-- they had.
pub record Lifted (c : Aiger) (s : Setup) (x y : Assignment) (r : Option (List Clause × Primes))
    : Type 0 where
  pub clauses : List Clause
  pub after : Primes
  pub returns : r ≡ some (clauses, after)
  pub clauses_hold : Satisfies (pair x y (leaves c) c.primed_first_dimacs after) clauses
  pub primes : IsPrimes (leaves c) c.primed_first_dimacs after
  pub grows : Grows s.primes after

module _ (eliminate : List Clause → (ℕ → Bool) → List Clause) (law : IsEliminate eliminate)
    (c : Aiger) (h : IsTranslated c) (s : Setup) (ok : IsSetup c s) (x y : Assignment)
    (fx : IsFrame c x) (fy : IsFrame c y) (step : IsStep c x y)
    (not_bad : holds x c.bad ≡ false) where
  -- The constant and the bad literal of the first frame.
  bad-Satisfies :
      (σ : Assignment)
      → ((v : ℕ) → v < c.primed_first_dimacs → σ v ≡ x v)
      → Satisfies σ (step_clauses c false)
  unfolding step_clauses
  bad-Satisfies σ low =
      let first_eq = h.first_primed in
      let one : holds σ (negsuc 0) ≡ true =
        unfold holds in ap not (low 1 (omega arith) ∙ fx.constant) in
      let bad : holds σ (neg c.bad) ≡ true =
        holds-neg σ c.bad h.bad_var.0
        ∙ ap not (
            holds-agree σ x c.bad (low (abs c.bad) (let lt = h.bad_var.1 in omega arith))
            ∙ not_bad) in
      ((unit-Satisfies σ (negsuc 0) one).0, ((unit-Satisfies σ (neg c.bad) bad).0, tt))

  -- The simplified clauses follow from those that it was given.
  simplified-Satisfies :
      (σ : Assignment) (e : Encoding)
      → Satisfies σ e.clauses
      → Satisfies σ (simplify eliminate (satelite c (primed_now s) e))
  unfolding simplify satelite var_enlarge_to
  simplified-Satisfies σ e all =
      let base = var_enlarge_to (s.primes.num_variables - 1) new_simp in
      let kept = set_all_frozen (frozen_literals c (primed_now s)) base in
      let empty = set_all_frozen_clauses (frozen_literals c (primed_now s)) base in
      let given =
        add_all_to_simp_clauses e.clauses kept (λ d. clause_holds σ d ≡ true) (rw empty tt) all in
      let (le, _) = add_all_to_simp_num_vars e.clauses kept in
      let enough = num_vars-le-set_all_frozen (frozen_literals c (primed_now s)) base in
      let room = ok.primes.room in
      let first_eq = h.first_primed in
      (
        either-holds σ (satelite c (primed_now s) e).num_vars
            (omega (arith, le, enough, room, first_eq)),
        law _ _ σ given,
      )

  encoded :
      (e : Encoding) × (encode_translation c false (primed_now s) ≡ some e)
      × Satisfies (pair x y (leaves c) c.primed_first_dimacs e.primes) e.clauses
      × IsPrimes (leaves c) c.primed_first_dimacs e.primes
      × Grows s.primes e.primes
  unfolding encode_translation
  encoded =
      let first = c.primed_first_dimacs in
      let n = leaves c in
      let two : 2 ≤ first = let e = h.first_primed in omega arith in
      let nexts : All (IsVar first) c.nexts = let e = h.first_primed in rw e h.well.next_vars in
      let latches =
        latch_clauses-Stable x y n first fx.constant fy.constant two (first_latch c) c.nexts
          s.primes (omega arith) ok.primes nexts step in
      let needed = insert (abs c.bad) (var_set c.constraints) in
      let e0 : Encoding = record {
        lit_set = λ v. needed v || var_set c.nexts v;
        prime_lit_set = needed;
        primes = latches.after;
        clauses = step_clauses c false ++ latches.result;
      } in
      let gates =
        step_gates x y n first fx.constant fy.constant two (first_ands_index c) c.ands (omega arith)
          (let e = h.first_primed in omega arith) h.well.ordered fx.gates fy.gates in
      let good : IsGood x y n first fx.constant fy.constant two e0 = record {
        primes = latches.primes;
        stable = λ t g.
            All-append _ (step_clauses c false) latches.result
              (bad-Satisfies (pair x y n first t) (pair_low x y n first t)) (latches.stable t g);
      } in
      let end = translate_gates-Next x y n first fx.constant fy.constant two c.ands e0 gates good in
      (
        end.after,
        let r0 = ok.checks in
            let r1 = latches.returns in let r2 = end.returns in rw (r0, r1, encode_translation) r2,
        end.good.stable end.after.primes (Grows-refl end.after.primes),
        end.good.primes,
        Grows-trans latches.grows end.grows,
      )

  lifted : Lifted c s x y (encode_lift eliminate c s)
  unfolding encode_lift
  lifted =
      let (e, returns, holds_all, later, grows) = encoded in
      record {
        clauses = simplify eliminate (satelite c (primed_now s) e);
        after = e.primes;
        returns = rw (returns, encode_lift) refl;
        clauses_hold = simplified-Satisfies _ e holds_all;
        primes = later;
        grows = grows;
      }

-- For a circuit as translate_to_dimacs of Aiger leaves it, and a simplifier whose result follows from the
-- clauses it is given, after the calls of PDR's translation and of the encoding of a step: encode_lift
-- passes its asserts, also those on the primed constraints, and keeps the primed variables that there
-- are, and its clauses hold of every step of the circuit from a frame that is not bad, whether the
-- constraints hold or not.
pub encode_lift-Lifted :
    (eliminate : List Clause → (ℕ → Bool) → List Clause) (c : Aiger) (s : Setup)
    → IsEliminate eliminate
    → IsTranslated c
    → set_up eliminate c ≡ some s
    → (x y : Assignment) → IsFrame c x
    → IsFrame c y
    → IsStep c x y
    → holds x c.bad ≡ false
    → Lifted c s x y (encode_lift eliminate c s)
encode_lift-Lifted eliminate c s law h made x y fx fy step not_bad =
    let (t, returns, ok) = set_up-IsSetup eliminate c law h in
    let same : t ≡ s = some_eq (sym returns ∙ made) in
    lifted eliminate law c h s (subst (IsSetup c) same ok) x y fx fy step not_bad
  where
    some_eq : {a b : Setup} → some a ≡ some b → a ≡ b
    some_eq e = cc

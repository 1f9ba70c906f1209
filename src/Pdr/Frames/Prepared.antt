-- ===== src/Pdr/Frames/Prepared.antt =====
-- What translate_to_dimacs and encode_translation prepare for the frames.
use modelchecker.Common.{
  ℕ, suc, ◌-◌, ◌≤◌, ◌≡◌, refl, sym, ◌∙◌, ap, subst, Bool, true, false, some, List, [], ◌∷◌, map,
  pos, neg, if◌then◌else◌, Bool-cases, inl, inr, arith,
}
use modelchecker.Circuit.{Assignment, holds}
use modelchecker.Circuit.Run.{IsFrame, IsStep}
use modelchecker.Aiger.{Aiger}
use modelchecker.Sat.{Clause, clause_holds}
use modelchecker.Sat.Laws.{Satisfies, AllTrue, units, units-Satisfies}
use modelchecker.Sat.Cadical.{
  Cadical, new_cadical, add_clause, add_clauses, top_var, MinisatSimp, new_simp, var_enlarge_to,
  set_all_frozen, add_all_to_simp, simplify,
}
use modelchecker.Sat.Cadical.Bounds.{
  IsBelow, add_clauses-IsBelow, add_clause-IsBelow, nv-le-add_clauses, add_clauses-Satisfies,
  add_all_to_simp_clauses, add_all_to_simp_num_vars, num_vars-le-set_all_frozen,
  set_all_frozen_clauses,
}
use modelchecker.Pdr.Primes.Means.{pair, IsPrimes}
use modelchecker.Pdr.Translation.{leaves, check_constraints, Primed, Encoding, encode_translation}
use modelchecker.Pdr.Translation.Total.{tops}
use modelchecker.Pdr.Translation.Holds.{IsTranslated, encode_translation-StepClauses}
use modelchecker.Pdr.Frames.{Setup, satelite, frozen_literals, is_listed, set_up, frame_solver}
use modelchecker.Pdr.Frames.Prepare.{
  tops-IsBelow, either-holds, AllTrue-map, is_listed-AllTrue, Prepared, prepare,
}

-- The documented behaviour of SimpSolver::eliminate: what is left follows from the clauses given.
abbrev pub IsEliminate : (List Clause → (ℕ → Bool) → List Clause) → Type 0
IsEliminate eliminate =
    (cs : List Clause) (frozen : ℕ → Bool) (σ : Assignment)
    → Satisfies σ cs
    → Satisfies σ (eliminate cs frozen)

-- A step between frames in which the constraints hold, from one that is not bad.
pub record IsGoodStep (c : Aiger) (x y : Assignment) : Type 0 where
  pub now : IsFrame c x
  pub later : IsFrame c y
  pub step : IsStep c x y
  pub not_bad : holds x c.bad ≡ false
  pub constraints : AllTrue x c.constraints
  pub constraints_later : AllTrue y c.constraints

-- The assignment of the two frames.
unfoldable pub frames_of : Aiger → Setup → Assignment → Assignment → Assignment
frames_of c s x y = pair x y (leaves c) c.primed_first_dimacs s.primes

-- The solver of a new frame knows nothing but what holds of every good step, and its new variables are
-- above all others.
pub record IsSetup (c : Aiger) (s : Setup) : Type 0 where
  pub primes : IsPrimes (leaves c) c.primed_first_dimacs s.primes
  -- The asserts on the constraints hold of the maps as they are left.
  pub checks :
      check_constraints
        (leaves c)
        c.primed_first_dimacs
        c.constraints
        s.primed.constraints_prime
        s.primes
      ≡ some s.primes
  pub clauses_hold :
      (x y : Assignment) → IsGoodStep c x y → Satisfies (frames_of c s x y) (frame_solver s).clauses
  pub below : IsBelow (frame_solver s).nv (frame_solver s).clauses
  pub room : s.primes.num_variables ≤ suc (frame_solver s).nv
  pub bad_means :
      (x y : Assignment)
      → IsGoodStep c x y
      → holds (frames_of c s x y) s.primed.bad_prime ≡ holds y c.bad

module _ (eliminate : List Clause → (ℕ → Bool) → List Clause) (law : IsEliminate eliminate)
    (c : Aiger) (h : IsTranslated c) where
  p : Prepared c
  p = prepare c h

  setup : Setup
  unfolding p
  setup = record {
    primed = p.primed;
    primes = p.encoding.primes;
    simplified_cnf = simplify eliminate (satelite c p.primed p.encoding);
    satelite_unsat = is_listed c.bad c.constraints;
  }

  set_up-eq : set_up eliminate c ≡ some setup
  unfolding set_up setup p
  set_up-eq =
      let e1 = (prepare c h).translates in
      let e2 = (prepare c h).encodes in rw (e1, e2, set_up) refl

  -- The clauses hold of every good step, since the encoding does not depend on the frames.
  record Agreed (x y : Assignment) : Type 0 where
    clauses_hold :
        Satisfies (pair x y (leaves c) c.primed_first_dimacs p.encoding.primes) p.encoding.clauses
    bad_means :
        holds (pair x y (leaves c) c.primed_first_dimacs p.encoding.primes) p.primed.bad_prime
        ≡ holds y c.bad
    constraints_mean :
        map
          (holds (pair x y (leaves c) c.primed_first_dimacs p.encoding.primes))
          p.primed.constraints_prime
        ≡ map (holds y) c.constraints

  agreed : (x y : Assignment) → IsGoodStep c x y → Agreed x y
  agreed x y g =
      let s =
        encode_translation-StepClauses c true x y h g.now g.later g.step g.not_bad g.constraints in
      let same1 : s.primed ≡ p.primed = some_eq (sym s.translates ∙ p.translates) in
      let same2 : s.encoding ≡ p.encoding =
        some_eq (sym s.encodes ∙ ap (encode_translation c true) same1 ∙ p.encodes) in
      record {
        clauses_hold =
            subst
              (λ (e : Encoding).
                Satisfies (pair x y (leaves c) c.primed_first_dimacs e.primes) e.clauses)
              same2 s.clauses_hold;
        bad_means =
            subst
              (λ (e : Encoding).
                holds (pair x y (leaves c) c.primed_first_dimacs e.primes) p.primed.bad_prime
                ≡ holds y c.bad)
              same2
              (subst
                (λ (q : Primed).
                  holds (pair x y (leaves c) c.primed_first_dimacs s.encoding.primes) q.bad_prime
                  ≡ holds y c.bad)
                same1 s.bad_means);
        constraints_mean =
            subst
              (λ (e : Encoding).
                map (holds (pair x y (leaves c) c.primed_first_dimacs e.primes))
                  p.primed.constraints_prime
                ≡ map (holds y) c.constraints)
              same2
              (subst
                (λ (q : Primed).
                  map (holds (pair x y (leaves c) c.primed_first_dimacs s.encoding.primes))
                    q.constraints_prime
                  ≡ map (holds y) c.constraints)
                same1 s.constraints_mean);
      }
    where
      some_eq : {A : Type 0} {a b : A} → some a ≡ some b → a ≡ b
      some_eq e = cc

  simp : MinisatSimp
  unfolding p
  simp = satelite c p.primed p.encoding

  simp_num_vars :
      (p.primed.primes.num_variables ≤ suc simp.num_vars)
      × (tops p.encoding.clauses ≤ simp.num_vars)
  unfolding simp satelite var_enlarge_to p
  simp_num_vars =
      let q = prepare c h in
      let base = var_enlarge_to (q.primed.primes.num_variables - 1) new_simp in
      let kept = set_all_frozen (frozen_literals c q.primed) base in
      let (le, below) = add_all_to_simp_num_vars q.encoding.clauses kept in
      (
        omega (arith, le, num_vars-le-set_all_frozen (frozen_literals c q.primed) base),
        tops-IsBelow (add_all_to_simp q.encoding.clauses kept).num_vars q.encoding.clauses below,
      )

  cnf-Satisfies :
      (x y : Assignment)
      → IsGoodStep c x y
      → Satisfies
          (pair x y (leaves c) c.primed_first_dimacs p.encoding.primes)
          (simplify eliminate simp)
  unfolding simplify simp satelite var_enlarge_to
  cnf-Satisfies x y g =
      let σ = pair x y (leaves c) c.primed_first_dimacs p.encoding.primes in
      let base = var_enlarge_to (p.primed.primes.num_variables - 1) new_simp in
      let kept = set_all_frozen (frozen_literals c p.primed) base in
      let empty = set_all_frozen_clauses (frozen_literals c p.primed) base in
      let all =
        add_all_to_simp_clauses p.encoding.clauses kept (λ d. clause_holds σ d ≡ true) (rw empty tt)
          (agreed x y g).clauses_hold in
      let num = simp_num_vars in
      let start = p.start_room in
      (
        either-holds σ (satelite c p.primed p.encoding).num_vars (omega (arith, num, start)),
        law _ _ σ all,
      )

  marked : Cadical
  unfolding setup
  marked =
      let translated = add_clauses setup.simplified_cnf new_cadical in
      if setup.satelite_unsat then add_clause (pos 1 ∷ []) translated else translated

  new-IsBelow : IsBelow new_cadical.nv new_cadical.clauses
  unfolding new_cadical
  new-IsBelow = tt

  nv-le-marked : simp.num_vars ≤ marked.nv
  unfolding marked setup simplify add_clauses add_clause top_var new_cadical simp
  nv-le-marked =
      let n = (satelite c p.primed p.encoding).num_vars in
      let rest =
        nv-le-add_clauses
          (eliminate (satelite c p.primed p.encoding).clauses
            (satelite c p.primed p.encoding).frozen)
          (add_clause (pos n ∷ neg (pos n) ∷ []) new_cadical) in
      elim (Bool-cases (is_listed c.bad c.constraints)) [
        | inl on ↦ rw on (omega (arith, rest))
        | inr off ↦ rw off (omega (arith, rest))
      ]

  marked-IsBelow : IsBelow marked.nv marked.clauses
  unfolding marked
  marked-IsBelow =
      let translated = add_clauses setup.simplified_cnf new_cadical in
      let below = add_clauses-IsBelow setup.simplified_cnf new_cadical new-IsBelow in
      elim (Bool-cases setup.satelite_unsat) [
        | inl on ↦ rw on (add_clause-IsBelow (pos 1 ∷ []) translated below)
        | inr off ↦ rw off below
      ]

  marked-Satisfies :
      (x y : Assignment)
      → IsGoodStep c x y
      → Satisfies (pair x y (leaves c) c.primed_first_dimacs p.encoding.primes) marked.clauses
  unfolding marked setup simp
  marked-Satisfies x y g =
      let cnf = cnf-Satisfies x y g in
      let σ = pair x y (leaves c) c.primed_first_dimacs p.encoding.primes in
      let all =
        add_clauses-Satisfies σ (simplify eliminate (satelite c p.primed p.encoding)) new_cadical
          (unfold new_cadical in tt) cnf in
      elim (Bool-cases (is_listed c.bad c.constraints)) [
        | inl on ↦
            let bad = is_listed-AllTrue x c.bad c.constraints on g.constraints in
            let good = g.not_bad in absurd (cc)
        | inr off ↦ rw off all
      ]

  setup-IsSetup : IsSetup c setup
  unfolding frame_solver frames_of
  setup-IsSetup = record {
    primes = unfold setup in p.primes;
    checks = unfold setup in p.checks;
    clauses_hold = λ x y g.
        let a = agreed x y g in
        let σ = pair x y (leaves c) c.primed_first_dimacs p.encoding.primes in
        let base = marked-Satisfies x y g in
        unfold setup in
        unfold marked in
        add_clauses-Satisfies σ (units p.primed.constraints_prime) marked base (
          units-Satisfies σ p.primed.constraints_prime (
            AllTrue-map σ y p.primed.constraints_prime c.constraints a.constraints_mean
              g.constraints_later));
    below =
        let below = marked-IsBelow in
        unfold marked in add_clauses-IsBelow (units setup.primed.constraints_prime) marked below;
    room =
        let le = nv-le-marked in
        let num = simp_num_vars in
        let tight = p.tight in
        let more = nv-le-add_clauses (units setup.primed.constraints_prime) marked in
        unfold setup in unfold marked in omega (arith, le, num, tight, more);
    bad_means = λ x y g. let a = agreed x y g in unfold setup in a.bad_means;
  }

-- For a circuit as translate_to_dimacs of Aiger leaves it, and a simplifier whose result follows from
-- the clauses it is given: PDR's translation and the encoding of a step pass their asserts, and in the
-- solver of a new frame, with the simplified clauses and the constraints of the next state, every clause
-- holds of every step between frames in which the constraints hold, from a frame that is not bad; the
-- variables of its clauses are at most the number that it keeps, above which all variables are new.
pub set_up-IsSetup :
    (eliminate : List Clause → (ℕ → Bool) → List Clause) (c : Aiger)
    → IsEliminate eliminate
    → IsTranslated c
    → (s : Setup) × (set_up eliminate c ≡ some s) × IsSetup c s
set_up-IsSetup eliminate c law h =
    (setup eliminate law c h, set_up-eq eliminate law c h, setup-IsSetup eliminate law c h)

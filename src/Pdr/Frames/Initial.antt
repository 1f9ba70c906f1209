-- ===== src/Pdr/Frames/Initial.antt =====
-- is_init answers whether a cube meets an initial state.
use modelchecker.Common.{
  ℕ, suc, ◌≡◌, refl, sym, ◌∙◌, ap, Bool, true, false, Option, some, List, [], ◌∷◌, ◌++◌, ℤ, abs,
  All, Bool-cases, inl, inr, arith, Option-cases,
}
use mathlib.Core.List.{append-nil, append_assoc}
use modelchecker.Circuit.{Assignment, holds}
use modelchecker.Circuit.Settle.{settle, settle_below, holds-agree}
use modelchecker.Circuit.Run.{IsWellFormed, IsFrame, IsInitial}
use modelchecker.Aiger.{Aiger, first_ands_index}
use modelchecker.Sat.{Clause, Answer, unsat}
use modelchecker.Sat.Laws.{Satisfies, AllTrue, IsSolver}
use modelchecker.Sat.Cadical.{Cadical, new_cadical, add_clause, add_clauses}
use modelchecker.Pdr.Init.{init_clauses}
use modelchecker.Pdr.Init.Exact.{
  init_clauses-Satisfies, settle-IsFrame, settle-IsInitial, settle-constraints,
}
use modelchecker.Pdr.Init.Counterexample.{Answer-cases, complete, complete-Completes}
use modelchecker.Pdr.Frames.{Cube, Pdr, init_solver, is_init}
use modelchecker.Pdr.Frames.Invariant.{cube_holds, IsCube, IsPdr}

-- The clauses of a solver after some are added.
pub add_clauses-append :
    (cs : List Clause) (s : Cadical) → (add_clauses cs s).clauses ≡ s.clauses ++ cs
unfolding add_clauses add_clause
add_clauses-append [] s = sym (append-nil s.clauses)
add_clauses-append (c ∷ cs) s =
    add_clauses-append cs (add_clause c s) ∙ append_assoc s.clauses (c ∷ []) cs

pub cube_holds-AllTrue : (x : Assignment) (q : Cube) → cube_holds x q ≡ true → AllTrue x q
unfolding cube_holds
cube_holds-AllTrue x [] h = tt
cube_holds-AllTrue x (l ∷ ls) h = (ground (arith, h), cube_holds-AllTrue x ls (ground (arith, h)))

pub AllTrue-cube_holds : (x : Assignment) (q : Cube) → AllTrue x q → cube_holds x q ≡ true
unfolding cube_holds
AllTrue-cube_holds x [] h = refl
AllTrue-cube_holds x (l ∷ ls) (t, ts) =
    let rest = AllTrue-cube_holds x ls ts in ground (arith, t, rest)

-- An initial frame in which the constraints hold.
abbrev pub IsStart : Aiger → Assignment → Type 0
IsStart c x = IsFrame c x × IsInitial c x × AllTrue x c.constraints

-- What is_init leaves: its answer, and a state that differs in the solver of the initial states only.
pub record Initial (c : Aiger) (q : Cube) (s : Pdr) (r : Option (Bool × Pdr)) : Type 0 where
  pub answer : Bool
  pub solver : Cadical
  pub returns : r ≡ some (answer, record s { init = some solver; queries = suc s.queries })
  pub pdr : IsPdr c (record s { init = some solver; queries = suc s.queries })
  pub no_start : answer ≡ false → (x : Assignment) → IsStart c x → cube_holds x q ≡ false
  pub start : answer ≡ true → (x : Assignment) × IsStart c x × (cube_holds x q ≡ true)

module _ (solve : ℕ → List Clause → List ℤ → Answer) (order : ℕ → List ℤ → List ℤ) (c : Aiger)
    (law : IsSolver solve) (well : IsWellFormed c) where
  init_solver_lem :
      (s : Pdr)
      → IsPdr c s
      → init_solver solve order c s.init ≡ add_clauses (init_clauses c) new_cadical
  unfolding init_solver
  init_solver_lem s h = elim (Option-cases s.init) [
    | inl e ↦ rw (e, init_solver) refl
    | inr (i, e) ↦ rw (e, init_solver) (h.init_ok i e)
  ]

  init_clauses-eq :
      (s : Pdr) → IsPdr c s → (init_solver solve order c s.init).clauses ≡ init_clauses c
  init_clauses-eq s h =
      ap (λ (i : Cadical). i.clauses) (init_solver_lem s h)
      ∙ add_clauses-append (init_clauses c) new_cadical
      ∙ (unfold new_cadical in refl)

  after-IsPdr :
      (s : Pdr)
      → IsPdr c s
      → IsPdr c
          (record s { init = some (init_solver solve order c s.init); queries = suc s.queries })
  after-IsPdr s h = record {
    setup = h.setup;
    frame_ok = h.frame_ok;
    init_ok = λ i e.
        let same : init_solver solve order c s.init ≡ i = cc in sym same ∙ init_solver_lem s h;
  }

  -- Where the solver finds values, they evaluate to an initial state of the cube.
  found_start :
      (q : Cube) (σ : Assignment)
      → IsCube c q
      → Satisfies σ (init_clauses c)
      → AllTrue σ q
      → (x : Assignment) × IsStart c x × (cube_holds x q ≡ true)
  found_start q σ cube clauses all = (
    settle c.ands σ,
    (
      settle-IsFrame c well σ clauses,
      settle-IsInitial c well σ clauses,
      settle-constraints c well σ clauses,
    ),
    AllTrue-cube_holds (settle c.ands σ) q (kept q cube all),
  )
    where
      kept : (ls : List ℤ) → IsCube c ls → AllTrue σ ls → AllTrue (settle c.ands σ) ls
      kept [] h t = tt
      kept (l ∷ ls) ((_, lt), h) (t, ts) = (
        holds-agree (settle c.ands σ) σ l
              (settle_below (first_ands_index c) c.ands σ (abs l) well.ordered lt)
            ∙ t,
        kept ls h ts,
      )

  -- For a solver that is right and a well-formed circuit, in a state whose solvers are right:
  -- is_init on a cube of latch literals returns, and changes the solver of the initial states only;
  -- if it answers true, a start is in the cube, and if false, none is.
  pub is_init-Initial :
      (q : Cube) (s : Pdr) → IsCube c q → IsPdr c s → Initial c q s (is_init solve order c q s)
  unfolding is_init
  is_init-Initial q s cube h =
      let solver = init_solver solve order c s.init in
      let clauses = init_clauses-eq s h in
      elim (Answer-cases (solve s.queries solver.clauses q)) [
        | inl (val, e) ↦
            let (all, trues) =
              law.sat_right s.queries solver.clauses q val _ e
                (complete-Completes val (λ v. false)) in
            record {
              answer = true;
              solver = solver;
              returns = rw (e, is_init) refl;
              pdr = after-IsPdr s h;
              no_start = λ w. absurd (cc);
              start = λ w. found_start q (complete val (λ v. false)) cube (rw clauses at all) trues;
            }
        | inr (inl (failed, e)) ↦ record {
          answer = false;
          solver = solver;
          returns = rw (e, is_init) refl;
          pdr = after-IsPdr s h;
          no_start = λ w x start. none_start failed e x start;
          start = λ w. absurd (cc);
        }
        | inr (inr e) ↦ absurd (law.answers s.queries solver.clauses q e)
      ]
    where
      none_start :
          (failed : ℤ → Bool)
          → solve s.queries (init_solver solve order c s.init).clauses q ≡ unsat failed
          → (x : Assignment) → IsStart c x
          → cube_holds x q ≡ false
      none_start failed e x (frame, initial, cons) = elim (Bool-cases (cube_holds x q)) [
        | inr off ↦ off
        | inl on ↦
            let clauses = init_clauses-eq s h in
            let sat_x = init_clauses-Satisfies c well x frame initial cons in
            absurd (
              law.unsat_right s.queries (init_solver solve order c s.init).clauses q failed x e
                (rw clauses sat_x) (weaken q (cube_holds-AllTrue x q on)))
      ]
        where
          weaken : (ls : List ℤ) → AllTrue x ls → All (λ a. failed a ≡ true → holds x a ≡ true) ls
          weaken [] t = tt
          weaken (l ∷ ls) (t, ts) = (λ w. t, weaken ls ts)

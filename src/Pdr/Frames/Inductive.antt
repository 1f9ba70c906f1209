-- ===== src/Pdr/Frames/Inductive.antt =====
-- is_inductive: where it answers true, no good step leads from the frame, outside of the cube, into
-- the cube, nor into its core.
use modelchecker.Common.{
  ℕ, suc, ◌+◌, ◌≡◌, refl, ◌∙◌, ap, Bool, true, false, Option, some, List, ℤ, length, Bool-cases,
  inl, inr, ◌⊎◌, get_elem?, set,
}
use modelchecker.Circuit.{Assignment}
use modelchecker.Circuit.Run.{IsWellFormed}
use modelchecker.Aiger.{Aiger, first_ands_index}
use modelchecker.Sat.{Clause, Answer, unsat}
use modelchecker.Sat.Laws.{IsSolver}
use modelchecker.Sat.Cadical.{Cadical, add_clause, max_var}
use modelchecker.Pdr.Init.Counterexample.{Answer-cases}
use modelchecker.Pdr.Frames.{Cube, Frame, Pdr, failed_lits, take_core, assumptions, is_inductive}
use modelchecker.Pdr.Frames.Prepared.{IsGoodStep}
use modelchecker.Pdr.Frames.Invariant.{
  cube_holds, cubes_of, InFrame, IsCube, IsPdr, set_solver-IsPdr, cubes_of-set,
}
use modelchecker.Pdr.Frames.Initial.{IsStart, is_init-Initial, cube_holds-AllTrue}
use modelchecker.Pdr.Frames.Refuted.{
  IsOrder, asked_clause, asked-IsFrameOk, refuted, core-All, cube-All, failed_lits-IsCube,
  cube_holds-failed_lits,
}

-- In the frame `k` every good step from outside of `from` leads outside of `to`.
abbrev pub Blocks : Aiger → Pdr → ℕ → Cube → Cube → Type 0
Blocks c s k from to =
    (x y : Assignment)
    → IsGoodStep c x y
    → InFrame c x k (cubes_of s.frames)
    → cube_holds x from ≡ false
    → cube_holds y to ≡ false

-- What is_inductive leaves.
pub record Inductive (c : Aiger) (s : Pdr) (k : ℕ) (q : Cube) (gen_core : Bool)
    (r : Option (Bool × Pdr)) : Type 0 where
  pub answer : Bool
  pub after : Pdr
  pub returns : r ≡ some (answer, after)
  pub pdr : IsPdr c after
  pub setup_same : after.setup ≡ s.setup
  pub cubes_same : cubes_of after.frames ≡ cubes_of s.frames
  pub blocks : answer ≡ true → Blocks c s k q q
  pub core_blocks : answer ≡ true → gen_core ≡ true → Blocks c s k q after.core
  pub core_cube : answer ≡ true → gen_core ≡ true → IsCube c after.core
  pub core_holds :
      answer ≡ true
      → gen_core ≡ true
      → (x : Assignment) → cube_holds x q ≡ true
      → cube_holds x after.core ≡ true
  pub core_start :
      answer ≡ true
      → gen_core ≡ true
      → (after.core ≡ q) ⊎ ((x : Assignment) → IsStart c x → cube_holds x after.core ≡ false)

module _ (solve : ℕ → List Clause → List ℤ → Answer) (order : ℕ → List ℤ → List ℤ) (c : Aiger)
    (law : IsSolver solve) (keeps : IsOrder order) (well : IsWellFormed c)
    (first : c.primed_first_dimacs ≡ first_ands_index c + length c.ands) where
  -- The state after a call of the solver of frame `k`.
  abbrev asked : Pdr → ℕ → Frame → Cadical → Pdr
  asked s k f answered = record s {
    frames = set s.frames k (record f { solver = answered });
    queries = suc s.queries;
  }

  abbrev asked_solver : Frame → Cube → Cadical
  asked_solver f q =
      add_clause (asked_clause solve order c law keeps well first (suc (max_var f.solver)) q)
        f.solver

  asked-IsPdr :
      (s : Pdr) (k : ℕ) (f : Frame) (q : Cube) (val : ℕ → Option Bool)
      → IsPdr c s
      → get_elem? s.frames k ≡ some f
      → IsPdr c (asked s k f (record (asked_solver f q) { model = val }))
  asked-IsPdr s k f q val h found = set_solver-IsPdr c s k f _ (suc s.queries) h found (
      asked-IsFrameOk solve order c law keeps well first s k f.solver q val h
        (h.frame_ok k f found))

  -- The core that the call leaves.
  record Core (s : Pdr) (q : Cube) (failed : ℤ → Bool) (r : Option (Unit {0} × Pdr)) : Type 0 where
    after : Pdr
    returns : r ≡ some (tt, after)
    pdr : IsPdr c after
    setup_same : after.setup ≡ s.setup
    frames_same : after.frames ≡ s.frames
    which :
        (after.core ≡ q)
        ⊎ ((after.core ≡ failed_lits solve order c s.setup failed q)
            × ((x : Assignment) → IsStart c x → cube_holds x after.core ≡ false))

  take_core-Core :
      (s : Pdr) (q : Cube) (failed : ℤ → Bool)
      → IsPdr c s
      → IsCube c q
      → Core s q failed (take_core solve order c q failed s)
  unfolding take_core
  take_core-Core s q failed h cube =
      let core = failed_lits solve order c s.setup failed q in
      let kept : IsPdr c (record s { core = core }) = record {
        setup = h.setup;
        frame_ok = h.frame_ok;
        init_ok = h.init_ok;
      } in
      let i =
        is_init-Initial solve order c law well core (record s { core = core })
          (failed_lits-IsCube solve order c law keeps well first s.setup failed q cube) kept in
      elim (Bool-cases i.answer) [
        | inl t ↦ record {
          after = record s { core = q; init = some i.solver; queries = suc s.queries };
          returns = rw (i.returns, t, take_core) refl;
          pdr = record { setup = h.setup; frame_ok = h.frame_ok; init_ok = i.pdr.init_ok };
          setup_same = refl;
          frames_same = refl;
          which = inl refl;
        }
        | inr t ↦ record {
          after = record s { core = core; init = some i.solver; queries = suc s.queries };
          returns = rw (i.returns, t, take_core) refl;
          pdr = record { setup = h.setup; frame_ok = h.frame_ok; init_ok = i.pdr.init_ok };
          setup_same = refl;
          frames_same = refl;
          which = inr (refl, i.no_start t);
        }
      ]

  -- For a solver that is right, an order that drops no literal, and a well-formed circuit whose
  -- primed variables start right after the others. In a state whose solvers are right, for a cube
  -- of latch literals and a frame that exists: the call returns, and keeps the solvers right and
  -- the cubes. Where it answers true, a good step from a state of the frame outside of the cube
  -- does not enter the cube, nor the core that is asked for; the core is a part of the cube, and is
  -- the cube or has no start.
  pub is_inductive-Inductive :
      (s : Pdr) (k : ℕ) (f : Frame) (q : Cube) (gen_core reverse_assumption : Bool)
      → IsPdr c s
      → get_elem? s.frames k ≡ some f
      → IsCube c q
      → Inductive c s k q gen_core (is_inductive solve order c k q gen_core reverse_assumption s)
  unfolding is_inductive
  is_inductive-Inductive s k f q gen_core rev h found cube =
      let act = suc (max_var f.solver) in
      let solver = asked_solver f q in
      let assumed = assumptions solve order c s.setup s.queries act q rev in
      elim (Answer-cases (solve s.queries solver.clauses assumed)) [
        | inl (val, e) ↦ record {
          answer = false;
          after = asked s k f (record solver { model = val });
          returns = rw (found, e, is_inductive) refl;
          pdr = asked-IsPdr s k f q val h found;
          setup_same = refl;
          cubes_same = cubes_of-set s.frames k f _ found refl;
          blocks = λ w. absurd (cc);
          core_blocks = λ w. absurd (cc);
          core_cube = λ w. absurd (cc);
          core_holds = λ w. absurd (cc);
          core_start = λ w. absurd (cc);
        }
        | inr (inl (failed, e)) ↦ elim (Bool-cases gen_core) [
          | inr off ↦ record {
            answer = true;
            after = asked s k f solver;
            returns = rw (found, e, off, is_inductive) refl;
            pdr = asked-IsPdr s k f q solver.model h found;
            setup_same = refl;
            cubes_same = cubes_of-set s.frames k f _ found refl;
            blocks = λ w. blocked failed e;
            core_blocks = λ w on. absurd (cc);
            core_cube = λ w on. absurd (cc);
            core_holds = λ w on. absurd (cc);
            core_start = λ w on. absurd (cc);
          }
          | inl on ↦
              let core =
                take_core-Core (asked s k f solver) q failed
                  (asked-IsPdr s k f q solver.model h found) cube in
              record {
                answer = true;
                after = core.after;
                returns = rw (found, e, on, core.returns, is_inductive) refl;
                pdr = core.pdr;
                setup_same = core.setup_same;
                cubes_same = ap cubes_of core.frames_same ∙ cubes_of-set s.frames k f _ found refl;
                blocks = λ w. blocked failed e;
                core_blocks = λ w v. elim core.which [
                  | inl same ↦ rw (same) (blocked failed e)
                  | inr (same, _) ↦ rw (same) (core_blocked failed e)
                ];
                core_cube = λ w v. elim core.which [
                  | inl same ↦ rw (same) cube
                  | inr (same, _) ↦
                      rw (same) (
                        failed_lits-IsCube solve order c law keeps well first s.setup failed q cube)
                ];
                core_holds = λ w v x on_q. elim core.which [
                  | inl same ↦ rw (same) on_q
                  | inr (same, _) ↦ rw (same) (
                      cube_holds-failed_lits solve order c law keeps well first s.setup failed x q
                        on_q)
                ];
                core_start = λ w v. elim core.which [
                  | inl same ↦ inl same
                  | inr (_, none_start) ↦ inr none_start
                ];
              }
        ]
        | inr (inr e) ↦ absurd (law.answers s.queries solver.clauses assumed e)
      ]
    where
      Refutation : (ℤ → Bool) → Type 0
      Refutation failed =
          solve s.queries (asked_solver f q).clauses
            (assumptions solve order c s.setup s.queries (suc (max_var f.solver)) q rev)
          ≡ unsat failed

      blocked : (failed : ℤ → Bool) → Refutation failed → Blocks c s k q q
      blocked failed e x y g inside out = elim (Bool-cases (cube_holds y q)) [
        | inr off ↦ off
        | inl on ↦ absurd (
            refuted solve order c law keeps well first s k f.solver q rev failed x y h
              (h.frame_ok k f found) cube e g inside out
              (cube-All solve order c law keeps well first s.setup failed y q
                (cube_holds-AllTrue y q on)))
      ]

      core_blocked :
          (failed : ℤ → Bool)
          → Refutation failed
          → Blocks c s k q (failed_lits solve order c s.setup failed q)
      core_blocked failed e x y g inside out =
          elim (Bool-cases (cube_holds y (failed_lits solve order c s.setup failed q))) [
            | inr off ↦ off
            | inl on ↦ absurd (
                refuted solve order c law keeps well first s k f.solver q rev failed x y h
                  (h.frame_ok k f found) cube e g inside out
                  (core-All solve order c law keeps well first s.setup failed y q on))
          ]

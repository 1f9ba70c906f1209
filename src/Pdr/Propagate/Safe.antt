-- ===== src/Pdr/Propagate/Safe.antt =====
-- Where the rounds of PDR find an invariant, no run reaches a bad state.
use modelchecker.Common.{
  ℕ, zero, suc, ◌+◌, ◌-◌, ◌≤◌, ◌<◌, ◌≡◌, refl, sym, ◌∙◌, ap, subst, Bool, true, false, not, ◌&&◌,
  Option, some, Option-cases, List, [], ◌∷◌, ℤ, length, Bool-cases, inl, inr, arith, get_elem?, set,
  ltb, ◌%◌, ◌==◌,
}
use modelchecker.Circuit.{Assignment, holds}
use modelchecker.Circuit.Run.{IsWellFormed}
use modelchecker.Aiger.{Aiger, first_ands_index}
use modelchecker.Sat.{Clause, Answer}
use modelchecker.Sat.Laws.{IsSolver}
use modelchecker.Pdr.Init.Counterexample.{Answer-cases}
use modelchecker.Pdr.Frames.{Pdr, depth}
use modelchecker.Pdr.Frames.Prepared.{frames_of}
use modelchecker.Pdr.Frames.Invariant.{
  cubes_of, AvoidsFrom, InFrame, IsPdr, IsFrameOk, set_solver-IsPdr, cubes_of-set,
}
use modelchecker.Pdr.Frames.Initial.{IsStart}
use modelchecker.Pdr.Frames.Refuted.{IsOrder}
use modelchecker.Pdr.Frames.Chain.{IsChain}
use modelchecker.Pdr.Frames.Inserted.{length-set}
use modelchecker.Pdr.Propagate.{propagate, start_frame, can_reach_bad, find_invariant}
use modelchecker.Pdr.Propagate.Erased.{Kept, Kept-trans}
use modelchecker.Pdr.Propagate.Pushed.{lookup, propagate_frames-Propagated}
use modelchecker.Pdr.Propagate.Runs.{IsSafe, NoBadFrom, empty-IsSafe}

module _ (solve : ℕ → List Clause → List ℤ → Answer) (order : ℕ → List ℤ → List ℤ) (c : Aiger)
    (law : IsSolver solve) (keeps : IsOrder order) (well : IsWellFormed c)
    (first : c.primed_first_dimacs ≡ first_ands_index c + length c.ands) where
  -- What the query leaves.
  pub record Queried (s : Pdr) (r : Option (Bool × Pdr)) : Type 0 where
    pub reaches : Bool
    pub after : Pdr
    pub returns : r ≡ some (reaches, after)
    pub kept : Kept c s after
    pub start_same : start_frame after ≡ start_frame s
    pub no_bad : reaches ≡ false → NoBadFrom c (cubes_of s.frames) (depth s)

  can_reach_bad-Queried :
      (s : Pdr)
      → IsPdr c s
      → IsChain c (cubes_of s.frames)
      → 2 ≤ length s.frames
      → Queried s (can_reach_bad solve order c s)
  unfolding can_reach_bad depth start_frame
  can_reach_bad-Queried s h chain two =
      let (f, found) = lookup s.frames (length s.frames - 2) (omega (arith, two)) in
      let ok = h.frame_ok (depth s) f found in
      let bad = s.setup.primed.bad_prime in
      elim (Answer-cases (solve s.queries f.solver.clauses (bad ∷ []))) [
        | inl (val, e) ↦
            let solver = record f.solver { model = val } in
            let same_ok : IsFrameOk c s.setup (cubes_of s.frames) (depth s) solver = record {
              below = ok.below;
              room = ok.room;
              implied = ok.implied;
            } in
            let same =
              cubes_of-set s.frames (depth s) f (record f { solver = solver }) found refl in
            record {
              reaches = true;
              after = record s {
                frames = set s.frames (depth s) (record f { solver = solver });
                queries = suc s.queries;
              };
              returns = rw (found, e, can_reach_bad) refl;
              kept = record {
                pdr = set_solver-IsPdr c s (depth s) f solver (suc s.queries) h found same_ok;
                chain = subst (IsChain c) (sym same) chain;
                setup_same = refl;
                length_same = length-set s.frames (depth s) _;
                stronger = λ x j w. subst (AvoidsFrom x j) same w;
              };
              start_same =
                  rw
                    (
                      length-set s.frames (length s.frames - 2) (record f { solver = solver }),
                      start_frame,
                    )
                    refl;
              no_bad = λ w. absurd (cc);
            }
        | inr (inl (failed, e)) ↦ record {
          reaches = false;
          after = record s { queries = suc s.queries };
          returns = rw (found, e, can_reach_bad) refl;
          kept = record {
            pdr = record { setup = h.setup; frame_ok = h.frame_ok; init_ok = h.init_ok };
            chain = chain;
            setup_same = refl;
            length_same = refl;
            stronger = λ x j w. w;
          };
          start_same = refl;
          no_bad = λ w x y g here. elim (Bool-cases (holds y c.bad)) [
            | inr off ↦ off
            | inl on ↦
                let means = h.setup.bad_means x y g in
                absurd (
                  law.unsat_right s.queries f.solver.clauses (bad ∷ []) failed
                    (frames_of c s.setup x y) e (ok.implied x y g here) (λ v. means ∙ on, tt))
          ];
        }
        | inr (inr e) ↦ absurd (law.answers s.queries f.solver.clauses (bad ∷ []) e)
      ]

  -- What a round leaves.
  pub record Concluded (s : Pdr) (r : Option (Bool × Pdr)) : Type 0 where
    pub proved : Bool
    pub after : Pdr
    pub returns : r ≡ some (proved, after)
    pub kept : Kept c s after
    pub safe : proved ≡ true → IsSafe c

  start_frame-bounds :
      (s : Pdr)
      → 3 ≤ length s.frames
      → 1 ≤ s.earliest_strengthened_frame
      → s.earliest_strengthened_frame ≤ depth s
      → (1 ≤ start_frame s) × (start_frame s ≤ depth s)
  unfolding start_frame depth
  start_frame-bounds s three lo hi = elim (Bool-cases s.top_frame_cannot_reach_bad) [
    | inl t ↦ rw (t, start_frame) (omega (arith, three), omega arith)
    | inr t ↦
        elim (Bool-cases (not ((length s.frames - 2) % 5 == 0) && ltb 20 (length s.frames - 2))) [
          | inl u ↦ rw (t, u, start_frame) (lo, hi)
          | inr u ↦ rw (t, u, start_frame) (omega arith, omega (arith, three))
        ]
  ]

  -- A run that starts well stays well, if propagate names a frame.
  found-IsSafe :
      (s u : Pdr) (k : ℕ)
      → Kept c s u
      → NoBadFrom c (cubes_of s.frames) (depth s)
      → ((x : Assignment) → IsStart c x → holds x c.bad ≡ false)
      → 1 ≤ k
      → k ≤ depth s
      → get_elem? (cubes_of u.frames) k ≡ some []
      → IsSafe c
  found-IsSafe s u zero kept none_bad start_ok lo hi bare = absurd (omega (arith, lo))
  found-IsSafe s u (suc m) kept none_bad start_ok lo hi bare =
      empty-IsSafe c (cubes_of u.frames) m (depth s) kept.chain hi bare
        (λ x y g w. none_bad x y g (in_frame x (depth s) w)) start_ok
    where
      in_frame :
          (x : Assignment) (j : ℕ)
          → InFrame c x j (cubes_of u.frames)
          → InFrame c x j (cubes_of s.frames)
      in_frame x zero w = w
      in_frame x (suc j) w = kept.stronger x (suc j) w

  -- For a solver that is right and a well-formed circuit whose primed variables start right after
  -- the others. In a state whose solvers and frames are right, with at least three frames and the
  -- earliest strengthened frame between 1 and the depth, where no start is bad: a round of the main
  -- loop that finds no state before a bad one returns and keeps all that, and so does one that
  -- finds it; if the round finds an invariant, no run in which the constraints hold reaches a bad
  -- state.
  pub find_invariant-Concluded :
      (s : Pdr)
      → IsPdr c s
      → IsChain c (cubes_of s.frames)
      → 3 ≤ length s.frames
      → 1 ≤ s.earliest_strengthened_frame
      → s.earliest_strengthened_frame ≤ depth s
      → ((x : Assignment) → IsStart c x → holds x c.bad ≡ false)
      → Concluded s (find_invariant solve order c s)
  unfolding find_invariant propagate
  find_invariant-Concluded s h chain three lo hi start_ok =
      let q = can_reach_bad-Queried s h chain (omega (arith, three)) in
      let t = q.after in
      let kept = q.kept in
      let bounds = start_frame-bounds s three lo hi in
      let count = kept.length_same in
      let p =
        propagate_frames-Propagated solve order c law keeps well first (start_frame t)
          (suc (depth t) - start_frame t) t kept.pdr kept.chain
          (enough t (ap (λ n. n - 2) count) count bounds q.start_same) in
      let both = Kept-trans c s t p.after kept p.kept in
      elim (Bool-cases q.reaches) [
        | inl r ↦ record {
          proved = false;
          after = t;
          returns = rw (q.returns, r, find_invariant) refl;
          kept = kept;
          safe = λ w. absurd (cc);
        }
        | inr r ↦ elim (Option-cases p.found) [
          | inl e ↦ record {
            proved = false;
            after = p.after;
            returns = rw (q.returns, r, p.returns, e, find_invariant) refl;
            kept = both;
            safe = λ w. absurd (cc);
          }
          | inr (k, e) ↦ record {
            proved = true;
            after = p.after;
            returns = rw (q.returns, r, p.returns, e, find_invariant) refl;
            kept = both;
            safe = λ w.
                let (from, to, bare) = p.empty k e in
                let same = q.start_same in
                let deep : depth t ≡ depth s = unfold depth in ap (λ n. n - 2) count in
                let (one, last) = bounds in
                found-IsSafe s p.after k both (q.no_bad r) start_ok (omega (arith, from, same, one))
                  (omega (arith, to, same, last, deep)) bare;
          }
        ]
      ]
    where
      enough :
          (t : Pdr)
          → length t.frames - 2 ≡ length s.frames - 2
          → length t.frames ≡ length s.frames
          → (1 ≤ start_frame s) × (start_frame s ≤ depth s)
          → start_frame t ≡ start_frame s
          → start_frame t + (suc (depth t) - start_frame t) < length t.frames
      enough t deep count (one, last) same =
          unfold depth in omega (arith, deep, count, one, last, same, three)

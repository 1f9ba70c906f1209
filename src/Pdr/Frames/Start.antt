-- ===== src/Pdr/Frames/Start.antt =====
-- The frames before the main loop.
use modelchecker.Common.{
  ℕ, zero, suc, true, ◌+◌, ◌<◌, ◌≡◌, sym, ◌∙◌, ap₂, abs, ◌&&◌, subst, some, List, [], ◌∷◌, ℤ, All,
  arith, get_elem?, length,
}
use modelchecker.Circuit.{And, Assignment, GateHolds}
use modelchecker.Circuit.Order.{IsOrderedFrom}
use modelchecker.Circuit.Settle.{holds-agree}
use modelchecker.Circuit.Run.{IsVar, IsWellFormed, IsInitial, num_variables}
use modelchecker.Aiger.{Aiger, first_latch, first_ands_index}
use modelchecker.Pdr.Primes.Means.{pair, pair_low}
use modelchecker.Pdr.Translation.{leaves}
use modelchecker.Sat.Laws.{Satisfies}
use modelchecker.Sat.Cadical.{Cadical, add_clauses, new_cadical}
use modelchecker.Sat.Cadical.Bounds.{add_clauses-IsBelow, nv-le-add_clauses, add_clauses-Satisfies}
use modelchecker.Pdr.Init.{init_clauses}
use modelchecker.Pdr.Init.Exact.{init_clauses-Satisfies, AllTrue-agree, reset_below}
use modelchecker.Pdr.Frames.{Cube, Frame, Pdr, depth, frame_solver, new_frame, first_frame}
use modelchecker.Pdr.Frames.Prepared.{IsGoodStep, IsSetup, frames_of}
use modelchecker.Pdr.Frames.Invariant.{cubes_of, AvoidsFrom, IsFrameOk, IsPdr}
use modelchecker.Pdr.Frames.Chain.{IsChain}

-- The frame of check_BMC0, that of check_BMC1, and the one that check makes before its loop.
unfoldable pub initial_frames : Aiger → Pdr → Pdr
initial_frames c s =
    let t = new_frame (new_frame (first_frame c s)) in
    record t { earliest_strengthened_frame = depth t; top_frame_cannot_reach_bad = true }

abbrev three : List (List Cube)
three = [] ∷ [] ∷ [] ∷ []

AvoidsFrom-three : (x : Assignment) (j : ℕ) → AvoidsFrom x j three
AvoidsFrom-three x zero = (tt, (tt, (tt, tt)))
AvoidsFrom-three x (suc zero) = (tt, (tt, tt))
AvoidsFrom-three x (suc (suc zero)) = (tt, tt)
AvoidsFrom-three x (suc (suc (suc zero))) = tt
AvoidsFrom-three x (suc (suc (suc (suc j)))) = tt

three-IsChain : (c : Aiger) → IsChain c three
three-IsChain c = record {
  starts = λ x st. AvoidsFrom-three x 0;
  steps = λ k x y g w. AvoidsFrom-three y (suc k);
  latches = (tt, (tt, (tt, tt)));
}

gates-agree :
    (σ x : Assignment) (n : ℕ) (gs : List And)
    → IsOrderedFrom n gs
    → ((v : ℕ) → v < n + length gs → σ v ≡ x v)
    → All (GateHolds x) gs
    → All (GateHolds σ) gs
gates-agree σ x n [] o same h = tt
gates-agree σ x n (g ∷ gs) (o, l, ll, r, rl, ordered) same (h, hs) = (
  same g.o (omega (arith, o))
      ∙ h
      ∙ sym (
          ap₂ ◌&&◌ (holds-agree σ x g.i1 (same (abs g.i1) (omega (arith, ll))))
            (holds-agree σ x g.i2 (same (abs g.i2) (omega (arith, rl))))),
  gates-agree σ x (suc n) gs ordered (λ v lt. same v (omega (arith, lt))) hs,
)

vars-agree :
    (σ x : Assignment) (n : ℕ) (ls : List ℤ)
    → All (IsVar n) ls
    → ((v : ℕ) → v < n → σ v ≡ x v)
    → All (λ l. σ (abs l) ≡ x (abs l)) ls
vars-agree σ x n [] h same = tt
vars-agree σ x n (l ∷ ls) ((lit, lt), h) same = (same (abs l) lt, vars-agree σ x n ls h same)

module _ (c : Aiger) (well : IsWellFormed c) (first : c.primed_first_dimacs ≡ num_variables c) where
  -- The first of two frames satisfies the clauses of the initial states, if it is one.
  pub init_clauses-now :
      (s : Pdr) (x y : Assignment)
      → IsGoodStep c x y
      → IsInitial c x
      → Satisfies (frames_of c s.setup x y) (init_clauses c)
  unfolding frames_of
  init_clauses-now s x y g initial =
      let σ = pair x y (leaves c) c.primed_first_dimacs s.setup.primes in
      let same : (v : ℕ) → v < num_variables c → σ v ≡ x v = λ v lt.
        pair_low x y (leaves c) c.primed_first_dimacs s.setup.primes v (omega (arith, first, lt)) in
      let now = g.now in
      init_clauses-Satisfies c well σ
        (record {
          constant = same 1 (omega arith) ∙ now.constant;
          gates = gates-agree σ x (first_ands_index c) c.ands well.ordered same now.gates;
        })
        (AllTrue-agree x σ c.init_state
          (reset_below (λ v. σ v ≡ x v) (first_latch c) (first_ands_index c) c.init_state well.reset
            (λ v lt. same v (omega (arith, lt))))
          initial)
        (AllTrue-agree x σ c.constraints
          (vars-agree σ x (num_variables c) c.constraints well.constraint_vars same) g.constraints)

  -- The three frames are right, their solvers and their cubes.
  pub initial_frames-IsPdr :
      (s : Pdr)
      → IsSetup c s.setup
      → ((i : Cadical) → s.init ≡ some i → i ≡ add_clauses (init_clauses c) new_cadical)
      → IsPdr c (initial_frames c s) × IsChain c (cubes_of (initial_frames c s).frames)
  unfolding initial_frames first_frame new_frame
  initial_frames-IsPdr s h init_ok =
      (record { setup = h; frame_ok = at_frame; init_ok = init_ok }, three-IsChain c)
    where
      plain : (k : ℕ) → IsFrameOk c s.setup three k (frame_solver s.setup)
      plain k = record { below = h.below; room = h.room; implied = λ x y g w. h.clauses_hold x y g }

      start : IsFrameOk c s.setup three 0 (add_clauses (init_clauses c) (frame_solver s.setup))
      start = record {
        below = add_clauses-IsBelow (init_clauses c) (frame_solver s.setup) h.below;
        room =
            let more = nv-le-add_clauses (init_clauses c) (frame_solver s.setup) in
            let room = h.room in omega (arith, more, room);
        implied = λ x y g w.
            add_clauses-Satisfies (frames_of c s.setup x y) (init_clauses c) (frame_solver s.setup)
              (h.clauses_hold x y g) (init_clauses-now s x y g w);
      }

      from_list :
          (g f : Frame) (k : ℕ)
          → some g ≡ some f
          → IsFrameOk c s.setup three k g.solver
          → IsFrameOk c s.setup three k f.solver
      from_list g f k e ok =
          let same : g ≡ f = cc in
          subst (λ (w : Frame). IsFrameOk c s.setup three k w.solver) same ok

      at_frame :
          (k : ℕ) (f : Frame)
          → get_elem? (initial_frames c s).frames k ≡ some f
          → IsFrameOk c s.setup three k f.solver
      at_frame zero f e = from_list _ f 0 e start
      at_frame (suc zero) f e = from_list _ f 1 e (plain 1)
      at_frame (suc (suc zero)) f e = from_list _ f 2 e (plain 2)
      at_frame (suc (suc (suc k))) f e = absurd (cc)

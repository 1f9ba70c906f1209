-- ===== src/Pdr/Frames/Deeper.antt =====
-- A new frame at the end keeps the solvers and the frames right.
use modelchecker.Common.{
  ℕ, zero, suc, ◌≤◌, ◌≡◌, refl, sym, ap, subst, some, List, [], ◌∷◌, ◌++◌, inl, inr, ◌⊎◌, All,
  All-append, arith, get_elem?, length,
}
use modelchecker.Circuit.{Assignment}
use modelchecker.Aiger.{Aiger}
use modelchecker.Pdr.Frames.{Cube, Frame, Pdr, frame_solver, new_frame, depth, deepen}
use modelchecker.Pdr.Frames.Invariant.{cubes_of, AvoidsFrom, InFrame, IsCube, IsFrameOk, IsPdr}
use modelchecker.Pdr.Frames.Chain.{IsChain}

cubes_of-append :
    (fs : List Frame) (f : Frame) → cubes_of (fs ++ f ∷ []) ≡ cubes_of fs ++ f.cubes ∷ []
cubes_of-append [] f = refl
cubes_of-append (x ∷ xs) f = ap (λ css. x.cubes ∷ css) (cubes_of-append xs f)

length-append : (fs : List Frame) (f : Frame) → length (fs ++ f ∷ []) ≡ suc (length fs)
length-append [] f = refl
length-append (x ∷ xs) f = ap suc (length-append xs f)

get_elem?-append :
    (fs : List Frame) (f w : Frame) (k : ℕ)
    → get_elem? (fs ++ f ∷ []) k ≡ some w
    → (get_elem? fs k ≡ some w) ⊎ (f ≡ w)
get_elem?-append [] f w zero e = inr (cc)
get_elem?-append [] f w (suc k) e = absurd (cc)
get_elem?-append (x ∷ xs) f w zero e = inl e
get_elem?-append (x ∷ xs) f w (suc k) e = get_elem?-append xs f w k e

-- A frame without cubes at the end excludes nothing.
AvoidsFrom-append :
    (x : Assignment) (j : ℕ) (css : List (List Cube))
    → AvoidsFrom x j css
    → AvoidsFrom x j (css ++ [] ∷ [])
AvoidsFrom-append x zero [] w = (tt, tt)
AvoidsFrom-append x zero (cs ∷ css) (w, ws) = (w, AvoidsFrom-append x zero css ws)
AvoidsFrom-append x (suc zero) [] w = tt
AvoidsFrom-append x (suc (suc j)) [] w = tt
AvoidsFrom-append x (suc j) (cs ∷ css) w = AvoidsFrom-append x j css w

append-AvoidsFrom :
    (x : Assignment) (j : ℕ) (css : List (List Cube))
    → AvoidsFrom x j (css ++ [] ∷ [])
    → AvoidsFrom x j css
append-AvoidsFrom x zero [] w = tt
append-AvoidsFrom x zero (cs ∷ css) (w, ws) = (w, append-AvoidsFrom x zero css ws)
append-AvoidsFrom x (suc j) [] w = tt
append-AvoidsFrom x (suc j) (cs ∷ css) w = append-AvoidsFrom x j css w

append-InFrame :
    (c : Aiger) (x : Assignment) (j : ℕ) (css : List (List Cube))
    → InFrame c x j (css ++ [] ∷ [])
    → InFrame c x j css
append-InFrame c x zero css w = w
append-InFrame c x (suc j) css w = append-AvoidsFrom x (suc j) css w

append-IsChain : (c : Aiger) (css : List (List Cube)) → IsChain c css → IsChain c (css ++ [] ∷ [])
append-IsChain c css h = record {
  starts = λ x st. AvoidsFrom-append x 0 css (h.starts x st);
  steps =
      λ k x y g w. AvoidsFrom-append y (suc k) css (h.steps k x y g (append-InFrame c x k css w));
  latches = All-append (λ cs. All (IsCube c) cs) css ([] ∷ []) h.latches (tt, tt);
}

-- Where at least two frames are there and the solvers and the frames are right, the end of a round
-- keeps them right; there is one frame more, and the earliest strengthened frame is the depth, which
-- is at least 1.
pub deepen-IsPdr :
    (c : Aiger) (s : Pdr)
    → IsPdr c s
    → IsChain c (cubes_of s.frames)
    → 2 ≤ length s.frames
    → IsPdr c (deepen s)
      × IsChain c (cubes_of (deepen s).frames)
      × (length (deepen s).frames ≡ suc (length s.frames))
      × ((deepen s).earliest_strengthened_frame ≡ depth (deepen s))
      × (1 ≤ depth (deepen s))
unfolding deepen new_frame depth
deepen-IsPdr c s h chain two =
    let f : Frame = record { cubes = []; solver = frame_solver s.setup } in
    let same = cubes_of-append s.frames f in
    let more = length-append s.frames f in
    (
      record {
        setup = h.setup;
        frame_ok =
            λ k w e. subst (λ css. IsFrameOk c s.setup css k w.solver) (sym same) (at_frame k w e);
        init_ok = h.init_ok;
      },
      subst (IsChain c) (sym same) (append-IsChain c (cubes_of s.frames) chain),
      more,
      refl,
      omega (arith, more, two),
    )
  where
    at_frame :
        (k : ℕ) (w : Frame)
        → get_elem? (s.frames ++ record { cubes = []; solver = frame_solver s.setup } ∷ []) k
          ≡ some w
        → IsFrameOk c s.setup (cubes_of s.frames ++ [] ∷ []) k w.solver
    at_frame k w e =
        elim (get_elem?-append s.frames (record { cubes = []; solver = frame_solver s.setup }) w k
          e) [
            | inl old ↦
                let ok = h.frame_ok k w old in
                record {
                  below = ok.below;
                  room = ok.room;
                  implied =
                      λ x y g v. ok.implied x y g (append-InFrame c x k (cubes_of s.frames) v);
                }
            | inr new ↦
                let setup = h.setup in
                subst (λ (v : Frame). IsFrameOk c s.setup (cubes_of s.frames ++ [] ∷ []) k v.solver)
                  new
                  (record {
                    below = setup.below;
                    room = setup.room;
                    implied = λ x y g v. setup.clauses_hold x y g;
                  })
          ]

-- ===== src/Pdr/Frames/Insertion.antt =====
-- add_cube returns, and keeps what the frames mean.
use modelchecker.Common.{
  ℕ, suc, ◌≤◌, ◌≡◌, ◌≢◌, refl, sym, ◌∙◌, ap, subst, Bool, false, Option, some, Option-cases,
  if◌then◌else◌, length, inl, inr, get_elem?,
}
use Prim.Native.Nat.{min}
use modelchecker.Circuit.{Assignment}
use modelchecker.Aiger.{Aiger, first_ands_index}
use modelchecker.Pdr.Frames.{Cube, Frame, Pdr, excluding, sort_lits, insert_cube, add_cube}
use modelchecker.Pdr.Frames.Invariant.{
  cube_holds, cubes_of, AvoidsFrom, IsCube, IsPdr, get_elem?-set_other,
}
use modelchecker.Pdr.Frames.Added.{
  sort_lits-All, sort_lits-cube_holds, insert_cube-none, get_elem?-cubes_of,
}
use modelchecker.Pdr.Frames.Strengthened.{
  is_new, strengthened, is_new-insert_cube, inserted-strengthened,
}
use modelchecker.Pdr.Frames.Chain.{IsChain, NoStart, Closed, insert_cube-IsChain}
use modelchecker.Pdr.Frames.Inserted.{
  AvoidsFrom-get, length-set, below, length-below, cubes_of-inserted, inserted-IsPdr,
  inserted_excludes, inserted,
}

-- What add_cube leaves: the cube is excluded from all frames up to `k`, nothing is lost, and the cubes
-- of the other frames stay. If the cube was not in the frame, then its clause is added to the solver of
-- frame `k`, and with `to_all` to those of the frames between the first one and it; every other solver
-- stays.
pub record Insertion (c : Aiger) (s : Pdr) (k : ℕ) (q : Cube) (to_all : Bool)
    (r : Option (Cube × Pdr)) : Type 0 where
  pub after : Pdr
  pub returns : r ≡ some (sort_lits q, after)
  pub pdr : IsPdr c after
  pub chain : IsChain c (cubes_of after.frames)
  pub setup_same : after.setup ≡ s.setup
  pub length_same : length after.frames ≡ length s.frames
  pub excludes :
      (x : Assignment) (j : ℕ)
      → AvoidsFrom x j (cubes_of after.frames)
      → AvoidsFrom x j (cubes_of s.frames) × (j ≤ k → cube_holds x q ≡ false)
  pub others :
      (j : ℕ) → k ≢ j → get_elem? (cubes_of after.frames) j ≡ get_elem? (cubes_of s.frames) j
  pub solvers :
      (j : ℕ) (v : Frame)
      → get_elem? s.frames j ≡ some v
      → (w : Frame) × (get_elem? after.frames j ≡ some w)
        × (w.solver ≡ (
            if is_new (sort_lits q) k s.frames
            then strengthened to_all k (excluding (sort_lits q)) j v.solver
            else v.solver))

module _ (c : Aiger) (first : first_ands_index c ≤ c.primed_first_dimacs) where
  -- For a frame after the first, in a state whose solvers and frames are right, and a cube of latch
  -- literals without a start, into which no good step leads from the frame before, outside of the
  -- cube: add_cube returns the sorted cube, keeps the solvers and the frames right and the cubes of
  -- the other frames, and excludes the cube from all frames up to that one. If the cube was not in
  -- the frame, then the solver of the frame, and with `to_all` those of the frames between the first
  -- one and it, get the clause that excludes the sorted cube; every other solver stays as it is.
  pub add_cube-Insertion :
      (s : Pdr) (m : ℕ) (f : Frame) (q : Cube) (to_all is_propagate : Bool)
      → IsPdr c s
      → IsChain c (cubes_of s.frames)
      → get_elem? s.frames (suc m) ≡ some f
      → IsCube c q
      → NoStart c q
      → Closed c (cubes_of s.frames) m q
      → Insertion c s (suc m) q to_all (add_cube q (suc m) to_all is_propagate s)
  unfolding add_cube
  add_cube-Insertion s m f q to_all prop h chain found cube none_start closed =
      let earliest =
        if prop then s.earliest_strengthened_frame else min s.earliest_strengthened_frame (suc m) in
      let sorted = sort_lits q in
      elim (Option-cases (insert_cube sorted f.cubes)) [
        | inl e ↦ record {
          after = record s { earliest_strengthened_frame = earliest };
          returns = rw (found, e, add_cube) refl;
          pdr = record { setup = h.setup; frame_ok = h.frame_ok; init_ok = h.init_ok };
          chain = chain;
          setup_same = refl;
          length_same = refl;
          excludes = λ x j w. (
            w,
            λ le.
                sym (sort_lits-cube_holds x q)
                ∙ insert_cube-none (λ d. cube_holds x d ≡ false) sorted f.cubes e
                    (AvoidsFrom-get x (cubes_of s.frames) j (suc m) f.cubes
                      (get_elem?-cubes_of s.frames (suc m) f found) le w),
          );
          others = λ j ne. refl;
          solvers = λ j v at_j.
              let old = (is_new-insert_cube sorted (suc m) s.frames f found).0 e in
              (v, at_j, rw old refl);
        }
        | inr (es, e) ↦ record {
          after = inserted c first s m f sorted to_all es earliest h found e;
          returns = rw (found, e, add_cube) (unfold below in refl);
          pdr =
              inserted-IsPdr c first s m f sorted to_all es earliest h found e
                (sort_lits-All _ q cube);
          chain =
              subst (IsChain c)
                (sym (cubes_of-inserted c first s m f sorted to_all es earliest h found e))
                (insert_cube-IsChain c (cubes_of s.frames) m sorted f.cubes es
                  (get_elem?-cubes_of s.frames (suc m) f found) e chain (sort_lits-All _ q cube)
                  (λ x st. sort_lits-cube_holds x q ∙ none_start x st)
                  (λ x y g w out.
                    sort_lits-cube_holds y q
                    ∙ closed x y g w (sym (sort_lits-cube_holds x q) ∙ out)));
          setup_same = refl;
          length_same =
              length-set (below c first s m f sorted to_all es earliest h found e) (suc m) _
              ∙ length-below c first s m f sorted to_all es earliest h found e;
          excludes = λ x j w.
              let (old, out) =
                inserted_excludes c first s m f sorted to_all es earliest h found e x j w in
              (old, λ le. sym (sort_lits-cube_holds x q) ∙ out le);
          others = λ j ne.
              ap (λ css. get_elem? css j)
                (cubes_of-inserted c first s m f sorted to_all es earliest h found e)
              ∙ get_elem?-set_other (cubes_of s.frames) (suc m) j es ne;
          solvers = λ j v at_j.
              let (w, at_w, same) =
                inserted-strengthened c first s m f sorted to_all es earliest h found e j v at_j in
              let put = (is_new-insert_cube sorted (suc m) s.frames f found).1 es e in
              (w, at_w, rw put same);
        }
      ]

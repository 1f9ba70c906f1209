-- ===== src/Pdr/Frames/Inserted.antt =====
-- The solvers and the cubes after a cube is inserted into a frame.
use modelchecker.Common.{
  ℕ, zero, suc, ◌≤◌, ◌<◌, ◌≡◌, refl, sym, ◌∙◌, ap, subst, Bool, false, not, some, List, [], ◌∷◌,
  if◌then◌else◌, length, All-append, Bool-cases, inl, inr, ◌⊎◌, arith, get_elem?, set,
}
use native.Mathlib.Decide.{ℕ_discrete}
use modelchecker.Circuit.{Assignment}
use modelchecker.Aiger.{Aiger, first_ands_index}
use modelchecker.Sat.{Clause}
use modelchecker.Sat.Cadical.{Cadical, add_clause}
use modelchecker.Sat.Cadical.Bounds.{add_clause-IsBelow}
use modelchecker.Pdr.Frames.{Cube, Frame, Setup, Pdr, excluding, insert_cube, add_below}
use modelchecker.Pdr.Frames.Prepared.{frames_of}
use modelchecker.Pdr.Frames.Invariant.{
  cube_holds, cubes_of, Avoids, AvoidsFrom, IsCube, IsFrameOk, IsPdr, excluding-holds, cube-low,
  get_elem?-set_other,
}
use modelchecker.Pdr.Frames.Added.{
  get_elem?-cubes_of, cubes_of-set_all, cubes_of-add_below, get_elem?-add_below,
}
use modelchecker.Pdr.Frames.Chain.{now_avoids, now_InFrame}

pub AvoidsFrom-get :
    (x : Assignment) (css : List (List Cube)) (j k : ℕ) (ds : List Cube)
    → get_elem? css k ≡ some ds
    → j ≤ k
    → AvoidsFrom x j css
    → Avoids x ds
AvoidsFrom-get x [] j k ds h le w = absurd (cc)
AvoidsFrom-get x (cs ∷ css) zero zero ds h le (w, ws) = let e : cs ≡ ds = cc in subst (Avoids x) e w
AvoidsFrom-get x (cs ∷ css) zero (suc k) ds h le (w, ws) =
    AvoidsFrom-get x css zero k ds h (omega arith) ws
AvoidsFrom-get x (cs ∷ css) (suc j) zero ds h le w = absurd (omega (arith, le))
AvoidsFrom-get x (cs ∷ css) (suc j) (suc k) ds h le w =
    AvoidsFrom-get x css j k ds h (omega (arith, le)) w

pub get_elem?-set_found :
    (fs : List Frame) (k : ℕ) (v w : Frame) → get_elem? (set fs k v) k ≡ some w → v ≡ w
get_elem?-set_found [] k v w e = absurd (cc)
get_elem?-set_found (x ∷ xs) zero v w e = cc
get_elem?-set_found (x ∷ xs) (suc k) v w e = get_elem?-set_found xs k v w e

pub length-set : {A : Type 0} (xs : List A) (k : ℕ) (a : A) → length (set xs k a) ≡ length xs
length-set [] k a = refl
length-set (x ∷ xs) zero a = refl
length-set (x ∷ xs) (suc k) a = ap suc (length-set xs k a)

pub length-add_below :
    (k : ℕ) (d : Clause) (i : ℕ) (fs : List Frame) → length (add_below k d i fs) ≡ length fs
unfolding add_below
length-add_below k d i [] = refl
length-add_below k d i (f ∷ fs) = ap suc (length-add_below k d (suc i) fs)

module _ (c : Aiger) (first : first_ands_index c ≤ c.primed_first_dimacs) (u : Setup)
    (css : List (List Cube)) (m : ℕ) (q : Cube) (ds es : List Cube)
    (found : get_elem? css (suc m) ≡ some ds) (added : insert_cube q ds ≡ some es) where
  keep-IsFrameOk :
      (j : ℕ) (solver : Cadical)
      → IsFrameOk c u css j solver
      → IsFrameOk c u (set css (suc m) es) j solver
  keep-IsFrameOk j solver ok = record {
    below = ok.below;
    room = ok.room;
    implied = λ x y g w. ok.implied x y g (now_InFrame c css m q ds es found added x j w);
  }

  -- The clause of the cube holds in the frames up to `suc m`.
  add-IsFrameOk :
      (j : ℕ) (solver : Cadical)
      → IsCube c q
      → 1 ≤ j
      → j ≤ suc m
      → IsFrameOk c u css j solver
      → IsFrameOk c u (set css (suc m) es) j (add_clause (excluding q) solver)
  unfolding add_clause
  add-IsFrameOk zero solver cube lo hi ok = absurd (omega (arith, lo))
  add-IsFrameOk (suc j) solver cube lo hi ok = record {
    below = unfold add_clause in add_clause-IsBelow (excluding q) solver ok.below;
    room = omega (arith, ok.room);
    implied = λ x y g w.
        let (old, out) = now_avoids c css m q ds es found added x (suc j) w in
        let σ = frames_of c u x y in
        All-append _ solver.clauses (excluding q ∷ []) (ok.implied x y g old)
          (excluding-holds σ x q (cube-low c u first x y q cube) ∙ ap not (out hi), tt);
  }

module _ (c : Aiger) (first : first_ands_index c ≤ c.primed_first_dimacs) (s : Pdr) (m : ℕ)
    (f : Frame) (q : Cube) (to_all : Bool) (es : List Cube) (earliest : ℕ) (h : IsPdr c s)
    (found : get_elem? s.frames (suc m) ≡ some f) (added : insert_cube q f.cubes ≡ some es) where
  unfoldable pub below : List Frame
  below = if to_all then add_below (suc m) (excluding q) 0 s.frames else s.frames

  abbrev pub new : Frame
  new = record { cubes = es; solver = add_clause (excluding q) f.solver }

  abbrev pub inserted : Pdr
  inserted = record s { earliest_strengthened_frame = earliest; frames = set below (suc m) new }

  cubes_of-below : cubes_of below ≡ cubes_of s.frames
  unfolding below
  cubes_of-below = elim (Bool-cases to_all) [
    | inl t ↦ rw t (cubes_of-add_below (suc m) (excluding q) 0 s.frames)
    | inr t ↦ rw t refl
  ]

  pub cubes_of-inserted : cubes_of inserted.frames ≡ set (cubes_of s.frames) (suc m) es
  unfolding below
  cubes_of-inserted =
      cubes_of-set_all below (suc m) new ∙ ap (λ css. set css (suc m) es) cubes_of-below

  pub length-below : length below ≡ length s.frames
  unfolding below
  length-below = elim (Bool-cases to_all) [
    | inl t ↦ rw t (length-add_below (suc m) (excluding q) 0 s.frames)
    | inr t ↦ rw t refl
  ]

  get_elem?-below :
      (j : ℕ) (w : Frame)
      → get_elem? below j ≡ some w
      → (v : Frame) × (get_elem? s.frames j ≡ some v)
        × ((w.solver ≡ v.solver)
            ⊎ ((w.solver ≡ add_clause (excluding q) v.solver) × (1 ≤ j) × (j < suc m)))
  unfolding below
  get_elem?-below j w e = elim (Bool-cases to_all) [
    | inr t ↦ let e' = rw t at e in (w, e', inl refl)
    | inl t ↦
        let (v, at_j, r) = get_elem?-add_below (suc m) (excluding q) 0 s.frames j w (rw t at e) in
        (
          v,
          at_j,
          elim r [
            | inl same ↦ inl same
            | inr (same, lo, hi) ↦ inr (same, omega (arith, lo), omega (arith, hi))
          ],
        )
  ]

  cubes_found : get_elem? (cubes_of s.frames) (suc m) ≡ some f.cubes
  cubes_found = get_elem?-cubes_of s.frames (suc m) f found

  pub inserted-IsPdr : IsCube c q → IsPdr c inserted
  inserted-IsPdr cube = record {
    setup = h.setup;
    frame_ok = λ j w e.
        subst (λ css. IsFrameOk c s.setup css j w.solver) (sym cubes_of-inserted) (at_frame j w e);
    init_ok = h.init_ok;
  }
    where
      css : List (List Cube)
      css = cubes_of s.frames

      keep :
          (j : ℕ) (v : Frame)
          → get_elem? s.frames j ≡ some v
          → IsFrameOk c s.setup (set (cubes_of s.frames) (suc m) es) j v.solver
      keep j v at_j =
          keep-IsFrameOk c first s.setup (cubes_of s.frames) m q f.cubes es cubes_found added j
            v.solver (h.frame_ok j v at_j)

      add :
          (j : ℕ) (v : Frame)
          → get_elem? s.frames j ≡ some v
          → 1 ≤ j
          → j ≤ suc m
          → IsFrameOk c s.setup
              (set (cubes_of s.frames) (suc m) es)
              j
              (add_clause (excluding q) v.solver)
      add j v at_j lo hi =
          add-IsFrameOk c first s.setup (cubes_of s.frames) m q f.cubes es cubes_found added j
            v.solver cube lo hi (h.frame_ok j v at_j)

      at_frame :
          (j : ℕ) (w : Frame)
          → get_elem? (set below (suc m) new) j ≡ some w
          → IsFrameOk c s.setup (set (cubes_of s.frames) (suc m) es) j w.solver
      at_frame j w e = elim (ℕ_discrete (suc m) j) [
        | yes same ↦
            let e' : get_elem? (set below (suc m) new) (suc m) ≡ some w =
              subst (λ (i : ℕ). get_elem? (set below (suc m) new) i ≡ some w) (sym same) e in
            let is_new = get_elem?-set_found below (suc m) new w e' in
            let ok = add (suc m) f found (omega arith) (omega arith) in
            subst (λ (i : ℕ). IsFrameOk c s.setup (set (cubes_of s.frames) (suc m) es) i w.solver)
              same
              (subst
                (λ (v : Frame).
                  IsFrameOk c s.setup (set (cubes_of s.frames) (suc m) es) (suc m) v.solver)
                is_new ok)
        | no other ↦
            let (v, at_j, r) =
              get_elem?-below j w (sym (get_elem?-set_other below (suc m) j new other) ∙ e) in
            elim r [
              | inl same ↦ rw same (keep j v at_j)
              | inr (same, lo, hi) ↦ rw same (add j v at_j lo (omega (arith, hi)))
            ]
      ]

  pub inserted_excludes :
      (x : Assignment) (j : ℕ)
      → AvoidsFrom x j (cubes_of inserted.frames)
      → AvoidsFrom x j (cubes_of s.frames) × (j ≤ suc m → cube_holds x q ≡ false)
  inserted_excludes x j w =
      now_avoids c (cubes_of s.frames) m q f.cubes es cubes_found added x j
        (subst (AvoidsFrom x j) cubes_of-inserted w)

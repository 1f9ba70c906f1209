-- ===== src/Pdr/Propagate/Erased.antt =====
-- Erasing a cube keeps the invariants, where the later frames exclude all its states.
use modelchecker.Common.{
  ℕ, zero, suc, ◌≤◌, ◌≡◌, refl, sym, ◌∙◌, ap, subst, false, ◌||◌, some, List, [], ◌∷◌, length, All,
  Bool-cases, inl, inr, arith, get_elem?, set,
}
use native.Mathlib.Decide.{ℕ_discrete}
use modelchecker.Circuit.{Assignment}
use modelchecker.Aiger.{Aiger}
use modelchecker.Sat.Cadical.{Cadical}
use modelchecker.Pdr.Orders.{cube_cmp, cube_cmp-IsStrictTotal}
use modelchecker.Pdr.Frames.{Cube, Frame, Pdr}
use modelchecker.Pdr.Frames.Invariant.{
  cube_holds, cubes_of, Avoids, AvoidsFrom, InFrame, IsCube, IsFrameOk, IsPdr, get_elem?-set_other,
}
use modelchecker.Pdr.Frames.Added.{set-AvoidsFrom, get_elem?-cubes_of, cubes_of-set_all}
use modelchecker.Pdr.Frames.Chain.{IsChain, All-get, All-set, AvoidsFrom-later}
use modelchecker.Pdr.Frames.Inserted.{length-set, get_elem?-set_found}
use modelchecker.Pdr.Propagate.{erase_cube, erase_from}

-- What the step from `s` to `t` keeps: the invariants, the number of frames, and all exclusions.
pub record Kept (c : Aiger) (s t : Pdr) : Type 0 where
  pub pdr : IsPdr c t
  pub chain : IsChain c (cubes_of t.frames)
  pub setup_same : t.setup ≡ s.setup
  pub length_same : length t.frames ≡ length s.frames
  pub stronger :
      (x : Assignment) (j : ℕ)
      → AvoidsFrom x j (cubes_of t.frames)
      → AvoidsFrom x j (cubes_of s.frames)

pub Kept-refl : (c : Aiger) (s : Pdr) → IsPdr c s → IsChain c (cubes_of s.frames) → Kept c s s
Kept-refl c s h chain = record {
  pdr = h;
  chain = chain;
  setup_same = refl;
  length_same = refl;
  stronger = λ x j w. w;
}

pub Kept-trans : (c : Aiger) (s t u : Pdr) → Kept c s t → Kept c t u → Kept c s u
Kept-trans c s t u g h = record {
  pdr = h.pdr;
  chain = h.chain;
  setup_same = h.setup_same ∙ g.setup_same;
  length_same = h.length_same ∙ g.length_same;
  stronger = λ x j w. g.stronger x j (h.stronger x j w);
}

erase_cube-All :
    (P : Cube → Type 0) (q : Cube) (ds : List Cube) → All P ds → All P (erase_cube q ds)
unfolding erase_cube
erase_cube-All P q [] h = tt
erase_cube-All P q (d ∷ ds) (h, hs) = elim (Bool-cases (cube_cmp q d || cube_cmp d q)) [
  | inl t ↦ rw t (h, erase_cube-All P q ds hs)
  | inr t ↦ rw t hs
]

All-erase_cube :
    (P : Cube → Type 0) (q : Cube) (ds : List Cube) → P q → All P (erase_cube q ds) → All P ds
unfolding erase_cube
All-erase_cube P q [] p h = tt
All-erase_cube P q (d ∷ ds) p h = elim (Bool-cases (cube_cmp q d || cube_cmp d q)) [
  | inl t ↦ let (w, ws) = rw t at h in (w, All-erase_cube P q ds p ws)
  | inr t ↦ elim (cube_cmp-IsStrictTotal.total q d) [
    | inl e ↦ (subst P e p, rw t at h)
    | inr (inl lt) ↦ absurd (ground (arith, lt, t))
    | inr (inr gt) ↦ absurd (ground (arith, gt, t))
  ]
]

-- A frame whose cubes are fewer excludes what it did, where the others do.
AvoidsFrom-fewer :
    (x : Assignment) (css : List (List Cube)) (i j : ℕ) (ds es : List Cube)
    → get_elem? css i ≡ some ds
    → (j ≤ i → Avoids x es → Avoids x ds)
    → AvoidsFrom x j (set css i es)
    → AvoidsFrom x j css
AvoidsFrom-fewer x [] i j ds es h back w = absurd (cc)
AvoidsFrom-fewer x (cs ∷ css) zero zero ds es h back (w, ws) =
    let e : ds ≡ cs = cc in (subst (Avoids x) e (back (omega arith) w), ws)
AvoidsFrom-fewer x (cs ∷ css) zero (suc j) ds es h back w = w
AvoidsFrom-fewer x (cs ∷ css) (suc i) zero ds es h back (w, ws) =
    (w, AvoidsFrom-fewer x css i zero ds es h (λ le. back (omega arith)) ws)
AvoidsFrom-fewer x (cs ∷ css) (suc i) (suc j) ds es h back w =
    AvoidsFrom-fewer x css i j ds es h (λ le. back (omega (arith, le))) w

-- One frame gets other cubes, whose exclusions the frames keep.
Kept-set :
    (c : Aiger) (s : Pdr) (i : ℕ) (f : Frame) (es : List Cube)
    → IsPdr c s
    → IsChain c (cubes_of s.frames)
    → get_elem? s.frames i ≡ some f
    → ((P : Cube → Type 0) → All P f.cubes → All P es)
    → ((x : Assignment) (j : ℕ)
        → AvoidsFrom x j (set (cubes_of s.frames) i es)
        → AvoidsFrom x j (cubes_of s.frames))
    → Kept c s (record s { frames = set s.frames i (record f { cubes = es }) })
Kept-set c s i f es h chain found fewer stronger = record {
  pdr = record {
    setup = h.setup;
    frame_ok =
        λ j w e. subst (λ css. IsFrameOk c s.setup css j w.solver) (sym same) (at_frame j w e);
    init_ok = h.init_ok;
  };
  chain = subst (IsChain c) (sym same) (record {
    starts = λ x st. weaker x 0 (chain.starts x st);
    steps = λ k x y g w. weaker y (suc k) (chain.steps k x y g (stronger_in x k w));
    latches =
        All-set (λ cs. All (IsCube c) cs) (cubes_of s.frames) i es chain.latches
          (fewer (IsCube c)
            (All-get (λ cs. All (IsCube c) cs) (cubes_of s.frames) i f.cubes at_i chain.latches));
  });
  setup_same = refl;
  length_same = length-set s.frames i _;
  stronger = λ x j w. stronger x j (subst (AvoidsFrom x j) same w);
}
  where
    at_i : get_elem? (cubes_of s.frames) i ≡ some f.cubes
    at_i = get_elem?-cubes_of s.frames i f found

    same : cubes_of (set s.frames i (record f { cubes = es })) ≡ set (cubes_of s.frames) i es
    same = cubes_of-set_all s.frames i (record f { cubes = es })

    weaker :
        (x : Assignment) (j : ℕ)
        → AvoidsFrom x j (cubes_of s.frames)
        → AvoidsFrom x j (set (cubes_of s.frames) i es)
    weaker x j w =
        set-AvoidsFrom x (Unit {0}) (cubes_of s.frames) i j f.cubes es at_i (λ _ v. fewer _ v) w
          (λ _. tt)

    stronger_in :
        (x : Assignment) (k : ℕ)
        → InFrame c x k (set (cubes_of s.frames) i es)
        → InFrame c x k (cubes_of s.frames)
    stronger_in x zero w = w
    stronger_in x (suc k) w = stronger x (suc k) w

    weaken :
        (j : ℕ) (solver : Cadical)
        → IsFrameOk c s.setup (cubes_of s.frames) j solver
        → IsFrameOk c s.setup (set (cubes_of s.frames) i es) j solver
    weaken j solver ok = record {
      below = ok.below;
      room = ok.room;
      implied = λ x y g w. ok.implied x y g (stronger_in x j w);
    }

    at_frame :
        (j : ℕ) (w : Frame)
        → get_elem? (set s.frames i (record f { cubes = es })) j ≡ some w
        → IsFrameOk c s.setup (set (cubes_of s.frames) i es) j w.solver
    at_frame j w e = elim (ℕ_discrete i j) [
      | yes eq ↦
          let e' : get_elem? (set s.frames i (record f { cubes = es })) i ≡ some w =
            subst (λ (k : ℕ). get_elem? (set s.frames i (record f { cubes = es })) k ≡ some w)
              (sym eq) e in
          let is_new = ap (λ (g : Frame). g.solver) (get_elem?-set_found s.frames i _ w e') in
          subst (λ (k : ℕ). IsFrameOk c s.setup (set (cubes_of s.frames) i es) k w.solver) eq
            (subst (IsFrameOk c s.setup (set (cubes_of s.frames) i es) i) is_new
              (weaken i f.solver (h.frame_ok i f found)))
      | no ne ↦ weaken j w.solver (h.frame_ok j w (sym (get_elem?-set_other s.frames i j _ ne) ∙ e))
    ]

pub erase_from-Kept :
    (c : Aiger) (s : Pdr) (i : ℕ) (f : Frame) (q : Cube)
    → IsPdr c s
    → IsChain c (cubes_of s.frames)
    → get_elem? s.frames i ≡ some f
    → ((x : Assignment) → AvoidsFrom x (suc i) (cubes_of s.frames) → cube_holds x q ≡ false)
    → Kept c s (erase_from i q s)
unfolding erase_from
erase_from-Kept c s i f q h chain found covered =
    rw (found, erase_from)
      (Kept-set c s i f (erase_cube q f.cubes) h chain found (λ P. erase_cube-All P q f.cubes)
        stronger)
  where
    at_i : get_elem? (cubes_of s.frames) i ≡ some f.cubes
    at_i = get_elem?-cubes_of s.frames i f found

    out :
        (x : Assignment) (j : ℕ)
        → j ≤ i
        → AvoidsFrom x j (set (cubes_of s.frames) i (erase_cube q f.cubes))
        → cube_holds x q ≡ false
    out x j le w = covered x (
        AvoidsFrom-fewer x (cubes_of s.frames) i (suc i) f.cubes (erase_cube q f.cubes) at_i
          (λ bad. absurd (omega (arith, bad)))
          (AvoidsFrom-later x (set (cubes_of s.frames) i (erase_cube q f.cubes)) j (suc i)
            (omega (arith, le)) w))

    stronger :
        (x : Assignment) (j : ℕ)
        → AvoidsFrom x j (set (cubes_of s.frames) i (erase_cube q f.cubes))
        → AvoidsFrom x j (cubes_of s.frames)
    stronger x j w =
        AvoidsFrom-fewer x (cubes_of s.frames) i j f.cubes (erase_cube q f.cubes) at_i
          (λ le v. All-erase_cube (λ d. cube_holds x d ≡ false) q f.cubes (out x j le w) v) w

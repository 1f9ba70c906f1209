-- ===== src/Pdr/Propagate/Pushed.antt =====
-- propagate returns, keeps the invariants, and the frame that it names has no cube.
use modelchecker.Common.{
  ℕ, zero, suc, ◌+◌, ◌≤◌, ◌<◌, ◌≡◌, refl, sym, ◌∙◌, ap, subst, true, false, Option, none, some,
  List, [], ◌∷◌, ℤ, length, All, Bool-cases, inl, inr, arith, get_elem?, ltb,
}
use modelchecker.Circuit.{Assignment}
use modelchecker.Circuit.Run.{IsWellFormed}
use modelchecker.Aiger.{Aiger, first_ands_index}
use modelchecker.Sat.{Clause, Answer}
use modelchecker.Sat.Laws.{IsSolver}
use modelchecker.Pdr.Frames.{Cube, Frame, Pdr, sort_lits, add_cube, is_inductive}
use modelchecker.Pdr.Frames.Invariant.{
  cube_holds, cubes_of, Avoids, AvoidsFrom, InFrame, IsCube, IsPdr,
}
use modelchecker.Pdr.Frames.Initial.{IsStart}
use modelchecker.Pdr.Frames.Refuted.{IsOrder}
use modelchecker.Pdr.Frames.Inductive.{Inductive, is_inductive-Inductive}
use modelchecker.Pdr.Frames.Added.{get_elem?-cubes_of}
use modelchecker.Pdr.Frames.Chain.{IsChain, NoStart, All-get}
use modelchecker.Pdr.Frames.Insertion.{Insertion, add_cube-Insertion}
use modelchecker.Pdr.Propagate.{erase_from, push_cube, push_cubes, is_empty, propagate_frames}
use modelchecker.Pdr.Propagate.Erased.{Kept, Kept-refl, Kept-trans, erase_from-Kept}

pub lookup :
    {A : Type 0} (xs : List A) (k : ℕ) → k < length xs → (a : A) × (get_elem? xs k ≡ some a)
lookup [] k lt = absurd (omega (arith, lt))
lookup (x ∷ xs) zero lt = (x, refl)
lookup (x ∷ xs) (suc k) lt = lookup xs k (omega (arith, lt))

no_cubes : (qs : List Cube) → is_empty qs ≡ true → qs ≡ []
unfolding is_empty
no_cubes [] t = refl
no_cubes (q ∷ qs) t = absurd (cc)

-- The step of the inner loop.
record Round (c : Aiger) (s : Pdr) (r : Option Pdr) : Type 0 where
  after : Pdr
  returns : r ≡ some after
  kept : Kept c s after

module _ (solve : ℕ → List Clause → List ℤ → Answer) (order : ℕ → List ℤ → List ℤ) (c : Aiger)
    (law : IsSolver solve) (keeps : IsOrder order) (well : IsWellFormed c)
    (first : c.primed_first_dimacs ≡ first_ands_index c + length c.ands) where
  abbrev Asked : ℕ → Cube → Pdr → Type 0
  Asked i q s = Inductive c s i q true (is_inductive solve order c i q true true s)

  length_cubes : (fs : List Frame) → length (cubes_of fs) ≡ length fs
  length_cubes [] = refl
  length_cubes (f ∷ fs) = ap suc (length_cubes fs)

  Asked-Kept :
      (i : ℕ) (q : Cube) (s : Pdr)
      → IsChain c (cubes_of s.frames)
      → (r : Asked i q s) → Kept c s r.after
  Asked-Kept i q s chain r = record {
    pdr = r.pdr;
    chain = subst (IsChain c) (sym r.cubes_same) chain;
    setup_same = r.setup_same;
    length_same =
        sym (length_cubes r.after.frames) ∙ ap length r.cubes_same ∙ length_cubes s.frames;
    stronger = λ x j w. subst (AvoidsFrom x j) r.cubes_same w;
  }

  -- The core may be added to the next frame.
  core-NoStart :
      (i : ℕ) (q : Cube) (s : Pdr)
      → NoStart c q
      → (r : Asked i q s) → r.answer ≡ true
      → NoStart c r.after.core
  core-NoStart i q s none_start r t = elim (r.core_start t refl) [
    | inl same ↦ λ x st. ap (cube_holds x) same ∙ none_start x st
    | inr no_start ↦ no_start
  ]

  outside_core :
      (i : ℕ) (q : Cube) (s : Pdr) (r : Asked i q s) (x : Assignment)
      → r.answer ≡ true
      → cube_holds x r.after.core ≡ false
      → cube_holds x q ≡ false
  outside_core i q s r x t out = elim (Bool-cases (cube_holds x q)) [
    | inr off ↦ off
    | inl on ↦ let held = r.core_holds t refl x on in absurd (cc)
  ]

  abbrev Added : (i : ℕ) (q : Cube) (s : Pdr) → Asked i q s → Type 0
  Added i q s r =
      Insertion c r.after (suc i) r.after.core (ltb (length r.after.core) (length q))
        (add_cube r.after.core (suc i) (ltb (length r.after.core) (length q)) true r.after)

  core-Added :
      (i : ℕ) (q : Cube) (s : Pdr)
      → IsChain c (cubes_of s.frames)
      → suc i < length s.frames
      → NoStart c q
      → (r : Asked i q s) → r.answer ≡ true
      → Added i q s r
  core-Added i q s chain lt none_start r t =
      let kept = Asked-Kept i q s chain r in
      let (f, found) =
        lookup r.after.frames (suc i) (let e = kept.length_same in omega (arith, lt, e)) in
      add_cube-Insertion c (omega (arith, first)) r.after i f r.after.core
        (ltb (length r.after.core) (length q)) true r.pdr kept.chain found (r.core_cube t refl)
        (core-NoStart i q s none_start r t)
        (λ x y g w out.
          r.core_blocks t refl x y g (subst (InFrame c x i) r.cubes_same w)
            (outside_core i q s r x t out))

  Added-Kept :
      (i : ℕ) (q : Cube) (s : Pdr) (r : Asked i q s) (a : Added i q s r)
      → Kept c r.after (record a.after { core = sort_lits r.after.core })
  Added-Kept i q s r a = record {
    pdr = record { setup = a.pdr.setup; frame_ok = a.pdr.frame_ok; init_ok = a.pdr.init_ok };
    chain = a.chain;
    setup_same = a.setup_same;
    length_same = a.length_same;
    stronger = λ x j w. (a.excludes x j w).0;
  }

  push_cube-Round :
      (i : ℕ) (q : Cube) (s : Pdr)
      → IsPdr c s
      → IsChain c (cubes_of s.frames)
      → suc i < length s.frames
      → IsCube c q
      → NoStart c q
      → Round c s (push_cube solve order c i q s)
  unfolding push_cube
  push_cube-Round i q s h chain lt cube none_start =
      let (f, found) = lookup s.frames i (omega (arith, lt)) in
      let r =
        is_inductive-Inductive solve order c law keeps well first s i f q true true h found cube in
      let asked = Asked-Kept i q s chain r in
      elim (Bool-cases r.answer) [
        | inr t ↦ record {
          after = r.after;
          returns = rw (r.returns, t, push_cube) refl;
          kept = asked;
        }
        | inl t ↦
            let a = core-Added i q s chain lt none_start r t in
            let u : Pdr = record a.after { core = sort_lits r.after.core } in
            let both = Kept-trans c s r.after u asked (Added-Kept i q s r a) in
            let (g, at_i) = lookup u.frames i (let e = both.length_same in omega (arith, lt, e)) in
            let erased =
              erase_from-Kept c u i g q both.pdr both.chain at_i
                (λ x w. outside_core i q s r x t ((a.excludes x (suc i) w).1 (omega arith))) in
            record {
              after = erase_from i q u;
              returns = rw (r.returns, t, a.returns, push_cube) refl;
              kept = Kept-trans c s u (erase_from i q u) both erased;
            }
      ]

  push_cubes-Round :
      (i : ℕ) (qs : List Cube) (s : Pdr)
      → IsPdr c s
      → IsChain c (cubes_of s.frames)
      → suc i < length s.frames
      → All (IsCube c) qs
      → All (NoStart c) qs
      → Round c s (push_cubes solve order c i qs s)
  unfolding push_cubes
  push_cubes-Round i [] s h chain lt cubes none_start = record {
    after = s;
    returns = refl;
    kept = Kept-refl c s h chain;
  }
  push_cubes-Round i (q ∷ qs) s h chain lt (cube, cubes) (n, ns) =
      let r = push_cube-Round i q s h chain lt cube n in
      let k = r.kept in
      let e = k.length_same in
      let rest = push_cubes-Round i qs r.after k.pdr k.chain (omega (arith, lt, e)) cubes ns in
      record {
        after = rest.after;
        returns = rw (r.returns, push_cubes) rest.returns;
        kept = Kept-trans c s r.after rest.after k rest.kept;
      }

  -- The cubes of a frame have no start.
  cubes-NoStart :
      (s : Pdr) (i : ℕ) (f : Frame)
      → IsChain c (cubes_of s.frames)
      → get_elem? s.frames i ≡ some f
      → All (NoStart c) f.cubes
  cubes-NoStart s i f chain found = every f.cubes (λ x st.
      All-get (Avoids x) (cubes_of s.frames) i f.cubes (get_elem?-cubes_of s.frames i f found)
        (chain.starts x st))
    where
      every : (qs : List Cube) → ((x : Assignment) → IsStart c x → Avoids x qs) → All (NoStart c) qs
      every [] h = tt
      every (q ∷ qs) h = (λ x st. (h x st).0, every qs (λ x st. (h x st).1))

  -- The frame that is found lies between `i` and `i + n`, and has no cube.
  pub record Propagated (s : Pdr) (i n : ℕ) (r : Option (Option ℕ × Pdr)) : Type 0 where
    pub found : Option ℕ
    pub after : Pdr
    pub returns : r ≡ some (found, after)
    pub kept : Kept c s after
    pub empty :
        (k : ℕ)
        → found ≡ some k
        → (i ≤ k) × (k < i + n) × (get_elem? (cubes_of after.frames) k ≡ some [])

  -- For a solver that is right and a well-formed circuit whose primed variables start right after
  -- the others. In a state whose solvers and frames are right, where a frame follows the `n` frames
  -- from `i` on: propagating them returns and keeps the solvers and the frames right; a frame that
  -- it names is one of the `n`, and has no cube.
  pub propagate_frames-Propagated :
      (i n : ℕ) (s : Pdr)
      → IsPdr c s
      → IsChain c (cubes_of s.frames)
      → i + n < length s.frames
      → Propagated s i n (propagate_frames solve order c i n s)
  unfolding propagate_frames
  propagate_frames-Propagated i zero s h chain lt = record {
    found = none;
    after = s;
    returns = refl;
    kept = Kept-refl c s h chain;
    empty = λ k e. absurd (cc);
  }
  propagate_frames-Propagated i (suc n) s h chain lt =
      let (f, found) = lookup s.frames i (omega (arith, lt)) in
      let cubes =
        All-get (λ cs. All (IsCube c) cs) (cubes_of s.frames) i f.cubes
          (get_elem?-cubes_of s.frames i f found) chain.latches in
      let r =
        push_cubes-Round i f.cubes s h chain (omega (arith, lt)) cubes
          (cubes-NoStart s i f chain found) in
      let k = r.kept in
      let e = k.length_same in
      let (g, at_i) = lookup r.after.frames i (omega (arith, lt, e)) in
      elim (Bool-cases (is_empty g.cubes)) [
        | inl t ↦ record {
          found = some i;
          after = r.after;
          returns = rw (found, r.returns, at_i, t, propagate_frames) refl;
          kept = k;
          empty = λ j eq.
              let same : i ≡ j = cc in
              subst
                (λ (j : ℕ).
                  (i ≤ j) × (j < i + suc n) × (get_elem? (cubes_of r.after.frames) j ≡ some []))
                same
                (
                  omega arith,
                  omega arith,
                  get_elem?-cubes_of r.after.frames i g at_i ∙ ap some (no_cubes g.cubes t),
                );
        }
        | inr t ↦
            let rest =
              propagate_frames-Propagated (suc i) n r.after k.pdr k.chain (omega (arith, lt, e)) in
            record {
              found = rest.found;
              after = rest.after;
              returns = rw (found, r.returns, at_i, t, propagate_frames) rest.returns;
              kept = Kept-trans c s r.after rest.after k rest.kept;
              empty = λ j eq.
                  let (lo, hi, bare) = rest.empty j eq in
                  (omega (arith, lo), omega (arith, hi), bare);
            }
      ]

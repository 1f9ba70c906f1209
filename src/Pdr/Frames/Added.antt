-- ===== src/Pdr/Frames/Added.antt =====
-- Which states the frames exclude after a cube is inserted.
use modelchecker.Common.{
  ℕ, zero, suc, ◌+◌, ◌≤◌, ◌<◌, ◌≡◌, refl, sym, ◌∙◌, ap, ap₂, subst, false, ◌&&◌, none, some,
  Option-cases, List, [], ◌∷◌, ℤ, All, Bool-cases, inl, inr, ◌⊎◌, arith, get_elem?, set, ltb, leb,
}
use modelchecker.Circuit.{Assignment, holds}
use modelchecker.Sat.{Clause}
use modelchecker.Sat.Cadical.{add_clause}
use modelchecker.Pdr.Orders.{lit_cmp, cube_cmp, cube_cmp-IsStrictTotal}
use modelchecker.Pdr.Frames.{
  Cube, Frame, insert_lit, sort_lits, insert_cube, add_to_frame, add_below,
}
use modelchecker.Pdr.Frames.Invariant.{cube_holds, cubes_of, Avoids, AvoidsFrom}

-- Sorting keeps the literals of a cube.
insert_lit-All : (P : ℤ → Type 0) (l : ℤ) (q : Cube) → P l → All P q → All P (insert_lit l q)
unfolding insert_lit
insert_lit-All P l [] h hs = (h, tt)
insert_lit-All P l (k ∷ ks) h (k_ok, hs) = elim (Bool-cases (lit_cmp l k)) [
  | inl t ↦ rw t (h, (k_ok, hs))
  | inr t ↦ rw t (k_ok, insert_lit-All P l ks h hs)
]

pub sort_lits-All : (P : ℤ → Type 0) (q : Cube) → All P q → All P (sort_lits q)
unfolding sort_lits
sort_lits-All P [] h = tt
sort_lits-All P (l ∷ ls) (h, hs) = insert_lit-All P l (sort_lits ls) h (sort_lits-All P ls hs)

insert_lit-cube_holds :
    (x : Assignment) (l : ℤ) (q : Cube)
    → cube_holds x (insert_lit l q) ≡ (holds x l && cube_holds x q)
unfolding insert_lit cube_holds
insert_lit-cube_holds x l [] = refl
insert_lit-cube_holds x l (k ∷ ks) =
    let rest = insert_lit-cube_holds x l ks in
    elim (Bool-cases (lit_cmp l k)) [ inl t ↦ rw t refl | inr t ↦ rw t (ground (arith, rest)) ]

pub sort_lits-cube_holds : (x : Assignment) (q : Cube) → cube_holds x (sort_lits q) ≡ cube_holds x q
unfolding sort_lits cube_holds
sort_lits-cube_holds x [] = refl
sort_lits-cube_holds x (l ∷ ls) =
    insert_lit-cube_holds x l (sort_lits ls) ∙ ap (λ b. holds x l && b) (sort_lits-cube_holds x ls)

-- The insertion of a cube: what holds of all cubes afterwards, held before, and of the cube.
pub insert_cube-All :
    (P : Cube → Type 0) (q : Cube) (ds es : List Cube)
    → insert_cube q ds ≡ some es
    → (All P es → P q × All P ds) × (P q → All P ds → All P es)
unfolding insert_cube
insert_cube-All P q [] es h =
    let e : q ∷ [] ≡ es = cc in rw (← e) (λ (w, _). (w, tt), λ w _. (w, tt))
insert_cube-All P q (d ∷ ds) es h = elim (Bool-cases (cube_cmp q d)) [
  | inl t ↦ let e : q ∷ d ∷ ds ≡ es = let h' = rw t at h in cc in rw (← e) (λ w. w, λ w ws. (w, ws))
  | inr t ↦ elim (Bool-cases (cube_cmp d q)) [
    | inr u ↦ let h' = rw (t, u) at h in absurd (cc)
    | inl u ↦ elim (Option-cases (insert_cube q ds)) [
      | inl r ↦ let h' = rw (t, u, r) at h in absurd (cc)
      | inr (rest, r) ↦
          let (back, forth) = insert_cube-All P q ds rest r in
          let e : d ∷ rest ≡ es = let h' = rw (t, u, r) at h in cc in
          rw (← e) (λ (w, ws). let (a, b) = back ws in (a, (w, b)), λ w (v, ws). (v, forth w ws))
    ]
  ]
]

pub insert_cube-none :
    (P : Cube → Type 0) (q : Cube) (ds : List Cube) → insert_cube q ds ≡ none → All P ds → P q
unfolding insert_cube
insert_cube-none P q [] h w = absurd (cc)
insert_cube-none P q (d ∷ ds) h (w, ws) = elim (Bool-cases (cube_cmp q d)) [
  | inl t ↦ let h' = rw t at h in absurd (cc)
  | inr t ↦ elim (Bool-cases (cube_cmp d q)) [
    | inr u ↦ same t u
    | inl u ↦ elim (Option-cases (insert_cube q ds)) [
      | inl r ↦ insert_cube-none P q ds r ws
      | inr (rest, r) ↦ let h' = rw (t, u, r) at h in absurd (cc)
    ]
  ]
]
  where
    same : cube_cmp q d ≡ false → cube_cmp d q ≡ false → P q
    same t u = elim (cube_cmp-IsStrictTotal.total q d) [
      | inl e ↦ subst P (sym e) w
      | inr (inl lt) ↦ absurd (cc)
      | inr (inr gt) ↦ absurd (cc)
    ]

-- The cubes of frame `k` are replaced.
pub AvoidsFrom-set :
    (x : Assignment) (P : Type 0) (css : List (List Cube)) (k j : ℕ) (ds es : List Cube)
    → get_elem? css k ≡ some ds
    → (Avoids x es → P × Avoids x ds)
    → AvoidsFrom x j (set css k es)
    → AvoidsFrom x j css × (j ≤ k → P)
AvoidsFrom-set x P [] k j ds es h back w = absurd (cc)
AvoidsFrom-set x P (cs ∷ css) zero zero ds es h back (w, ws) =
    let (p, old) = back w in let e : ds ≡ cs = cc in ((subst (Avoids x) e old, ws), λ _. p)
AvoidsFrom-set x P (cs ∷ css) zero (suc j) ds es h back w = (w, λ le. absurd (omega (arith, le)))
AvoidsFrom-set x P (cs ∷ css) (suc k) zero ds es h back (w, ws) =
    let (old, p) = AvoidsFrom-set x P css k zero ds es h back ws in ((w, old), λ _. p (omega arith))
AvoidsFrom-set x P (cs ∷ css) (suc k) (suc j) ds es h back w =
    let (old, p) = AvoidsFrom-set x P css k j ds es h back w in (old, λ le. p (omega (arith, le)))

pub set-AvoidsFrom :
    (x : Assignment) (P : Type 0) (css : List (List Cube)) (k j : ℕ) (ds es : List Cube)
    → get_elem? css k ≡ some ds
    → (P → Avoids x ds → Avoids x es)
    → AvoidsFrom x j css
    → (j ≤ k → P)
    → AvoidsFrom x j (set css k es)
set-AvoidsFrom x P [] k j ds es h forth w p = absurd (cc)
set-AvoidsFrom x P (cs ∷ css) zero zero ds es h forth (w, ws) p =
    let e : cs ≡ ds = cc in (forth (p (omega arith)) (subst (Avoids x) e w), ws)
set-AvoidsFrom x P (cs ∷ css) zero (suc j) ds es h forth w p = w
set-AvoidsFrom x P (cs ∷ css) (suc k) zero ds es h forth (w, ws) p =
    (w, set-AvoidsFrom x P css k zero ds es h forth ws (λ _. p (omega arith)))
set-AvoidsFrom x P (cs ∷ css) (suc k) (suc j) ds es h forth w p =
    set-AvoidsFrom x P css k j ds es h forth w (λ le. p (omega (arith, le)))

-- The frame `k` of a list with its cubes.
pub get_elem?-cubes_of :
    (fs : List Frame) (k : ℕ) (f : Frame)
    → get_elem? fs k ≡ some f
    → get_elem? (cubes_of fs) k ≡ some f.cubes
get_elem?-cubes_of [] k f h = absurd (cc)
get_elem?-cubes_of (x ∷ xs) zero f h = let e : x ≡ f = cc in ap (λ (g : Frame). some g.cubes) e
get_elem?-cubes_of (x ∷ xs) (suc k) f h = get_elem?-cubes_of xs k f h

pub cubes_of-set_all :
    (fs : List Frame) (k : ℕ) (g : Frame) → cubes_of (set fs k g) ≡ set (cubes_of fs) k g.cubes
cubes_of-set_all [] k g = refl
cubes_of-set_all (x ∷ xs) zero g = refl
cubes_of-set_all (x ∷ xs) (suc k) g = ap (λ css. x.cubes ∷ css) (cubes_of-set_all xs k g)

pub cubes_of-add_below :
    (k : ℕ) (d : Clause) (i : ℕ) (fs : List Frame) → cubes_of (add_below k d i fs) ≡ cubes_of fs
unfolding add_below
cubes_of-add_below k d i [] = refl
cubes_of-add_below k d i (f ∷ fs) =
    ap₂ (λ cs css. cs ∷ css)
      (elim (Bool-cases (leb 1 i && ltb i k)) [ inl t ↦ rw t refl | inr t ↦ rw t refl ])
      (cubes_of-add_below k d (suc i) fs)

-- A frame of the list afterwards has its old solver, or one more clause below frame `k`.
pub get_elem?-add_below :
    (k : ℕ) (d : Clause) (i : ℕ) (fs : List Frame) (j : ℕ) (w : Frame)
    → get_elem? (add_below k d i fs) j ≡ some w
    → (v : Frame) × (get_elem? fs j ≡ some v)
      × ((w.solver ≡ v.solver) ⊎ ((w.solver ≡ add_clause d v.solver) × (1 ≤ j + i) × (j + i < k)))
unfolding add_below
get_elem?-add_below k d i [] j w h = absurd (cc)
get_elem?-add_below k d i (f ∷ fs) zero w h = elim (Bool-cases (leb 1 i && ltb i k)) [
  | inl t ↦
      let e : add_to_frame d f ≡ w = let h' = rw t at h in cc in
      (f, refl, inr (sym (ap (λ (g : Frame). g.solver) e), ground (arith, t), ground (arith, t)))
  | inr t ↦
      let e : f ≡ w = let h' = rw t at h in cc in
      (f, refl, inl (sym (ap (λ (g : Frame). g.solver) e)))
]
get_elem?-add_below k d i (f ∷ fs) (suc j) w h =
    let (v, found, r) = get_elem?-add_below k d (suc i) fs j w h in
    (
      v,
      found,
      elim r [ inl e ↦ inl e | inr (e, lo, hi) ↦ inr (e, omega (arith, lo), omega (arith, hi)) ],
    )

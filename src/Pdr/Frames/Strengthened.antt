-- ===== src/Pdr/Frames/Strengthened.antt =====
-- Which solvers get the clause of a cube that add_cube inserts.
use modelchecker.Common.{
  ℕ, zero, suc, ◌+◌, ◌≤◌, ◌≡◌, ◌≢◌, refl, sym, ◌∙◌, subst, Bool, true, false, ◌&&◌, ◌||◌, none,
  some, List, [], ◌∷◌, if◌then◌else◌, Bool-cases, inl, inr, arith, get_elem?, set, leb, ltb, ◌==◌,
  ==→eq,
}
use modelchecker.Aiger.{Aiger, first_ands_index}
use modelchecker.Sat.{Clause}
use modelchecker.Sat.Cadical.{Cadical, add_clause}
use modelchecker.Pdr.Frames.{Cube, Frame, Pdr, excluding, insert_cube, add_to_frame, add_below}
use modelchecker.Pdr.Frames.Invariant.{IsPdr, get_elem?-set_other}
use modelchecker.Pdr.Frames.Inserted.{below, new, inserted}

-- Frame `k`, and with `to_all` the frames between the first one and it.
abbrev pub is_strengthened : Bool → ℕ → ℕ → Bool
is_strengthened to_all k j = j == k || (to_all && (leb 1 j && ltb j k))

-- Frame `k` is there, and the sorted cube is not in it.
pub is_new : Cube → ℕ → List Frame → Bool
is_new q k fs = elim (get_elem? fs k) [
  | none ↦ false
  | some f ↦ elim (insert_cube q f.cubes) [ none ↦ false | some es ↦ true ]
]

pub is_new-insert_cube :
    (q : Cube) (k : ℕ) (fs : List Frame) (f : Frame)
    → get_elem? fs k ≡ some f
    → (insert_cube q f.cubes ≡ none → is_new q k fs ≡ false)
      × ((es : List Cube) → insert_cube q f.cubes ≡ some es → is_new q k fs ≡ true)
unfolding is_new
is_new-insert_cube q k fs f found =
    (λ e. rw (found, e, is_new) refl, λ es e. rw (found, e, is_new) refl)

-- The solver of frame `j` after the clause is added.
abbrev pub strengthened : Bool → ℕ → Clause → ℕ → Cadical → Cadical
strengthened to_all k d j solver =
    if is_strengthened to_all k j then add_clause d solver else solver

add_below-get :
    (k : ℕ) (d : Clause) (i : ℕ) (fs : List Frame) (j : ℕ) (v : Frame)
    → get_elem? fs j ≡ some v
    → get_elem? (add_below k d i fs) j
      ≡ some (if leb 1 (j + i) && ltb (j + i) k then add_to_frame d v else v)
unfolding add_below
add_below-get k d i [] j v h = absurd (cc)
add_below-get k d i (f ∷ fs) zero v h =
    let same : f ≡ v = cc in let e : 0 + i ≡ i = omega arith in rw (e, same) refl
add_below-get k d i (f ∷ fs) (suc j) v h =
    let e : j + suc i ≡ suc j + i = omega arith in
    subst
      (λ (n : ℕ).
        get_elem? (add_below k d (suc i) fs) j
        ≡ some (if leb 1 n && ltb n k then add_to_frame d v else v))
      e (add_below-get k d (suc i) fs j v h)

set-get :
    (fs : List Frame) (k : ℕ) (v w : Frame)
    → get_elem? fs k ≡ some v
    → get_elem? (set fs k w) k ≡ some w
set-get [] k v w h = absurd (cc)
set-get (f ∷ fs) zero v w h = refl
set-get (f ∷ fs) (suc k) v w h = set-get fs k v w h

module _ (c : Aiger) (first : first_ands_index c ≤ c.primed_first_dimacs) (s : Pdr) (m : ℕ)
    (f : Frame) (q : Cube) (to_all : Bool) (es : List Cube) (earliest : ℕ) (h : IsPdr c s)
    (found : get_elem? s.frames (suc m) ≡ some f) (added : insert_cube q f.cubes ≡ some es) where
  abbrev frames_below : List Frame
  frames_below = below c first s m f q to_all es earliest h found added

  below-get :
      (j : ℕ) (v : Frame)
      → get_elem? s.frames j ≡ some v
      → (w : Frame) × (get_elem? frames_below j ≡ some w)
        × (w.solver ≡ (
            if to_all && (leb 1 j && ltb j (suc m))
            then add_clause (excluding q) v.solver
            else v.solver))
  unfolding below
  below-get j v at_j = elim (Bool-cases to_all) [
    | inr t ↦ (v, rw t at_j, rw t refl)
    | inl t ↦
        let e : j + 0 ≡ j = omega arith in
        let got = add_below-get (suc m) (excluding q) 0 s.frames j v at_j in
        let r = rw e at got in
        elim (Bool-cases (leb 1 j && ltb j (suc m))) [
          | inl u ↦ let r' = rw u at r in (add_to_frame (excluding q) v, rw t r', rw (t, u) refl)
          | inr u ↦ let r' = rw u at r in (v, rw t r', rw (t, u) refl)
        ]
  ]

  -- The clause goes into these solvers, and into no other.
  pub inserted-strengthened :
      (j : ℕ) (v : Frame)
      → get_elem? s.frames j ≡ some v
      → (w : Frame) × (get_elem?
            (inserted c first s m f q to_all es earliest h found added).frames
            j
          ≡ some w)
        × (w.solver ≡ strengthened to_all (suc m) (excluding q) j v.solver)
  inserted-strengthened j v at_j =
      let (u, at_u, e) = below-get j v at_j in
      elim (Bool-cases (j == suc m)) [
        | inl t ↦
            let same : j ≡ suc m = ==→eq j (suc m) t in
            let at_k = rw same at at_u in
            let whose : some v ≡ some f = sym at_j ∙ (rw same found) in
            let is_f : v ≡ f = cc in
            (
              new c first s m f q to_all es earliest h found added,
              rw same (set-get frames_below (suc m) u _ at_k),
              rw (t, is_f) refl,
            )
        | inr t ↦
            let other : suc m ≢ j = ground (arith, t) in
            (u, get_elem?-set_other frames_below (suc m) j _ other ∙ at_u, rw t e)
      ]

-- ===== src/Pdr/Propagate.antt =====
-- PDR::propagate of PDR.cpp up to the empty frame, and the query of PDR::get_pre_of_bad.
pub mod Erased
pub mod Pushed
pub mod Runs
pub mod Safe
use modelchecker.Common.{
  ℕ, zero, suc, ◌+◌, ◌-◌, ◌%◌, Bool, true, false, ◌&&◌, ◌||◌, not, Option, none, some, List, [],
  ◌∷◌, ℤ, if◌then◌else◌, length, get_elem?, set, ltb, leb, ◌==◌,
}
use modelchecker.Aiger.{Aiger}
use modelchecker.Sat.{Clause, Answer, sat, unsat, terminated}
use modelchecker.Sat.Cadical.{Cadical}
use modelchecker.Pdr.Orders.{cube_cmp}
use modelchecker.Pdr.Frames.{Cube, Frame, Pdr, M, add_cube, is_inductive, depth}

-- set<Cube, Cube_CMP>::erase
unfoldable pub erase_cube : Cube → List Cube → List Cube
erase_cube q [] = []
erase_cube q (d ∷ ds) =
    let rest = erase_cube q ds in if cube_cmp q d || cube_cmp d q then d ∷ rest else ds

unfoldable pub erase_from : ℕ → Cube → Pdr → Pdr
erase_from i q s = elim (get_elem? s.frames i) [
  | none ↦ s
  | some f ↦ record s { frames = set s.frames i (record f { cubes = erase_cube q f.cubes }) }
]

-- Frame 1, or a later one: a depth over 20 that 5 does not divide starts at the earliest frame that
-- was strengthened.
unfoldable pub start_frame : Pdr → ℕ
start_frame s =
    if s.top_frame_cannot_reach_bad
    then depth s
    else if not (depth s % 5 == 0) && ltb 20 (depth s)
    then s.earliest_strengthened_frame
    else 1

unfoldable pub is_empty : List Cube → Bool
is_empty [] = true
is_empty (q ∷ qs) = false

module _ (solve : ℕ → List Clause → List ℤ → Answer) (order : ℕ → List ℤ → List ℤ) (c : Aiger) where
  -- One round of the inner loop. add_cube sorts the core in place.
  unfoldable pub push_cube : ℕ → Cube → Pdr → Option Pdr
  push_cube i q s = elim (is_inductive solve order c i q true true s) [
    | none ↦ none
    | some (inductive, t) ↦
        if inductive
        then elim (add_cube t.core (suc i) (ltb (length t.core) (length q)) true t) [
          | none ↦ none
          | some (sorted, u) ↦ some (erase_from i q (record u { core = sorted }))
        ]
        else some t
  ]

  unfoldable pub push_cubes : ℕ → List Cube → Pdr → Option Pdr
  push_cubes i [] s = some s
  push_cubes i (q ∷ qs) s = elim (push_cube i q s) [ none ↦ none | some t ↦ push_cubes i qs t ]

  -- `n` frames are left. The index of the frame that became empty, if one did.
  unfoldable pub propagate_frames : ℕ → ℕ → M (Option ℕ)
  propagate_frames i zero s = some (none, s)
  propagate_frames i (suc n) s = elim (get_elem? s.frames i) [
    | none ↦ none
    | some f ↦ elim (push_cubes i f.cubes s) [
      | none ↦ none
      | some t ↦ elim (get_elem? t.frames i) [
        | none ↦ none
        | some g ↦ if is_empty g.cubes then some (some i, t) else propagate_frames (suc i) n t
      ]
    ]
  ]

  unfoldable pub propagate : M (Option ℕ)
  propagate s = let start = start_frame s in propagate_frames start (suc (depth s) - start) s

  -- Whether the last frame but one has a step to the bad literal; the state before it is left out.
  unfoldable pub can_reach_bad : M Bool
  can_reach_bad s = elim (get_elem? s.frames (depth s)) [
    | none ↦ none
    | some f ↦
        let next = record s { queries = suc s.queries } in
        elim (solve s.queries f.solver.clauses (s.setup.primed.bad_prime ∷ [])) [
          | sat val ↦
              let g : Frame = record f { solver = record f.solver { model = val } } in
              some (true, record next { frames = set s.frames (depth s) g })
          | unsat failed ↦ some (false, next)
          | terminated ↦ some (false, next)
        ]
  ]

  -- The round of the main loop of check in which no state before a bad one is found: true for the
  -- result 20.
  unfoldable pub find_invariant : M Bool
  find_invariant s = elim (can_reach_bad s) [
    | none ↦ none
    | some (reaches, t) ↦ if reaches then some (false, t) else elim (propagate t) [
      | none ↦ none
      | some (found, u) ↦ elim found [ none ↦ some (false, u) | some k ↦ some (true, u) ]
    ]
  ]

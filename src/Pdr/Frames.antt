-- ===== src/Pdr/Frames.antt =====
-- The frames of PDR: PDR::encode_translation with its simplifier, new_frame, add_cube, is_init and
-- is_inductive of PDR.cpp, and the class Frame of PDR.hpp.
pub mod Prepare
pub mod Prepared
pub mod Invariant
pub mod Initial
pub mod Refuted
pub mod Inductive
pub mod Added
pub mod Chain
pub mod Inserted
pub mod Strengthened
pub mod Insertion
pub mod Start
pub mod Deeper
use modelchecker.Common.{
  ℕ, zero, suc, ◌+◌, ◌-◌, Bool, true, false, ◌&&◌, ◌||◌, not, Option, none, some, ◌>>=◌, List, [],
  ◌∷◌, ◌++◌, map, ◌==◌, ℤ, pos, negsuc, neg, abs, if◌then◌else◌, length, get_elem?, set, ltb, leb,
  ◌==ℤ◌,
}
use Prim.Native.Nat.{max, min}
use mathlib.Core.List.{reverse}
use modelchecker.Aiger.{Aiger}
use modelchecker.Sat.{Clause, Answer, sat, unsat, terminated}
use modelchecker.Sat.Laws.{units}
use modelchecker.Sat.Cadical.{
  Cadical, new_cadical, add_clause, add_clauses, max_var, MinisatSimp, new_simp, var_enlarge_to,
  set_all_frozen, add_all_to_simp, simplify,
}
use modelchecker.Pdr.Orders.{lit_cmp, cube_cmp}
use modelchecker.Pdr.Primes.{Primes, prime_lit}
use modelchecker.Pdr.Init.{init_clauses}
use modelchecker.Pdr.Translation.{leaves, Primed, Encoding, translate_to_dimacs, encode_translation}

-- The literals of the cube are sorted.
abbrev pub Cube : Type 0
Cube = List ℤ

pub record Frame : Type 0 where
  pub cubes : List Cube
  pub solver : Cadical

-- What is fixed after the first call of encode_translation, which the source makes when it is first
-- needed.
pub record Setup : Type 0 where
  pub primed : Primed
  pub primes : Primes
  pub simplified_cnf : List Clause
  pub satelite_unsat : Bool

-- The fields of class PDR that change; `queries` counts the calls of solvers.
pub record Pdr : Type 0 where
  pub setup : Setup
  pub frames : List Frame
  pub init : Option Cadical
  pub core : Cube
  pub earliest_strengthened_frame : ℕ
  pub top_frame_cannot_reach_bad : Bool
  pub queries : ℕ

-- A step may fail an assert, or read out of range.
abbrev pub M : Type 0 → Type 0
M A = Pdr → Option (A × Pdr)

-- The variables that the simplifier keeps: inputs, latches, the bad literal and the constraints, and
-- the primed ones of all these.
unfoldable pub frozen_leaves : Aiger → ℕ → ℕ → List ℤ
frozen_leaves c zero v = []
frozen_leaves c (suc n) v =
    pos (2 + v) ∷ pos (c.primed_first_dimacs + v) ∷ frozen_leaves c n (suc v)

-- The assert on each constraint, in the same loop, is check_constraints.
unfoldable pub frozen_literals : Aiger → Primed → List ℤ
frozen_literals c p =
    frozen_leaves c (leaves c) 0 ++ (c.bad ∷ p.bad_prime ∷ c.constraints ++ p.constraints_prime)

unfoldable pub is_listed : ℤ → List ℤ → Bool
is_listed l [] = false
is_listed l (k ∷ ks) = (k ==ℤ l) || is_listed l ks

unfoldable pub satelite : Aiger → Primed → Encoding → MinisatSimp
satelite c p e =
    add_all_to_simp e.clauses
      (set_all_frozen (frozen_literals c p) (var_enlarge_to (p.primes.num_variables - 1) new_simp))

-- translate_to_dimacs, and the part of encode_translation that is done once.
unfoldable pub set_up : (List Clause → (ℕ → Bool) → List Clause) → Aiger → Option Setup
set_up eliminate c = do
  p ← translate_to_dimacs c
  e ← encode_translation c true p
  some (record {
    primed = p;
    primes = e.primes;
    simplified_cnf = simplify eliminate (satelite c p e);
    satelite_unsat = is_listed c.bad c.constraints;
  })

-- The clauses that every frame's solver starts with, and the constraints of the next state.
unfoldable pub frame_solver : Setup → Cadical
frame_solver s =
    let translated = add_clauses s.simplified_cnf new_cadical in
    let marked = if s.satelite_unsat then add_clause (pos 1 ∷ []) translated else translated in
    add_clauses (units s.primed.constraints_prime) marked

unfoldable pub new_frame : Pdr → Pdr
new_frame s = record s {
  frames = s.frames ++ record { cubes = []; solver = frame_solver s.setup } ∷ [];
}

-- frames.size() - 2, for at least two frames
unfoldable pub depth : Pdr → ℕ
depth s = length s.frames - 2

-- The first frame has the initial states.
unfoldable pub first_frame : Aiger → Pdr → Pdr
first_frame c s = record s {
  frames = record { cubes = []; solver = add_clauses (init_clauses c) (frame_solver s.setup) } ∷ [];
}

-- The end of a round of the main loop that found nothing.
unfoldable pub deepen : Pdr → Pdr
deepen s =
    let t = new_frame s in
    record t { top_frame_cannot_reach_bad = true; earliest_strengthened_frame = depth t }

-- sort(cube.begin(), cube.end(), Lit_CMP())
unfoldable pub insert_lit : ℤ → List ℤ → List ℤ
insert_lit l [] = l ∷ []
insert_lit l (k ∷ ks) = if lit_cmp l k then l ∷ k ∷ ks else k ∷ insert_lit l ks

unfoldable pub sort_lits : List ℤ → List ℤ
sort_lits [] = []
sort_lits (l ∷ ls) = insert_lit l (sort_lits ls)

-- set<Cube, Cube_CMP>::insert: `none` if the cube is there.
unfoldable pub insert_cube : Cube → List Cube → Option (List Cube)
insert_cube c [] = some (c ∷ [])
insert_cube c (d ∷ ds) =
    if cube_cmp c d
    then some (c ∷ d ∷ ds)
    else if cube_cmp d c
    then (do rest ← insert_cube c ds; some (d ∷ rest))
    else none

-- The clause that excludes a cube.
abbrev pub excluding : Cube → Clause
excluding c = map neg c

abbrev pub add_to_frame : Clause → Frame → Frame
add_to_frame c f = record f { solver = add_clause c f.solver }

-- The frames from `i` on: frames 1 to k - 1 get the clause.
unfoldable pub add_below : ℕ → Clause → ℕ → List Frame → List Frame
add_below k c i [] = []
add_below k c i (f ∷ fs) =
    (if leb 1 i && ltb i k then add_to_frame c f else f) ∷ add_below k c (suc i) fs

-- add_cube, which sorts the cube of its caller and returns it.
unfoldable pub add_cube : Cube → ℕ → Bool → Bool → M Cube
add_cube cube k to_all is_propagate s =
    let strengthened =
      if is_propagate then s.earliest_strengthened_frame else min s.earliest_strengthened_frame k in
    let sorted = sort_lits cube in
    elim (get_elem? s.frames k) [
      | none ↦ none
      | some f ↦ elim (insert_cube sorted f.cubes) [
        | none ↦ some (sorted, record s { earliest_strengthened_frame = strengthened })
        | some cubes ↦
            let below = if to_all then add_below k (excluding sorted) 0 s.frames else s.frames in
            let new : Frame = record {
              cubes = cubes;
              solver = add_clause (excluding sorted) f.solver;
            } in
            some (
              sorted,
              record s { earliest_strengthened_frame = strengthened; frames = set below k new },
            )
      ]
    ]

-- prime_lit of the literal of an input or a latch, which returns and changes no map.
unfoldable pub primed_lit : Aiger → Setup → ℤ → ℤ
primed_lit c s l = elim (prime_lit (leaves c) c.primed_first_dimacs l s.primes) [
  | none ↦ l
  | some (p, _) ↦ p
]

module _ (solve : ℕ → List Clause → List ℤ → Answer) (order : ℕ → List ℤ → List ℤ) (c : Aiger) where
  -- The solver of the initial states, which is made when it is first needed.
  unfoldable pub init_solver : Option Cadical → Cadical
  init_solver none = add_clauses (init_clauses c) new_cadical
  init_solver (some s) = s

  unfoldable pub is_init : Cube → M Bool
  is_init latches s =
      let solver = init_solver s.init in
      let next = record s { init = some solver; queries = suc s.queries } in
      elim (solve s.queries solver.clauses latches) [
        | sat val ↦ some (true, next)
        | unsat failed ↦ some (false, next)
        | terminated ↦ none
      ]

  unfoldable pub failed_lits : Setup → (ℤ → Bool) → Cube → Cube
  failed_lits s failed [] = []
  failed_lits s failed (l ∷ ls) =
      let rest = failed_lits s failed ls in if failed (primed_lit c s l) then l ∷ rest else rest

  -- The core of the assumptions; a core that meets an initial state is given up.
  unfoldable pub take_core : Cube → (ℤ → Bool) → M (Unit {0})
  take_core latches failed s =
      let core = failed_lits s.setup failed latches in
      elim (is_init core (record s { core = core })) [
        | none ↦ none
        | some (hit, t) ↦ some (tt, record t { core = if hit then latches else core })
      ]

  -- The assumptions: the activation literal, and the primed literals in the order of the heuristic.
  unfoldable pub assumptions : Setup → ℕ → ℕ → Cube → Bool → List ℤ
  assumptions s n act latches reverse_assumption =
      let ordered = order n latches in
      pos act ∷ map (primed_lit c s) (if reverse_assumption then reverse ordered else ordered)

  -- The solver is that of frame `k`. clear_act and set_clear_act are the empty functions of SATSolver,
  -- since they are not virtual: the clause of the activation literal stays.
  unfoldable pub is_inductive : ℕ → Cube → Bool → Bool → M Bool
  is_inductive k latches gen_core reverse_assumption s = elim (get_elem? s.frames k) [
    | none ↦ none
    | some f ↦
        let act = suc (max_var f.solver) in
        let solver = add_clause (neg (pos act) ∷ map neg latches) f.solver in
        let assumed = assumptions s.setup s.queries act latches reverse_assumption in
        let asked = λ (answered : Cadical). record s {
          frames = set s.frames k (record f { solver = answered });
          queries = suc s.queries;
        } in
        elim (solve s.queries solver.clauses assumed) [
          | sat val ↦ some (false, asked (record solver { model = val }))
          | terminated ↦ none
          | unsat failed ↦
              if gen_core
              then elim (take_core latches failed (asked solver)) [
                | none ↦ none
                | some (_, t) ↦ some (true, t)
              ]
              else some (true, asked solver)
        ]
  ]

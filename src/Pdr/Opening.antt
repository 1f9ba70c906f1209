-- ===== src/Pdr/Opening.antt =====
-- PDR::check_BMC1 of PDR.cpp, and what PDR::check does before its loop.
pub mod Opened
use modelchecker.Common.{
  ℕ, zero, suc, ◌+◌, ◌-◌, Bool, true, false, ◌==◌, Option, none, some, List, [], ◌∷◌, map, ℤ, pos,
  neg, abs, is_pos, if◌then◌else◌, length,
}
use modelchecker.Aiger.{Aiger, first_latch}
use modelchecker.Sat.{Clause, Answer, sat, unsat, terminated}
use modelchecker.Sat.Laws.{units}
use modelchecker.Sat.Cadical.{Cadical, new_cadical, add_clause, add_clauses}
use modelchecker.Pdr.Init.{init_clauses, State, read_vals, state_of, found, none_found, check_bmc0}
use modelchecker.Pdr.Frames.{Setup, Pdr, M, new_frame, first_frame, depth}

-- encode_translation for a solver that has clauses.
unfoldable pub add_translation : Setup → Cadical → Cadical
add_translation s solver =
    let translated = add_clauses s.simplified_cnf solver in
    if s.satelite_unsat then add_clause (pos 1 ∷ []) translated else translated

-- An initial state and the next one.
unfoldable pub two_step_solver : Aiger → Setup → Cadical
two_step_solver c s =
    add_clauses (units s.primed.constraints_prime)
      (add_translation s (add_clauses (init_clauses c) new_cadical))

-- The literal of a primed variable, moved by primed_first_dimacs - unprimed_first_dimacs.
unfoldable pub unprimed : ℕ → ℤ → ℤ
unprimed offset l = if is_pos l then pos (abs l - offset) else neg (pos (abs l - offset))

unfoldable pub next_state_of : Aiger → (ℕ → Option Bool) → State
next_state_of c val =
    let first = c.primed_first_dimacs in
    record {
      latches = map (unprimed (first - 2)) (read_vals val c.num_latches (first + c.num_inputs));
      inputs = map (unprimed (first - 2)) (read_vals val c.num_inputs first);
    }

-- A counterexample of one or two states, or the frames for the main loop.
pub data Opening : Type 0 where
  counterexample : List State → Opening
  ready : Opening

module _ (solve : ℕ → List Clause → List ℤ → Answer) (c : Aiger) where
  -- The two states, if there are; an answer 0 is treated like unsat by the source.
  unfoldable pub check_bmc1 : M (Option (State × State))
  check_bmc1 s =
      let next = record s { queries = suc s.queries } in
      if length s.frames == 1
      then elim (solve s.queries (two_step_solver c s.setup).clauses
          (s.setup.primed.bad_prime ∷ [])) [
            | sat val ↦ some (some (state_of c val, next_state_of c val), next)
            | unsat failed ↦ some (none, new_frame next)
            | terminated ↦ some (none, new_frame next)
          ]
      else none

  unfoldable pub enter_loop : Pdr → Pdr
  enter_loop s =
      let t = new_frame s in
      record t { top_frame_cannot_reach_bad = true; earliest_strengthened_frame = depth t }

  -- The calls before the main loop. check_BMC0 pushes the frame of the initial states at its end.
  unfoldable pub open_search : M Opening
  open_search s =
      let asked = record s { queries = suc s.queries } in
      elim (check_bmc0 (λ n. solve (s.queries + n)) c) [
        | found start ↦ some (counterexample (start ∷ []), asked)
        | none_found ↦ elim (check_bmc1 (first_frame c asked)) [
          | none ↦ none
          | some (two, t) ↦ elim two [
            | some (first, second) ↦ some (counterexample (first ∷ second ∷ []), t)
            | none ↦ some (ready, enter_loop t)
          ]
        ]
      ]

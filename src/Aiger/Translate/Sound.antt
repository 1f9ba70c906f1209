-- ===== src/Aiger/Translate/Sound.antt =====
-- translate_to_dimacs passes all its asserts, and leaves what the checkers rely on.
use modelchecker.Common.{
  ℕ, zero, suc, ◌+◌, ◌≤◌, ◌<◌, ◌≡◌, refl, sym, ◌∙◌, true, Option, some, List, [], ◌∷◌, arith, ℤ,
  pos, abs, length, All, get_or, Bool-cases, inl, inr, leb, ltb, ◌==◌,
}
use modelchecker.Circuit.Run.{IsVar, IsWellFormed, num_variables}
use modelchecker.Aiger.{Aiger, Variable, null_name, false_name}
use modelchecker.Aiger.Translate.{
  load_properties, load_bad, prepare_prime, translate_to_dimacs, load_ands, load_resets,
}
use modelchecker.Aiger.Translate.Format.{HasLiterals, IsLoaded}
use modelchecker.Aiger.Translate.Loops.{
  load_inputs_lem, load_latches_lem, load_ands_lem, load_resets_lem, load_literals_lem,
  IsReset-later,
}

-- `c` with the literals of its properties, the checked one among them.
abbrev with_properties : Aiger → ℕ → List ℤ → ℕ → Aiger
with_properties c index all n = record c {
  property_index = index;
  allbad = all;
  bad = get_or all index (pos 0);
  num_property = n;
}

All-get_or :
    (P : ℤ → Type 0) (ls : List ℤ) (i : ℕ) (d : ℤ) → All P ls → i < length ls → P (get_or ls i d)
All-get_or P [] i d h lt = absurd (omega arith)
All-get_or P (l ∷ ls) zero d (h, hs) lt = h
All-get_or P (l ∷ ls) (suc i) d (h, hs) lt = All-get_or P ls i d hs (omega arith)

-- What load_bad leaves of the properties.
record HasProperties (c : Aiger) (bound : ℕ) (r : Option Aiger) : Type 0 where
  index : ℕ
  n : ℕ
  all : List ℤ
  returns : r ≡ some (with_properties c index all n)
  vars : All (IsVar (suc bound)) all
  in_range : index < length all

load_properties_lem :
    (c : Aiger) (bound : ℕ) (source : List ℕ) (n : ℕ)
    → c.allbad ≡ []
    → 0 < n
    → HasLiterals bound n source
    → HasProperties c bound (load_properties c source n)
unfolding load_properties
load_properties_lem c bound source n empty lt h =
    let (all, e, vars, len) =
      load_literals_lem bound n 0 source [] (λ j lt'. h j (omega arith)) tt in
    elim (Bool-cases (leb n c.property_index)) [
      | inl out ↦ record {
        index = 0;
        n = n;
        all = all;
        returns = rw (out, empty, e) refl;
        vars = vars;
        in_range = omega arith;
      }
      | inr within ↦ record {
        index = c.property_index;
        n = n;
        all = all;
        returns = rw (within, empty, e) refl;
        vars = vars;
        in_range = ground (arith, within, len);
      }
    ]

load_bad_lem :
    (c : Aiger) (bound : ℕ)
    → c.allbad ≡ []
    → 0 < c.num_bads + c.num_outputs
    → HasLiterals bound c.num_bads c.aiger_bads
    → HasLiterals bound c.num_outputs c.aiger_outputs
    → HasProperties c bound (load_bad c)
unfolding load_bad
load_bad_lem c bound empty lt bads outputs = elim (Bool-cases (ltb 0 c.num_bads)) [
  | inl some_bads ↦
      rw (some_bads)
        (load_properties_lem c bound c.aiger_bads c.num_bads empty (ground (arith, some_bads)) bads)
  | inr no_bads ↦
      let outs : 0 < c.num_outputs = ground (arith, no_bads, lt) in
      let test : ltb 0 c.num_outputs ≡ true = ground (arith, outs) in
      rw (no_bads, test)
        (load_properties_lem c bound c.aiger_outputs c.num_outputs empty outs outputs)
]

prepare_prime_lem :
    (c : Aiger)
    → abs c.bad ≤ length c.variables
    → length c.variables ≡ 1 + c.num_inputs + c.num_latches + c.num_ands + 1
    → prepare_prime c ≡ some (record c { primed_first_dimacs = length c.variables })
unfolding prepare_prime
prepare_prime_lem c le e =
    let first : leb (abs c.bad) (length c.variables) ≡ true = ground arith in
    let second : (length c.variables == 1 + c.num_inputs + c.num_latches + c.num_ands + 1) ≡ true =
      ground arith in
    rw (first, second) refl

-- What translate_to_dimacs makes of `c`, and the loops that its gates and latches come from.
pub record IsTranslation (c d : Aiger) : Type 0 where
  pub returns : translate_to_dimacs c ≡ some d
  pub well : IsWellFormed d
  pub in_range : d.property_index < length d.allbad
  pub checked : d.bad ≡ get_or d.allbad d.property_index (pos 0)
  pub primed : d.primed_first_dimacs ≡ num_variables d
  pub variables_before : List Variable
  pub ands_from :
      load_ands (c.num_inputs + c.num_latches) c.num_ands 0 c.aiger_ands variables_before []
      ≡ some (d.variables, d.ands)
  pub resets_from :
      load_resets c.num_inputs c.num_latches 0 c.aiger_latches [] [] ≡ some (d.nexts, d.init_state)

pub translate_to_dimacs-IsTranslation :
    (c : Aiger) (bound : ℕ) → IsLoaded c bound → (d : Aiger) × IsTranslation c d
unfolding translate_to_dimacs
translate_to_dimacs-IsTranslation c bound h =
    let null =
      record { dimacs_var = 0; name = null_name }
      ∷ record { dimacs_var = 1; name = false_name }
      ∷ [] in
    let (inputs, e1, len1) =
      load_inputs_lem c.num_inputs 0 c.aiger_inputs null (λ j lt. h.inputs j (omega arith)) in
    let (latches, e2, len2) =
      load_latches_lem bound c.num_inputs c.num_latches 0 c.aiger_latches inputs
        (λ j lt. h.latches j (omega arith)) in
    let (vs, gs, e3, len3, ordered, count) =
      load_ands_lem (c.num_inputs + c.num_latches) c.num_ands 0 c.aiger_ands latches []
        (λ j lt. h.gates j (omega arith)) tt refl in
    let (nexts, init, e4, next_vars, next_count, reset) =
      load_resets_lem bound c.num_inputs c.num_latches 0 c.aiger_latches [] []
        (λ j lt. h.latches j (omega arith)) tt tt in
    let (cs, e5, constraint_vars, _) =
      load_literals_lem bound c.num_constraints 0 c.aiger_constraints []
        (λ j lt. h.constraint_literals j (omega arith)) tt in
    let loaded : Aiger = record c {
      variables = vs;
      ands = gs;
      nexts = nexts;
      init_state = init;
      constraints = cs;
    } in
    let props =
      load_bad_lem loaded bound h.no_allbad h.has_property h.bad_literals h.output_literals in
    let checked = with_properties loaded props.index props.all props.n in
    let size : length vs ≡ suc bound = omega (arith, len1, len2, len3, h.all_vars) in
    let same : num_variables checked ≡ suc bound = omega (arith, count, h.all_vars) in
    let (_, bad_lt) =
      All-get_or (IsVar (suc bound)) props.all props.index (pos 0) props.vars props.in_range in
    let last =
      prepare_prime_lem checked (omega (arith, bad_lt, size)) (omega (arith, size, h.all_vars)) in
    (
      record checked { primed_first_dimacs = length vs },
      record {
        returns =
            rw
              (
                h.no_variables, h.no_ands, h.no_nexts, h.no_init_state, h.no_constraints, e1, e2,
                e3, e4, e5, props.returns,
              )
              last;
        well = record {
          ordered = ordered;
          sized = size ∙ sym same;
          next_count = omega (arith, next_count);
          next_vars = rw same next_vars;
          reset = IsReset-later _ _ _ init reset (omega arith);
          constraint_vars = rw same constraint_vars;
          bad_vars = rw same props.vars;
        };
        in_range = props.in_range;
        checked = refl;
        primed = size ∙ sym same;
        variables_before = latches;
        ands_from = e3;
        resets_from = e4;
      },
    )

-- ===== src/Samples/Loading.antt =====
-- The translation to DIMACS form of a concrete circuit.
use modelchecker.Common.{zero, suc, ◌≡◌, refl, some, [], pos, arith, All, ◌↔◌}
use modelchecker.Circuit.{GateHolds}
use modelchecker.Aiger.Translate.Means.{AigerGates, AigerResets, translate_to_dimacs_means}
use modelchecker.Circuit.Run.{IsInitial}
use modelchecker.Aiger.{Aiger}
use modelchecker.Aiger.Translate.{
  translate_to_dimacs, load_inputs, load_latches, load_ands, load_resets, push_reset, load_literals,
  load_bad, load_properties, prepare_prime,
}
use modelchecker.Literal.{aiger_to_dimacs, half, is_odd, suc_ℤ, complement}
use modelchecker.Aiger.Translate.Format.{HasInputs, HasLatches, HasGates, HasLiterals, IsLoaded}
use modelchecker.Samples.Circuits.{sample, bad_run}

-- The sample circuit as it is read.
abbrev loaded : Aiger
loaded = record sample {
  variables = [];
  ands = [];
  nexts = [];
  init_state = [];
  allbad = [];
  bad = pos 0;
}

-- The gates, next states and bad literal are those of the sample in DIMACS form.
loaded_gates :
    (d : Aiger) × (translate_to_dimacs loaded ≡ some d)
    × (d.ands ≡ sample.ands)
    × (d.nexts ≡ sample.nexts)
    × (d.init_state ≡ sample.init_state)
    × (d.bad ≡ sample.bad)
unfolding translate_to_dimacs load_inputs load_latches load_ands load_resets push_reset
    load_literals load_bad load_properties prepare_prime aiger_to_dimacs half is_odd suc_ℤ
    complement
loaded_gates = (_, refl, refl, refl, refl, refl)

loaded_inputs : HasInputs 2 loaded.aiger_inputs
loaded_inputs zero lt = refl
loaded_inputs (suc zero) lt = refl
loaded_inputs (suc (suc i)) lt = absurd (omega arith)

loaded_latches : HasLatches 6 2 1 loaded.aiger_latches
loaded_latches zero lt = (_, refl, refl, omega arith)
loaded_latches (suc i) lt = absurd (omega arith)

loaded_ands : HasGates 3 2 loaded.aiger_ands
loaded_ands zero lt = (_, refl, refl, omega arith, omega arith)
loaded_ands (suc zero) lt = (_, refl, refl, omega arith, omega arith)
loaded_ands (suc (suc i)) lt = absurd (omega arith)

loaded_bads : HasLiterals 6 1 loaded.aiger_bads
loaded_bads zero lt = (_, refl, omega arith)
loaded_bads (suc i) lt = absurd (omega arith)

loaded-IsLoaded : IsLoaded loaded 6
loaded-IsLoaded = record {
  all_vars = refl;
  inputs = loaded_inputs;
  latches = loaded_latches;
  gates = loaded_ands;
  constraint_literals = λ i lt. absurd (omega arith);
  bad_literals = loaded_bads;
  output_literals = λ i lt. absurd (omega arith);
  has_property = omega arith;
  no_variables = refl;
  no_ands = refl;
  no_nexts = refl;
  no_init_state = refl;
  no_constraints = refl;
  no_allbad = refl;
}

translate_to_dimacs_means_example :
    (d : Aiger) × (translate_to_dimacs loaded ≡ some d)
    × (All (GateHolds (bad_run 1)) d.ands ↔ AigerGates (bad_run 1) loaded.aiger_ands 0 2)
    × (IsInitial d (bad_run 1) ↔ AigerResets (bad_run 1) 2 loaded.aiger_latches 0 1)
translate_to_dimacs_means_example = translate_to_dimacs_means loaded 6 (bad_run 1) loaded-IsLoaded

-- ===== src/Samples/Literals.antt =====
-- Literals at concrete inputs.
use modelchecker.Common.{◌≡◌, refl, pos, negsuc, arith}
use modelchecker.Literal.{
  aiger_to_dimacs, dimacs_to_aiger, is_odd, half, suc_ℤ, complement, double_pred, to_int,
}
use modelchecker.Literal.RoundTrip.{aiger_to_dimacs-IsInverse}

aiger_to_dimacs-IsInverse_example :
    (dimacs_to_aiger (aiger_to_dimacs (pos 9)) ≡ pos 9)
    × (aiger_to_dimacs (dimacs_to_aiger (negsuc 4)) ≡ negsuc 4)
aiger_to_dimacs-IsInverse_example =
    aiger_to_dimacs-IsInverse 9 (negsuc 4) (omega arith) (omega arith) (omega arith)

-- The next literal does not come back.
wrapped : aiger_to_dimacs (dimacs_to_aiger (pos 1073741825)) ≡ negsuc 1073741822
unfolding aiger_to_dimacs dimacs_to_aiger is_odd half suc_ℤ complement double_pred to_int
wrapped = refl

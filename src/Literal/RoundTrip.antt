-- ===== src/Literal/RoundTrip.antt =====
-- aiger_to_dimacs and dimacs_to_aiger are inverse to each other, and what a literal means.
use modelchecker.Common.{
  ℕ, suc, ◌+◌, ◌*◌, ◌/◌, ◌%◌, ◌^◌, ◌<◌, ◌≤◌, ◌≡◌, refl, not, if◌then◌else◌, ◌==◌, ℤ, pos, negsuc,
  abs, arith, Bool-cases, inl, inr,
}
use modelchecker.Circuit.{Assignment, holds, IsLiteral}
use modelchecker.Literal.{
  half, is_odd, suc_ℤ, complement, aiger_to_dimacs, double_pred, to_int, dimacs_to_aiger,
}

pub aiger_to_dimacs_pos_even : (v : ℕ) → aiger_to_dimacs (pos (2 * v)) ≡ pos (suc v)
unfolding aiger_to_dimacs is_odd half suc_ℤ complement
aiger_to_dimacs_pos_even v = ground arith

pub aiger_to_dimacs_pos_odd : (v : ℕ) → aiger_to_dimacs (pos (2 * v + 1)) ≡ negsuc v
unfolding aiger_to_dimacs is_odd half suc_ℤ complement
aiger_to_dimacs_pos_odd v = ground arith

-- The variable of the DIMACS literal.
pub abs-aiger_to_dimacs : (n : ℕ) → abs (aiger_to_dimacs (pos n)) ≡ suc (n / 2)
unfolding aiger_to_dimacs is_odd half suc_ℤ complement
abs-aiger_to_dimacs n = ground arith

pub aiger_to_dimacs-IsLiteral : (n : ℕ) → IsLiteral (aiger_to_dimacs (pos n))
aiger_to_dimacs-IsLiteral n = omega (arith, abs-aiger_to_dimacs n)

-- The DIMACS literal means the AIGER variable, negated if the literal is odd.
pub holds-aiger_to_dimacs :
    (x : Assignment) (n : ℕ)
    → holds x (aiger_to_dimacs (pos n))
      ≡ (if n % 2 == 1 then not (x (suc (n / 2))) else x (suc (n / 2)))
unfolding aiger_to_dimacs is_odd half suc_ℤ complement holds
holds-aiger_to_dimacs x n = elim (Bool-cases (n % 2 == 1)) [
  | inl odd ↦ rw odd refl
  | inr even ↦ rw even refl
]

pub dimacs_to_aiger-aiger_to_dimacs :
    (n : ℕ) → n < 2 ^ 31 → dimacs_to_aiger (aiger_to_dimacs (pos n)) ≡ pos n
unfolding aiger_to_dimacs dimacs_to_aiger is_odd half suc_ℤ complement double_pred to_int
dimacs_to_aiger-aiger_to_dimacs n lt = ground arith

pub aiger_to_dimacs-dimacs_to_aiger :
    (l : ℤ) → IsLiteral l → abs l ≤ 2 ^ 30 → aiger_to_dimacs (dimacs_to_aiger l) ≡ l
unfolding aiger_to_dimacs dimacs_to_aiger is_odd half suc_ℤ complement double_pred to_int
aiger_to_dimacs-dimacs_to_aiger l h le = ground arith

-- The two conversions are inverse to each other, on the AIGER literals, which are ints that are not
-- negative, and on the DIMACS literals of the variables 1 to 2 ^ 30.
pub aiger_to_dimacs-IsInverse :
    (n : ℕ) (l : ℤ)
    → n < 2 ^ 31
    → IsLiteral l
    → abs l ≤ 2 ^ 30
    → (dimacs_to_aiger (aiger_to_dimacs (pos n)) ≡ pos n)
      × (aiger_to_dimacs (dimacs_to_aiger l) ≡ l)
aiger_to_dimacs-IsInverse n l lt h le =
    (dimacs_to_aiger-aiger_to_dimacs n lt, aiger_to_dimacs-dimacs_to_aiger l h le)

-- ===== src/Literal.antt =====
-- The two forms of a literal (basic.hpp): AIGER's, 2 v or 2 v + 1, and DIMACS', v + 1 or -(v + 1).
pub mod RoundTrip
use modelchecker.Common.{
  ℕ, zero, suc, ◌+◌, ◌-◌, ◌*◌, ◌/◌, ◌%◌, ◌^◌, Bool, if◌then◌else◌, ltb, ◌==◌, ℤ, pos, negsuc, abs,
  is_neg,
}

-- lit >> 1, the shift of a signed integer.
unfoldable pub half : ℤ → ℤ
half (pos n) = pos (n / 2)
half (negsuc n) = negsuc (n / 2)

-- lit & 1: a negative number -(n + 1) has the opposite last bit of n.
unfoldable pub is_odd : ℤ → Bool
is_odd (pos n) = n % 2 == 1
is_odd (negsuc n) = n % 2 == 0

-- res + 1
unfoldable pub suc_ℤ : ℤ → ℤ
suc_ℤ (pos n) = pos (suc n)
suc_ℤ (negsuc zero) = pos 0
suc_ℤ (negsuc (suc n)) = negsuc n

-- -res - 1
unfoldable pub complement : ℤ → ℤ
complement (pos n) = negsuc n
complement (negsuc n) = pos n

unfoldable pub aiger_to_dimacs : ℤ → ℤ
aiger_to_dimacs lit = if is_odd lit then complement (half lit) else suc_ℤ (half lit)

-- The int that a word of 32 bits stands for.
unfoldable pub to_int : ℕ → ℤ
to_int n = if ltb n (2 ^ 31) then pos n else negsuc (2 ^ 32 - 1 - n)

-- (abs(lit) - 1) << 1, which is -2 at 0, and whose result has 32 bits.
unfoldable pub double_pred : ℕ → ℤ
double_pred zero = negsuc 1
double_pred (suc n) = to_int (n * 2 % 2 ^ 32)

unfoldable pub dimacs_to_aiger : ℤ → ℤ
dimacs_to_aiger lit = let res = double_pred (abs lit) in if is_neg lit then suc_ℤ res else res

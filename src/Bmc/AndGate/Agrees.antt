-- ===== src/Bmc/AndGate/Agrees.antt =====
-- When the unfolded values of the circuit's variables mean what the circuit assigns to them.
use modelchecker.Common.{ℕ, zero, suc, ◌≤◌, ◌<◌, ◌≡◌, true}
use modelchecker.Common.{List, arith}
use modelchecker.Common.{ℤ, pos, negsuc, abs, neg, is_neg, get_or, abs-neg}
use modelchecker.Circuit.{Assignment, holds, IsLiteral, holds-neg}
use modelchecker.Bmc.AndGate.{value}

-- Below `n` the unfolded values mean what the circuit assigns to its variables.
pub record Agrees (σ x : Assignment) (values : List ℤ) (n : ℕ) : Type 0 where
  pub constant : get_or values 1 (pos 0) ≡ pos 1
  pub nonzero : (v : ℕ) → 1 ≤ v → v < n → IsLiteral (get_or values v (pos 0))
  pub same : (v : ℕ) → 1 ≤ v → v < n → holds σ (get_or values v (pos 0)) ≡ x v

pub value-Agrees :
    {σ x : Assignment} {values : List ℤ} {n : ℕ}
    → Agrees σ x values n
    → (l : ℤ) → IsLiteral l
    → abs l < n
    → IsLiteral (value values l) × (holds σ (value values l) ≡ holds x l)
unfolding value holds
value-Agrees h (pos zero) p q = absurd (omega arith)
value-Agrees h (pos (suc k)) p q = ground (arith, h.nonzero (suc k) p q, h.same (suc k) p q)
value-Agrees {σ} {x} {values} h (negsuc k) p q = ground (
  arith,
  h.nonzero (suc k) p q,
  h.same (suc k) p q,
  holds-neg σ (get_or values (suc k) (pos 0)),
  abs-neg (get_or values (suc k) (pos 0)),
)

pub value-neg-abs :
    (values : List ℤ) (p : ℤ) → is_neg p ≡ true → value values p ≡ neg (value values (pos (abs p)))
unfolding value
value-neg-abs values (pos n) h = cc
value-neg-abs values (negsuc n) h = ground arith

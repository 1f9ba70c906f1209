-- ===== src/Bmc/AndGate/Bounds.antt =====
-- `Aig_And` returns only literals of the unfolded variables that there are.
use modelchecker.Common.{
  ℕ, zero, suc, ◌<◌, ◌≡◌, some, inl, inr, List, arith, ℤ, pos, abs, get_or, abs-neg,
}
use modelchecker.Circuit.{And}
use modelchecker.Bmc.AndGate.{value, result, trivial, strash, strash_side, aig_and_step, aig_and}
use modelchecker.Bmc.AndGate.Cases.{step-cases, Outcome-cases}

-- Every value is a literal of a node.
abbrev pub IsSmall : ℕ → List ℤ → Type 0
IsSmall n values = (v : ℕ) → abs (get_or values v (pos 0)) < n

pub abs-value-lt : (n : ℕ) (values : List ℤ) (l : ℤ) → IsSmall n values → abs (value values l) < n
unfolding value
abs-value-lt n values l h = ground (arith, h (abs l), abs-neg (get_or values (abs l) (pos 0)))

trivial-lt : (n : ℕ) (v w r : ℤ) → 1 < n → abs v < n → abs w < n → trivial v w ≡ some r → abs r < n
unfolding trivial
trivial-lt n v w r one hv hw e = ground arith

strash-lt :
    (n : ℕ) (p v w fa fb va vb r : ℤ)
    → 1 < n
    → abs v < n
    → abs w < n
    → strash p v w fa fb va vb ≡ some (result r)
    → abs r < n
unfolding strash
strash-lt n p v w fa fb va vb r one hv hw e = ground arith

module _ (n first : ℕ) (ands : List And) (values : List ℤ) (one : 1 < n)
    (h : IsSmall n values) where
  step-lt : (p q r : ℤ) → aig_and_step first ands values p q ≡ result r → abs r < n
  unfolding strash_side
  step-lt p q r e =
      let hp = abs-value-lt n values p h in
      let hq = abs-value-lt n values q h in
      elim (step-cases first ands values p q (result r) e) [
        | inl (r0, t, same) ↦ rw (result-injective r r0 same) (trivial-lt n _ _ r0 one hp hq t)
        | inr (inl (_, s)) ↦ strash-lt n p _ _ _ _ _ _ r one hp hq s
        | inr (inr (inl (_, s))) ↦ strash-lt n q _ _ _ _ _ _ r one hq hp s
        | inr (inr (inr z)) ↦ rw (result-injective r (pos 0) z) (omega arith)
      ]
    where
      result-injective : (a b : ℤ) → result a ≡ result b → a ≡ b
      result-injective a b e = cc

  pub aig_and-lt : (fuel : ℕ) (p q r : ℤ) → aig_and first ands values fuel p q ≡ some r → abs r < n
  unfolding aig_and
  aig_and-lt zero p q r e = cc
  aig_and-lt (suc fuel) p q r e = elim (Outcome-cases (aig_and_step first ands values p q)) [
    | inl (r0, s) ↦ rw (some-eq r0 s) (step-lt p q r0 s)
    | inr (q0, q1, s) ↦ aig_and-lt fuel q0 q1 r (rw (s, aig_and) at e)
  ]
    where
      some-eq : (r0 : ℤ) → aig_and_step first ands values p q ≡ result r0 → r ≡ r0
      some-eq r0 s = ground arith

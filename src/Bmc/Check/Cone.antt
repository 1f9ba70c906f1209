-- ===== src/Bmc/Check/Cone.antt =====
-- The loop over the gates defines every variable that is needed.
use modelchecker.Common.{
  ℕ, suc, ◌<◌, ◌≡◌, ◌≢◌, sym, ap, ◌∙◌, true, false, not, ◌||◌, Bool, inl, inr, ◌⊎◌, some, List,
  arith, abs, length, get_elem?, get_or, set, get_or-set_self, get_or-set_other,
}
use native.Mathlib.Decide.{dec_lt, ℕ_discrete}
use modelchecker.Circuit.{And, Assignment, GateHolds}
use modelchecker.Circuit.Order.{IsIncreasing}
use modelchecker.Sat.Laws.{Satisfies}
use modelchecker.Bmc.Solve.{SolverState, Cone, cone_gate, insert, erase}
use modelchecker.Bmc.Check.Keeps.{increasing_lt, increasing_inputs}

-- The gate of the variable, if it has one, has its clauses in the solver.
abbrev pub IsDefined : List And → List Bool → ℕ → Type 0
IsDefined gs ins v =
    (k : ℕ) (b : And) → get_elem? gs k ≡ some b → b.o ≡ v → get_or ins k false ≡ true

-- The same, or the loop will get to it: `n` gates are left.
abbrev pub IsPending : List And → ℕ → Cone → ℕ → Type 0
IsPending gs n s v =
    (k : ℕ) (b : And)
    → get_elem? gs k ≡ some b
    → b.o ≡ v
    → (get_or s.added.lit_has_insert k false ≡ true) ⊎ (k < n) × (s.lit_set v ≡ true)

-- What is known of the gates whose clauses are in the solver: their inputs are `R`.
pub record Inserted (gs : List And) (R : ℕ → Type 0) (s : SolverState) : Type 0 where
  pub inputs :
      (k : ℕ) (b : And)
      → get_elem? gs k ≡ some b
      → get_or s.lit_has_insert k false ≡ true
      → R (abs b.i1) × R (abs b.i2)
  pub gates :
      (k : ℕ) (b : And)
      → get_elem? gs k ≡ some b
      → get_or s.lit_has_insert k false ≡ true
      → (σ : Assignment) → Satisfies σ s.clauses
      → GateHolds σ b

module _ (end : ℕ) (gs : List And) (increasing : IsIncreasing 2 end gs) where
  same_gate :
      (i k : ℕ) (a b : And) → get_elem? gs i ≡ some a → get_elem? gs k ≡ some b → a.o ≡ b.o → i ≡ k
  same_gate i k a b e f eq = elim (dec_lt i k) [
    | yes lt ↦ absurd (omega (arith, increasing_lt 2 end gs i k a b increasing e f lt))
    | no ge ↦ elim (dec_lt k i) [
      | yes lt ↦ absurd (omega (arith, increasing_lt 2 end gs k i b a increasing f e lt))
      | no le ↦ omega arith
    ]
  ]

  earlier_gate :
      (i k : ℕ) (a b : And) → get_elem? gs i ≡ some a → get_elem? gs k ≡ some b → b.o < a.o → k < i
  earlier_gate i k a b e f lt = elim (dec_lt k i) [
    | yes less ↦ less
    | no ge ↦ elim (ℕ_discrete i k) [
      | yes same ↦
          let eq : a ≡ b = cc in absurd (let o = ap (λ (g : And). g.o) eq in omega (arith, o))
      | no other ↦
          absurd (omega (arith, increasing_lt 2 end gs i k a b increasing e f (omega arith)))
    ]
  ]

  -- One round for gate `i`: what was pending still is.
  pub add-IsPending :
      (i : ℕ) (a : And) (s : Cone) (v : ℕ)
      → i < length s.added.lit_has_insert
      → get_elem? gs i ≡ some a
      → get_or s.added.lit_has_insert i false || not (s.lit_set a.o) ≡ false
      → IsPending gs (suc i) s v
      → IsPending gs i (cone_gate i a s) v
  unfolding cone_gate
  add-IsPending i a s v room at add pending k b e eq = rw (add, cone_gate) (go (ℕ_discrete i k))
    where
      ins : List Bool
      ins = s.added.lit_has_insert

      go :
          Dec (i ≡ k)
          → (get_or (set ins i true) k false ≡ true)
            ⊎ (k < i) × (insert (abs a.i2) (insert (abs a.i1) (erase a.o s.lit_set)) v ≡ true)
      go (yes same) = inl (rw (← same) (get_or-set_self ins i true false room))
      go (no other) = elim (pending k b e eq) [
        | inl there ↦ inl (get_or-set_other ins i k true false other ∙ there)
        | inr (lt, needed) ↦
            let apart : a.o ≢ v = λ w. other (same_gate i k a b at e (w ∙ sym eq)) in
            inr (omega arith, ground (arith, needed, apart))
      ]

  pub skip-IsPending :
      (i : ℕ) (a : And) (s : Cone) (v : ℕ)
      → get_elem? gs i ≡ some a
      → get_or s.added.lit_has_insert i false || not (s.lit_set a.o) ≡ true
      → IsPending gs (suc i) s v
      → IsPending gs i s v
  skip-IsPending i a s v at skip pending k b e eq = elim (pending k b e eq) [
    | inl there ↦ inl there
    | inr (lt, needed) ↦ elim (ℕ_discrete k i) [
      | no other ↦ inr (omega arith, needed)
      | yes same ↦
          let here : a ≡ b = (let f = rw same at e in cc) in
          let wanted : s.lit_set a.o ≡ true = rw here (rw eq needed) in
          inl (rw same (ground (arith, skip, wanted)))
    ]
  ]

  -- The inputs of the gate that was added are needed now.
  pub input-IsPending :
      (i : ℕ) (a : And) (s : Cone) (v : ℕ)
      → get_elem? gs i ≡ some a
      → get_or s.added.lit_has_insert i false || not (s.lit_set a.o) ≡ false
      → (v ≡ abs a.i1) ⊎ (v ≡ abs a.i2)
      → IsPending gs i (cone_gate i a s) v
  unfolding cone_gate
  input-IsPending i a s v at add which k b e eq =
      let (_, _, b1, _, b2, _) = increasing_inputs 2 end gs i a increasing at in
      rw (add, cone_gate)
        (inr (
          earlier_gate i k a b at e
              (elim which [ inl left ↦ omega arith | inr right ↦ omega arith ]),
          elim which [ inl left ↦ ground arith | inr right ↦ ground arith ],
        ))

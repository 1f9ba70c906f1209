-- ===== src/Sat/Cone.antt =====
-- The loop over the gates, from the last to the first, that adds the clauses of the gates which a set
-- of variables needs (encode_init_condition and encode_bad_state of PDR.cpp).
use modelchecker.Common.{
  ℕ, suc, ◌<◌, ◌≡◌, sym, ◌∙◌, ap₂, Bool, true, false, ◌&&◌, ◌||◌, List, [], ◌∷◌, ◌++◌, ◌==◌,
  if◌then◌else◌, ℤ, abs, All, All-append, All-left, All-right, Bool-cases, inl, inr, arith,
}
use native.Mathlib.Decide.{ℕ_discrete}
use modelchecker.Circuit.{And, Assignment, holds, GateHolds}
use modelchecker.Circuit.Order.{IsOrderedFrom}
use modelchecker.Circuit.Settle.{
  update, settle, settle_below, update_other, update_self, holds-agree,
}
use modelchecker.Sat.{Clause, gate_clauses}
use modelchecker.Sat.Laws.{Satisfies}
use modelchecker.Sat.Gates.{gate_clauses-Satisfies, Satisfies-gate_clauses}

abbrev pub insert : ℕ → (ℕ → Bool) → ℕ → Bool
insert v lits w = (v == w) || lits w

-- `lit_set` after the gates `gs`, the last of which comes first.
unfoldable pub cone_set : List And → (ℕ → Bool) → ℕ → Bool
cone_set [] lits = lits
cone_set (g ∷ gs) lits =
    let after = cone_set gs lits in
    if after g.o then insert (abs g.i2) (insert (abs g.i1) after) else after

-- The clauses that the loop adds.
unfoldable pub cone_clauses : List And → (ℕ → Bool) → List Clause
cone_clauses [] lits = []
cone_clauses (g ∷ gs) lits =
    cone_clauses gs lits ++ (if cone_set gs lits g.o then gate_clauses g else [])

-- The set of the variables of some literals.
unfoldable pub var_set : List ℤ → ℕ → Bool
var_set [] v = false
var_set (l ∷ ls) v = (abs l == v) || var_set ls v

cone_set-grows :
    (g : And) (gs : List And) (lits : ℕ → Bool) (v : ℕ)
    → cone_set gs lits v ≡ true
    → cone_set (g ∷ gs) lits v ≡ true
unfolding cone_set
cone_set-grows g gs lits v h = ground (arith, h)

pub cone_set-le :
    (gs : List And) (lits : ℕ → Bool) (v : ℕ) → lits v ≡ true → cone_set gs lits v ≡ true
unfolding cone_set
cone_set-le [] lits v h = h
cone_set-le (g ∷ gs) lits v h = cone_set-grows g gs lits v (cone_set-le gs lits v h)

-- Where the gates hold, so do the clauses.
pub cone_clauses-Satisfies :
    (n : ℕ) (gs : List And) (lits : ℕ → Bool) (σ : Assignment)
    → 0 < n
    → IsOrderedFrom n gs
    → All (GateHolds σ) gs
    → Satisfies σ (cone_clauses gs lits)
unfolding cone_clauses
cone_clauses-Satisfies n [] lits σ one o h = tt
cone_clauses-Satisfies n (g ∷ gs) lits σ one (e, l1, _, l2, _, o) (gate, gates) =
    let rest = cone_clauses-Satisfies (suc n) gs lits σ (omega arith) o gates in
    elim (Bool-cases (cone_set gs lits g.o)) [
      | inl needed ↦ rw needed (
          All-append _ (cone_clauses gs lits) (gate_clauses g) rest
            (gate_clauses-Satisfies σ g (omega arith, l1, l2) gate))
      | inr unneeded ↦ rw unneeded (All-append _ (cone_clauses gs lits) [] rest tt)
    ]

-- Two assignments agree on a set of variables.
abbrev pub AgreeOn : (ℕ → Bool) → Assignment → Assignment → Type 0
AgreeOn lits σ τ = (v : ℕ) → lits v ≡ true → τ v ≡ σ v

-- Where the clauses hold, the evaluation of the gates keeps the values of all needed variables.
pub settle-AgreeOn :
    (n : ℕ) (gs : List And) (lits : ℕ → Bool) (σ τ : Assignment)
    → 0 < n
    → IsOrderedFrom n gs
    → Satisfies σ (cone_clauses gs lits)
    → AgreeOn (cone_set gs lits) σ τ
    → AgreeOn (cone_set gs lits) σ (settle gs τ)
unfolding cone_clauses settle
settle-AgreeOn n [] lits σ τ one o h same v needed = same v needed
settle-AgreeOn n (g ∷ gs) lits σ τ one (e, l1, lt1, l2, lt2, o) h same v needed =
    let τ' = update τ g.o (holds τ g.i1 && holds τ g.i2) in
    elim (Bool-cases (cone_set gs lits v)) [
      | inl later ↦
          settle-AgreeOn (suc n) gs lits σ τ' (omega arith) o
            (All-left _ (cone_clauses gs lits) _ h) step v later
      | inr early ↦
          let below : v < suc n = input v needed early in
          let lower : v < n = input_lt v needed early in
          settle_below (suc n) gs τ' v o below
          ∙ update_other τ g.o v _ (omega arith)
          ∙ same v needed
    ]
  where
    input_lt : (w : ℕ) → cone_set (g ∷ gs) lits w ≡ true → cone_set gs lits w ≡ false → w < n
    input_lt w yes_now no_later = unfold cone_set in ground (arith, yes_now, no_later)

    input : (w : ℕ) → cone_set (g ∷ gs) lits w ≡ true → cone_set gs lits w ≡ false → w < suc n
    input w yes_now no_later = omega (arith, input_lt w yes_now no_later)

    needs :
        cone_set gs lits g.o ≡ true
        → (cone_set (g ∷ gs) lits (abs g.i1) ≡ true) × (cone_set (g ∷ gs) lits (abs g.i2) ≡ true)
    needs on = unfold cone_set in (ground (arith, on), ground (arith, on))

    step : AgreeOn (cone_set gs lits) σ (update τ g.o (holds τ g.i1 && holds τ g.i2))
    step w on = elim (ℕ_discrete g.o w) [
      | yes eq ↦
          let here : cone_set gs lits g.o ≡ true = rw eq on in
          let (n1, n2) = needs here in
          let clauses = rw here at (All-right _ (cone_clauses gs lits) _ h) in
          let gate = Satisfies-gate_clauses σ g (omega arith, l1, l2) clauses in
          rw (← eq) (
            update_self τ g.o _
            ∙ ap₂ ◌&&◌ (holds-agree τ σ g.i1 (same (abs g.i1) n1))
                (holds-agree τ σ g.i2 (same (abs g.i2) n2))
            ∙ sym gate)
      | no ne ↦ update_other τ g.o w _ ne ∙ same w (cone_set-grows g gs lits w on)
    ]

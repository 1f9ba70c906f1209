-- ===== src/Aiger/Translate/Means.antt =====
-- The translated circuit means what the AIGER format says of the circuit that is read.
use modelchecker.Common.{
  ℕ, zero, suc, ◌+◌, ◌*◌, ◌/◌, ◌%◌, ◌≤◌, ◌<◌, ◌≡◌, ◌↔◌, ◌∙◌, ap, true, false, not, Bool, ◌&&◌, some,
  List, [], ◌∷◌, ◌++◌, arith, ℤ, pos, neg, All, All-append, All-left, All-right, get_elem?,
  Bool-cases, inl, inr, ◌==◌, if◌then◌else◌,
}
use native.Mathlib.Decide.{dec_lt}
use modelchecker.Circuit.{And, Assignment, holds, GateHolds, holds-neg}
use modelchecker.Circuit.Run.{IsInitial}
use modelchecker.Literal.{aiger_to_dimacs}
use modelchecker.Literal.RoundTrip.{holds-aiger_to_dimacs}
use modelchecker.Aiger.{Aiger, Variable, AigerLatch, AigerAnd}
use modelchecker.Aiger.Translate.{load_ands, load_resets, push_reset, translate_to_dimacs, variable}
use modelchecker.Aiger.Translate.Format.{HasGates, HasLatches, IsLoaded}
use modelchecker.Aiger.Translate.Loops.{==_true}
use modelchecker.Aiger.Translate.Sound.{translate_to_dimacs-IsTranslation}

-- The truth of an AIGER literal: variable `v` of the format is the DIMACS variable v + 1, and an odd
-- literal is negated.
abbrev pub aiger_holds : Assignment → ℕ → Bool
aiger_holds x n = if n % 2 == 1 then not (x (suc (n / 2))) else x (suc (n / 2))

abbrev pub AigerGateHolds : Assignment → AigerAnd → Type 0
AigerGateHolds x a = aiger_holds x a.o ≡ (aiger_holds x a.i1 && aiger_holds x a.i2)

-- The gates from place `i` to place `k` hold.
abbrev pub AigerGates : Assignment → List AigerAnd → ℕ → ℕ → Type 0
AigerGates x gates i k =
    (j : ℕ) → i ≤ j → j < k → (a : AigerAnd) → get_elem? gates j ≡ some a → AigerGateHolds x a

-- The gate that one round adds holds exactly if the AIGER gate does.
gate_same :
    (x : Assignment) (k : ℕ) (a : AigerAnd)
    → a.o ≡ 2 * k
    → AigerGateHolds x a
      ↔ GateHolds x
          (record { o = suc k; i1 = aiger_to_dimacs (pos a.i1); i2 = aiger_to_dimacs (pos a.i2) })
gate_same x k a e =
    let even : (a.o % 2 == 1) ≡ false = ground arith in
    let var : a.o / 2 ≡ k = ground arith in
    let one = holds-aiger_to_dimacs x a.i1 in
    let two = holds-aiger_to_dimacs x a.i2 in
    (λ h. rw (one, two) (rw (even, var) at h), λ h. rw (even, var) (rw (one, two) at h))

module _ (x : Assignment) (before : ℕ) (gates : List AigerAnd) where
  pub load_ands_means :
      (n i : ℕ) (vs ws : List Variable) (gs hs : List And)
      → HasGates before (i + n) gates
      → load_ands before n i gates vs gs ≡ some (ws, hs)
      → All (GateHolds x) hs ↔ (All (GateHolds x) gs × AigerGates x gates i (i + n))
  unfolding load_ands
  load_ands_means zero i vs ws gs hs h e =
      let same : gs ≡ hs = cc in
      rw (← same) (λ all. (all, λ j lo hi. absurd (omega arith)), λ both. both.0)
  load_ands_means (suc n) i vs ws gs hs h e =
      let (a, found, is_o, _, _) = h i (omega arith) in
      let g : And = record {
        o = 2 + before + i;
        i1 = aiger_to_dimacs (pos a.i1);
        i2 = aiger_to_dimacs (pos a.i2);
      } in
      let test = ==_true (2 * (before + suc i)) a.o (omega arith) in
      let rest =
        load_ands_means n (suc i) (vs ++ variable (2 + before + i) 97 i ∷ []) ws (gs ++ g ∷ []) hs
          (λ j lt. h j (omega arith)) (rw (found, test, load_ands) at e) in
      let o_same : g.o ≡ suc (before + suc i) = omega arith in
      let gate : AigerGateHolds x a ↔ GateHolds x g =
        rw o_same (gate_same x (before + suc i) a (omega arith)) in
      (forward a g found gate rest, backward a g found gate rest)
    where
      forward :
          (a : AigerAnd) (g : And)
          → get_elem? gates i ≡ some a
          → (AigerGateHolds x a ↔ GateHolds x g)
          → (All (GateHolds x) hs
              ↔ (All (GateHolds x) (gs ++ g ∷ []) × AigerGates x gates (suc i) (suc i + n)))
          → All (GateHolds x) hs
          → All (GateHolds x) gs × AigerGates x gates i (i + suc n)
      forward a g found gate rest all =
          let (pushed, later) = rest.0 all in
          (
            All-left (GateHolds x) gs (g ∷ []) pushed,
            λ j lo hi b at_j. elim (dec_lt i j) [
              | yes after ↦ later j after (omega arith) b at_j
              | no first ↦
                  let same : j ≡ i = omega arith in
                  let a_same : a ≡ b = cc in
                  rw (← a_same) (gate.1 (All-right (GateHolds x) gs (g ∷ []) pushed).0)
            ],
          )

      backward :
          (a : AigerAnd) (g : And)
          → get_elem? gates i ≡ some a
          → (AigerGateHolds x a ↔ GateHolds x g)
          → (All (GateHolds x) hs
              ↔ (All (GateHolds x) (gs ++ g ∷ []) × AigerGates x gates (suc i) (suc i + n)))
          → (All (GateHolds x) gs × AigerGates x gates i (i + suc n))
          → All (GateHolds x) hs
      backward a g found gate rest (old, all) =
          let new = gate.0 (all i (omega arith) (omega arith) a found) in
          rest.1 (
            All-append (GateHolds x) gs (g ∷ []) old (new, tt),
            λ j lo hi. all j (omega arith) (omega arith),
          )

-- Latch `l` has its reset value: 0 or 1, and any value if there is none.
abbrev pub HasReset : Assignment → ℕ → ℕ → Type 0
HasReset x l default_val = (default_val ≡ 0 → x l ≡ false) × (default_val ≡ 1 → x l ≡ true)

-- The latches from place `i` to place `k` have their reset values.
abbrev pub AigerResets : Assignment → ℕ → List AigerLatch → ℕ → ℕ → Type 0
AigerResets x num_inputs latches i k =
    (j : ℕ)
    → i ≤ j
    → j < k
    → (a : AigerLatch) → get_elem? latches j ≡ some a
    → HasReset x (2 + num_inputs + j) a.default_val

abbrev AllHold : Assignment → List ℤ → Type 0
AllHold x ls = All (λ l. holds x l ≡ true) ls

push_reset_same :
    (x : Assignment) (l default_val : ℕ) (init : List ℤ)
    → 0 < l
    → AllHold x (push_reset l default_val init) ↔ (AllHold x init × HasReset x l default_val)
unfolding push_reset holds
push_reset_same x l default_val init lt = elim (Bool-cases (default_val == 0)) [
  | inl zero_reset ↦ rw zero_reset (
    λ all. (
      All-left _ init _ all,
      (
        λ e. lower (All-right _ init (neg (pos l) ∷ []) all).0,
        λ e. absurd (ground (arith, zero_reset, e)),
      ),
    ),
    λ both. All-append _ init _ both.0 (raise (both.1.0 (ground (arith, zero_reset))), tt),
  )
  | inr nonzero ↦ elim (Bool-cases (default_val == 1)) [
    | inl one_reset ↦
        rw (nonzero, one_reset)
          (
            λ all. (
              All-left _ init _ all,
              (
                λ e. absurd (ground (arith, nonzero, e)),
                λ e. (All-right _ init (pos l ∷ []) all).0,
              ),
            ),
            λ both. All-append _ init _ both.0 (both.1.1 (ground (arith, one_reset)), tt),
          )
    | inr none_reset ↦
        rw (nonzero, none_reset)
          (
            λ all. (
              all,
              (
                λ e. absurd (ground (arith, nonzero, e)),
                λ e. absurd (ground (arith, none_reset, e)),
              ),
            ),
            λ both. both.0,
          )
  ]
]
  where
    lower : holds x (neg (pos l)) ≡ true → x l ≡ false
    lower h = ground (arith, h, holds-neg x (pos l) lt)

    raise : x l ≡ false → holds x (neg (pos l)) ≡ true
    raise h = holds-neg x (pos l) lt ∙ ap not h

module _ (x : Assignment) (bound num_inputs : ℕ) (latches : List AigerLatch) where
  pub load_resets_means :
      (n i : ℕ) (nexts nexts' init init' : List ℤ)
      → HasLatches bound num_inputs (i + n) latches
      → load_resets num_inputs n i latches nexts init ≡ some (nexts', init')
      → AllHold x init' ↔ (AllHold x init × AigerResets x num_inputs latches i (i + n))
  unfolding load_resets
  load_resets_means zero i nexts nexts' init init' h e =
      let same : init ≡ init' = cc in
      rw (← same) (λ all. (all, λ j lo hi. absurd (omega arith)), λ both. both.0)
  load_resets_means (suc n) i nexts nexts' init init' h e =
      let (a, found, is_l, _) = h i (omega arith) in
      let l = 2 + num_inputs + i in
      let test = ==_true ((num_inputs + suc i) * 2) a.l (omega arith) in
      let rest =
        load_resets_means n (suc i) (nexts ++ aiger_to_dimacs (pos a.next) ∷ []) nexts'
          (push_reset l a.default_val init) init' (λ j lt. h j (omega arith))
          (rw (found, test, load_resets) at e) in
      let pushed = push_reset_same x l a.default_val init (omega arith) in
      (
        λ all.
            let (before, later) = rest.0 all in
            let (old, here) = pushed.0 before in (old, earliest a found here later),
        λ both. rest.1 (
          pushed.1 (both.0, both.1 i (omega arith) (omega arith) a found),
          λ j lo hi. both.1 j (omega arith) (omega arith),
        ),
      )
    where
      earliest :
          (a : AigerLatch)
          → get_elem? latches i ≡ some a
          → HasReset x (2 + num_inputs + i) a.default_val
          → AigerResets x num_inputs latches (suc i) (suc i + n)
          → AigerResets x num_inputs latches i (i + suc n)
      earliest a found here later j lo hi b at_j = elim (dec_lt i j) [
        | yes after ↦ later j after (omega arith) b at_j
        | no first ↦
            let same : j ≡ i = omega arith in let a_same : a ≡ b = cc in rw (same, ← a_same) here
      ]

-- The translation of a circuit that is loaded as the AIGER format promises returns a circuit, such
-- that an assignment, which gives AIGER variable v the value of variable v + 1, satisfies the
-- translated gates exactly if it satisfies all AIGER gates, and is an initial state exactly if every
-- latch whose reset value is 0 or 1 has that value.
pub translate_to_dimacs_means :
    (c : Aiger) (bound : ℕ) (x : Assignment)
    → IsLoaded c bound
    → (d : Aiger) × (translate_to_dimacs c ≡ some d)
      × (All (GateHolds x) d.ands ↔ AigerGates x c.aiger_ands 0 c.num_ands)
      × (IsInitial d x ↔ AigerResets x c.num_inputs c.aiger_latches 0 c.num_latches)
translate_to_dimacs_means c bound x h =
    let (d, t) = translate_to_dimacs-IsTranslation c bound h in
    let gates =
      load_ands_means x (c.num_inputs + c.num_latches) c.aiger_ands c.num_ands 0 t.variables_before
        d.variables [] d.ands (λ j lt. h.gates j (omega arith)) t.ands_from in
    let resets =
      load_resets_means x bound c.num_inputs c.aiger_latches c.num_latches 0 [] d.nexts []
        d.init_state (λ j lt. h.latches j (omega arith)) t.resets_from in
    (
      d,
      t.returns,
      (
        λ all j lo hi. (gates.0 all).1 j lo (omega arith),
        λ all. gates.1 (tt, λ j lo hi. all j lo (omega arith)),
      ),
      (
        λ all j lo hi. (resets.0 all).1 j lo (omega arith),
        λ all. resets.1 (tt, λ j lo hi. all j lo (omega arith)),
      ),
    )

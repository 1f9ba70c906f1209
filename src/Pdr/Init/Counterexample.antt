-- ===== src/Pdr/Init/Counterexample.antt =====
-- PDR::check_BMC0 finds a bad initial state exactly if there is one.
use modelchecker.Common.{
  ℕ, zero, suc, ◌+◌, ◌≤◌, ◌<◌, ◌≡◌, refl, sym, ◌∙◌, ap, Bool, true, false, Option, none, some,
  Option-cases, List, [], ◌∷◌, ◌++◌, ℤ, pos, abs, neg, All, All-append, All-left, All-right, arith,
  Bool-cases, inl, inr, ◌⊎◌, if◌then◌else◌,
}
use native.Mathlib.Decide.{ℕ_discrete, dec_lt}
use modelchecker.Circuit.{Assignment, holds, holds-neg}
use modelchecker.Circuit.Settle.{settle, settle_below, holds-agree}
use modelchecker.Circuit.Unique.{settle-eq, settle-agree}
use modelchecker.Circuit.Run.{IsVar, IsReset, IsWellFormed, IsFrame, IsInitial, num_variables}
use modelchecker.Aiger.{Aiger, first_latch, first_ands_index}
use modelchecker.Sat.{Clause, Answer, sat, unsat, terminated}
use modelchecker.Sat.Laws.{Satisfies, AllTrue, Completes, IsSolver}
use modelchecker.Pdr.Init.{
  init_clauses, bad_clauses, State, push_val, read_vals, state_of, found, none_found, check_bmc0,
}
use modelchecker.Pdr.Init.Exact.{
  AllTrue-agree, init_clauses-Satisfies, bad_clauses-Satisfies, settle-IsFrame, settle-IsInitial,
  settle-constraints, settle-bad, constant_false,
}

pub Answer-cases :
    (r : Answer)
    → ((val : ℕ → Option Bool) × (r ≡ sat val))
      ⊎ ((failed : ℤ → Bool) × (r ≡ unsat failed))
      ⊎ (r ≡ terminated)
Answer-cases (sat val) = inl (val, refl)
Answer-cases (unsat failed) = inr (inl (failed, refl))
Answer-cases terminated = inr (inr refl)

-- The reported values, and those of `x` where none is reported.
unfoldable pub complete : (ℕ → Option Bool) → Assignment → Assignment
complete val x v = elim (val v) [ none ↦ x v | some b ↦ b ]

pub complete-Completes : (val : ℕ → Option Bool) (x : Assignment) → Completes (complete val x) val
unfolding complete
complete-Completes val x v b e = rw (e, complete) refl

-- An assignment in which the literals of the reported values hold has those values.
pub read_vals-complete :
    (val : ℕ → Option Bool) (x : Assignment) (n v w : ℕ)
    → 1 ≤ v
    → AllTrue x (read_vals val n v)
    → v ≤ w
    → w < v + n
    → complete val x w ≡ x w
unfolding read_vals push_val complete
read_vals-complete val x zero v w one h lo hi = absurd (omega arith)
read_vals-complete val x (suc n) v w one h lo hi = elim (ℕ_discrete v w) [
  | yes same ↦ rw (← same) (elim (Option-cases (val v)) [
    | inl e ↦ rw (e, complete) refl
    | inr (b, e) ↦ rw (e, complete) (here b (rw (e, push_val) at h))
  ])
  | no other ↦
      read_vals-complete val x n (suc v) w (omega arith) (rest (Option-cases (val v))) (omega arith)
        (omega arith)
]
  where
    rest : (val v ≡ none) ⊎ ((b : Bool) × (val v ≡ some b)) → AllTrue x (read_vals val n (suc v))
    rest (inl e) = rw (e, push_val) at h
    rest (inr (b, e)) = (rw (e, push_val) at h).1

    here :
        (b : Bool)
        → AllTrue x ((if b then pos v else neg (pos v)) ∷ read_vals val n (suc v))
        → b ≡ x v
    here true t = unfold holds in sym t.0
    here false t =
        let e = holds-neg x (pos v) one in let h' = t.0 in unfold holds in ground (arith, e, h')

-- Every frame in which the literals of the state hold is an initial one, satisfies the constraints and
-- is bad.
abbrev pub IsBadStart : Aiger → Assignment → Type 0
IsBadStart c x = IsFrame c x × IsInitial c x × AllTrue x c.constraints × (holds x c.bad ≡ true)

abbrev pub Matches : State → Assignment → Type 0
Matches s x = AllTrue x s.inputs × AllTrue x s.latches

module _ (c : Aiger) (well : IsWellFormed c) (bad : IsVar (num_variables c) c.bad)
    (val : ℕ → Option Bool)
    (right : (σ : Assignment)
      → Completes σ val
      → Satisfies σ (init_clauses c ++ bad_clauses c) × AllTrue σ (c.bad ∷ [])) where
  completed : Assignment → Assignment
  completed x = settle c.ands (complete val x)

  completed-IsBadStart : (x : Assignment) → IsBadStart c (completed x)
  unfolding completed
  completed-IsBadStart x =
      let σ = complete val x in
      let (clauses, is_bad) = right σ (complete-Completes val x) in
      let init = All-left _ (init_clauses c) (bad_clauses c) clauses in
      (
        settle-IsFrame c well σ init,
        settle-IsInitial c well σ init,
        settle-constraints c well σ init,
        settle-bad c well σ (All-right _ (init_clauses c) (bad_clauses c) clauses) ∙ is_bad.0,
      )

  -- A frame with the state's literals is what its values evaluate to.
  completed-eq :
      (x : Assignment)
      → IsFrame c x
      → Matches (state_of c val) x
      → (v : ℕ) → 1 ≤ v
      → v < num_variables c
      → x v ≡ completed x v
  unfolding completed state_of
  completed-eq x frame (ins, lat) v one lt =
      let same = settle-eq c.ands x frame.gates in
      ap (λ (a : Assignment). a v) (sym same)
      ∙ settle-agree (first_ands_index c) c.ands x (complete val x) well.ordered leaves v one lt
    where
      leaves : (w : ℕ) → 1 ≤ w → w < first_ands_index c → x w ≡ complete val x w
      leaves zero one' lt' = absurd (omega arith)
      leaves (suc zero) one' lt' =
          let (clauses, _) = right (complete val x) (complete-Completes val x) in
          let init = All-left _ (init_clauses c) (bad_clauses c) clauses in
          frame.constant ∙ sym (constant_false c (complete val x) init)
      leaves (suc (suc w)) one' lt' = elim (dec_lt (suc (suc w)) (first_latch c)) [
        | yes input ↦ sym (
            read_vals-complete val x c.num_inputs 2 (suc (suc w)) (omega arith) ins (omega arith)
              (omega arith))
        | no latch ↦ sym (
            read_vals-complete val x c.num_latches (first_latch c) (suc (suc w)) (omega arith) lat
              (omega arith) (omega arith))
      ]

  -- What is known of the completed frame holds of the frame with the state's literals.
  matching-IsBadStart : (x : Assignment) → IsFrame c x → Matches (state_of c val) x → IsBadStart c x
  matching-IsBadStart x frame m =
      let (_, initial, cons, is_bad) = completed-IsBadStart x in
      let same = completed-eq x frame m in
      (
        frame,
        AllTrue-agree (completed x) x c.init_state
            (reset_vars (first_latch c) c.init_state (omega arith) well.reset same) initial,
        AllTrue-agree (completed x) x c.constraints
            (in_vars c.constraints well.constraint_vars same) cons,
        holds-agree x (completed x) c.bad (same (abs c.bad) bad.0 bad.1) ∙ is_bad,
      )
    where
      reset_vars :
          (m : ℕ) (ls : List ℤ)
          → 1 ≤ m
          → IsReset m (first_ands_index c) ls
          → ((v : ℕ) → 1 ≤ v → v < num_variables c → x v ≡ completed x v)
          → All (λ l. x (abs l) ≡ completed x (abs l)) ls
      reset_vars m [] one h same = tt
      reset_vars m (l ∷ ls) one (a, b, h) same = (
        same (abs l) (omega arith) (omega arith),
        reset_vars (suc (abs l)) ls (omega arith) h same,
      )

      in_vars :
          (ls : List ℤ)
          → All (IsVar (num_variables c)) ls
          → ((v : ℕ) → 1 ≤ v → v < num_variables c → x v ≡ completed x v)
          → All (λ l. x (abs l) ≡ completed x (abs l)) ls
      in_vars [] h same = tt
      in_vars (l ∷ ls) ((a, b), h) same = (same (abs l) a b, in_vars ls h same)

  completed_value :
      (x : Assignment) (v : ℕ) (b : Bool)
      → 1 ≤ v
      → v < first_ands_index c
      → val v ≡ some b
      → holds (completed x) (if b then pos v else neg (pos v)) ≡ true
  unfolding completed holds
  completed_value x v b lo hi e =
      let below = settle_below (first_ands_index c) c.ands (complete val x) v well.ordered hi in
      let value = complete-Completes val x v b e in
      let flip = holds-neg (completed x) (pos v) lo in ground (arith, below, value, flip)

  completed-AllTrue :
      (x : Assignment) (n v : ℕ)
      → 1 ≤ v
      → v + n ≤ first_ands_index c
      → AllTrue (completed x) (read_vals val n v)
  unfolding read_vals push_val
  completed-AllTrue x zero v lo hi = tt
  completed-AllTrue x (suc n) v lo hi =
      let later = completed-AllTrue x n (suc v) (omega arith) (omega arith) in
      elim (Option-cases (val v)) [
        | inl e ↦ rw (e, push_val) later
        | inr (b, e) ↦ rw (e, push_val) (completed_value x v b lo (omega arith) e, later)
      ]

  -- The literals of the state hold in every completed frame.
  completed-Matches : (x : Assignment) → Matches (state_of c val) (completed x)
  unfolding state_of
  completed-Matches x = (
    completed-AllTrue x c.num_inputs 2 (omega arith) (omega arith),
    completed-AllTrue x c.num_latches (first_latch c) (omega arith) (omega arith),
  )

-- For a solver that keeps its laws and a well-formed circuit:
-- what check_BMC0 returns is right, whatever the first answer of the solver is: the state it finds
-- matches some frame, and every frame that matches it, whatever the inputs and latches are that it leaves
-- open, is initial, satisfies the constraints and is bad; and if it finds none, then no initial frame
-- in which the constraints hold is bad.
pub check_bmc0_right :
    (solve : ℕ → List Clause → List ℤ → Answer) (c : Aiger)
    → IsSolver solve
    → IsWellFormed c
    → IsVar (num_variables c) c.bad
    → ((s : State) × (check_bmc0 solve c ≡ found s)
        × ((x : Assignment) × IsFrame c x × Matches s x)
        × ((x : Assignment) → IsFrame c x → Matches s x → IsBadStart c x))
      ⊎ ((check_bmc0 solve c ≡ none_found)
          × ((x : Assignment)
              → IsFrame c x
              → IsInitial c x
              → AllTrue x c.constraints
              → holds x c.bad ≡ false))
unfolding check_bmc0
check_bmc0_right solve c law well bad =
    elim (Answer-cases (solve 0 (init_clauses c ++ bad_clauses c) (c.bad ∷ []))) [
      | inl (val, e) ↦
          let right = λ (σ : Assignment) (h : Completes σ val). law.sat_right 0 _ _ val σ e h in
          inl (
            state_of c val,
            rw (e, check_bmc0) refl,
            (
              completed c well bad val right (λ v. false),
              (completed-IsBadStart c well bad val right (λ v. false)).0,
              completed-Matches c well bad val right (λ v. false),
            ),
            matching-IsBadStart c well bad val right,
          )
      | inr (inl (failed, e)) ↦
          inr
            (rw (e, check_bmc0) refl, λ x frame initial cons. not_bad failed e x frame initial cons)
      | inr (inr e) ↦ absurd (law.answers 0 _ _ e)
    ]
  where
    not_bad :
        (failed : ℤ → Bool)
        → solve 0 (init_clauses c ++ bad_clauses c) (c.bad ∷ []) ≡ unsat failed
        → (x : Assignment) → IsFrame c x
        → IsInitial c x
        → AllTrue x c.constraints
        → holds x c.bad ≡ false
    not_bad failed e x frame initial cons = elim (Bool-cases (holds x c.bad)) [
      | inl is_bad ↦ absurd (
          law.unsat_right 0 _ _ failed x e
            (All-append _ (init_clauses c) (bad_clauses c)
              (init_clauses-Satisfies c well x frame initial cons)
              (bad_clauses-Satisfies c well x frame))
            (λ w. is_bad, tt))
      | inr fine ↦ fine
    ]

-- ===== src/Pdr/Init/Exact.antt =====
-- The clauses of the initial states are exact: they hold of the initial frames that satisfy the
-- constraints, and only of assignments that evaluate to one.
use modelchecker.Common.{
  ℕ, suc, ◌<◌, ◌≡◌, refl, ◌∙◌, true, false, List, [], ◌∷◌, ◌==◌, ℤ, abs, All, All-append, All-left,
  All-right, arith,
}
use modelchecker.Circuit.{Assignment, holds}
use modelchecker.Circuit.Settle.{settle, settle_below, settle-GateHolds, holds-agree}
use modelchecker.Circuit.Run.{IsReset, IsWellFormed, IsFrame, IsInitial}
use modelchecker.Aiger.{Aiger, first_latch, first_ands_index}
use modelchecker.Sat.{clause_holds}
use modelchecker.Sat.Laws.{Satisfies, AllTrue, units, units-Satisfies, Satisfies-units}
use modelchecker.Sat.Cone.{
  cone_clauses, var_set, cone_clauses-Satisfies, settle-AgreeOn, cone_set-le,
}
use modelchecker.Pdr.Init.{init_clauses, bad_clauses}

-- A literal whose variable keeps its value keeps its truth.
pub AllTrue-agree :
    (σ τ : Assignment) (ls : List ℤ)
    → All (λ l. τ (abs l) ≡ σ (abs l)) ls
    → AllTrue σ ls
    → AllTrue τ ls
AllTrue-agree σ τ [] h t = tt
AllTrue-agree σ τ (l ∷ ls) (e, h) (t, ts) = (holds-agree τ σ l e ∙ t, AllTrue-agree σ τ ls h ts)

var_set-All :
    (P : ℕ → Type 0) (ls : List ℤ) → ((v : ℕ) → var_set ls v ≡ true → P v) → All (λ l. P (abs l)) ls
unfolding var_set
var_set-All P [] h = tt
var_set-All P (l ∷ ls) h =
    (h (abs l) (ground arith), var_set-All P ls (λ v e. h v (ground (arith, e))))

pub reset_below :
    (P : ℕ → Type 0) (m end : ℕ) (ls : List ℤ)
    → IsReset m end ls
    → ((v : ℕ) → v < end → P v)
    → All (λ l. P (abs l)) ls
reset_below P m end [] h p = tt
reset_below P m end (l ∷ ls) (a, b, h) p = (p (abs l) b, reset_below P (suc (abs l)) end ls h p)

pub constant_false : (c : Aiger) (σ : Assignment) → Satisfies σ (init_clauses c) → σ 1 ≡ false
unfolding init_clauses clause_holds holds
constant_false c σ h = let one = h.0 in ground (arith, one)

module _ (c : Aiger) (well : IsWellFormed c) where
  -- An initial frame satisfies the clauses, if the constraints hold in it.
  pub init_clauses-Satisfies :
      (x : Assignment)
      → IsFrame c x
      → IsInitial c x
      → AllTrue x c.constraints
      → Satisfies x (init_clauses c)
  unfolding init_clauses clause_holds holds
  init_clauses-Satisfies x frame initial cons =
      let one = frame.constant in
      (
        ground (arith, one),
        All-append _ (units c.init_state) _ (units-Satisfies x c.init_state initial) (
            All-append _ (units c.constraints) _ (units-Satisfies x c.constraints cons) (
              cone_clauses-Satisfies (first_ands_index c) c.ands (var_set c.constraints) x
                (omega arith) well.ordered frame.gates)),
      )

  pub bad_clauses-Satisfies : (x : Assignment) → IsFrame c x → Satisfies x (bad_clauses c)
  unfolding bad_clauses
  bad_clauses-Satisfies x frame =
      cone_clauses-Satisfies (first_ands_index c) c.ands (λ v. abs c.bad == v) x (omega arith)
        well.ordered frame.gates

  module _ (σ : Assignment) (h : Satisfies σ (init_clauses c)) where
    below : (v : ℕ) → v < first_ands_index c → settle c.ands σ v ≡ σ v
    below v lt = settle_below (first_ands_index c) c.ands σ v well.ordered lt

    pub settle-IsFrame : IsFrame c (settle c.ands σ)
    settle-IsFrame = record {
      constant = below 1 (omega arith) ∙ constant_false c σ h;
      gates = settle-GateHolds (first_ands_index c) c.ands σ well.ordered;
    }

    pub settle-IsInitial : IsInitial c (settle c.ands σ)
    unfolding init_clauses
    settle-IsInitial =
        AllTrue-agree σ (settle c.ands σ) c.init_state
          (reset_below (λ v. settle c.ands σ v ≡ σ v) (first_latch c) (first_ands_index c)
            c.init_state well.reset below)
          (Satisfies-units σ c.init_state (All-left _ (units c.init_state) _ h.1))

    pub settle-constraints : AllTrue (settle c.ands σ) c.constraints
    unfolding init_clauses
    settle-constraints =
        let rest = All-right _ (units c.init_state) _ h.1 in
        let cone =
          All-right _ (units c.constraints) (cone_clauses c.ands (var_set c.constraints)) rest in
        let agree =
          settle-AgreeOn (first_ands_index c) c.ands (var_set c.constraints) σ σ (omega arith)
            well.ordered cone (λ v e. refl) in
        AllTrue-agree σ (settle c.ands σ) c.constraints
          (var_set-All (λ v. settle c.ands σ v ≡ σ v) c.constraints
            (λ v e. agree v (cone_set-le c.ands (var_set c.constraints) v e)))
          (Satisfies-units σ c.constraints (All-left _ (units c.constraints) _ rest))

  -- The clauses of encode_bad_state give the bad literal its meaning.
  pub settle-bad :
      (σ : Assignment) → Satisfies σ (bad_clauses c) → holds (settle c.ands σ) c.bad ≡ holds σ c.bad
  unfolding bad_clauses
  settle-bad σ h =
      let agree =
        settle-AgreeOn (first_ands_index c) c.ands (λ v. abs c.bad == v) σ σ (omega arith)
          well.ordered h (λ v e. refl) in
      holds-agree (settle c.ands σ) σ c.bad
        (agree (abs c.bad) (cone_set-le c.ands (λ v. abs c.bad == v) (abs c.bad) (ground arith)))

-- Every initial frame of a well-formed circuit in which the constraints hold satisfies the clauses of
-- encode_init_condition; and every assignment that satisfies them evaluates, through the gates, to an
-- initial frame in which the constraints hold, with the same inputs and latches.
pub init_clauses_exact :
    (c : Aiger) (x σ : Assignment)
    → IsWellFormed c
    → (IsFrame c x × IsInitial c x × AllTrue x c.constraints → Satisfies x (init_clauses c))
      × (Satisfies σ (init_clauses c)
          → IsFrame c (settle c.ands σ)
            × IsInitial c (settle c.ands σ)
            × AllTrue (settle c.ands σ) c.constraints
            × ((v : ℕ) → v < first_ands_index c → settle c.ands σ v ≡ σ v))
init_clauses_exact c x σ well = (
  λ (frame, initial, cons). init_clauses-Satisfies c well x frame initial cons,
  λ h. (
    settle-IsFrame c well σ h,
    settle-IsInitial c well σ h,
    settle-constraints c well σ h,
    λ v lt. settle_below (first_ands_index c) c.ands σ v well.ordered lt,
  ),
)

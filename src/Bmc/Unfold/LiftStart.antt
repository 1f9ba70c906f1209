-- ===== src/Bmc/Unfold/LiftStart.antt =====
-- Every initial state of the circuit is one of those that BMC::initialize unfolds.
use modelchecker.Common.{
  ℕ, zero, suc, ◌+◌, ◌≤◌, ◌<◌, ◌≡◌, inl, inr, refl, ap, ◌∙◌, true, false, Bool, Bool-cases, List,
  [], ◌∷◌, ◌++◌, arith, ℤ, pos, negsuc, abs, ltb, ◌==ℤ◌, length, get_or, set, replicate, All,
  length-append, length-set, get_or-set_self, get_or-set_other,
}
use native.Mathlib.Decide.{dec_lt, ℕ_discrete}
use modelchecker.Circuit.{Assignment, holds, IsLiteral}
use modelchecker.Circuit.Run.{IsReset, IsWellFormed, IsInitial}
use modelchecker.Aiger.{Aiger, first_latch, first_ands_index}
use modelchecker.Bmc.AndGate.Bounds.{IsSmall}
use modelchecker.Bmc.Unfold.{Unfolding, init_latches, input_node, start, blank, reset_values}
use modelchecker.Bmc.Unfold.Extends.{Respects}
use modelchecker.Bmc.Unfold.Bounds.{IsBounded, set-IsSmall, IsSmall-weaken}
use modelchecker.Bmc.Unfold.Lift.{holds-SameBelow, Lift}
use modelchecker.Bmc.Unfold.LiftGates.{Lift-refl, Lift-trans}
use modelchecker.Bmc.Unfold.LiftInputs.{push_node-Lift}
use modelchecker.Bmc.Unfold.LiftFrame.{ReadsLatches}
use modelchecker.Bmc.Unfold.Reset.{
  length-replicate, length-reset_values, reset_one, length-reset_one, reset_one_self,
  reset_one_other, start_literal,
}
use modelchecker.Bmc.Unfold.Start.{fill, length-fill, fill_other, init_latches-InitLatches}

-- The latches that have a literal already read `x`.
abbrev ReadsLiterals : Assignment → Assignment → ℕ → List ℤ → Type 0
ReadsLiterals σ x v values =
    (k : ℕ) → v ≤ k → IsLiteral (get_or values k (pos 0)) → holds σ (get_or values k (pos 0)) ≡ x k

fill-IsSmall : (n v : ℕ) (values : List ℤ) → IsSmall n values → IsSmall (suc n) (fill n v values)
fill-IsSmall n v values h = elim (Bool-cases (get_or values v (pos 0) ==ℤ pos 0)) [
  | inl empty ↦
      unfold fill in
      rw empty (
        set-IsSmall (suc n) values v (pos n) (IsSmall-weaken n (suc n) values h (omega arith))
          (omega arith))
  | inr full ↦ unfold fill in rw full (IsSmall-weaken n (suc n) values h (omega arith))
]

-- After the loop's round, the latch of variable `v` reads `b`.
fill_reads :
    (τ : Assignment) (n v : ℕ) (values : List ℤ) (b : Bool)
    → v < length values
    → τ n ≡ b
    → (IsLiteral (get_or values v (pos 0)) → holds τ (get_or values v (pos 0)) ≡ b)
    → holds τ (get_or (fill n v values) v (pos 0)) ≡ b
fill_reads τ n v values b room new old = elim (Bool-cases (get_or values v (pos 0) ==ℤ pos 0)) [
  | inl empty ↦ unfold fill holds in rw (empty, get_or-set_self values v (pos n) (pos 0) room) new
  | inr full ↦ unfold fill in rw full (old (nonzero (get_or values v (pos 0)) full))
]
  where
    nonzero : (l : ℤ) → (l ==ℤ pos 0) ≡ false → IsLiteral l
    nonzero l h = ground arith

record StartLift (σ x : Assignment) (n v : ℕ) (u w : Unfolding) : Type 0 where
  lift : Lift σ (length u.nodes) w
  reads : (k : ℕ) → v ≤ k → k < v + n → holds lift.lifted (get_or w.values k (pos 0)) ≡ x k

-- The literals of the later latches read `x` under the lifted assignment too.
later_literals :
    (σ τ x : Assignment) (n v : ℕ) (values : List ℤ)
    → ((k : ℕ) → holds τ (get_or values k (pos 0)) ≡ holds σ (get_or values k (pos 0)))
    → ReadsLiterals σ x v values
    → ReadsLiterals τ x (suc v) (fill n v values)
later_literals σ τ x n v values kept old k lo lit =
    let e = fill_other n v k values (omega arith) in
    rw e (kept k ∙ old k (omega arith) (rw e at lit))

init_latches-Lift :
    (σ x : Assignment) (n v : ℕ) (u : Unfolding)
    → IsBounded u
    → Respects σ u
    → ReadsLiterals σ x v u.values
    → v + n ≤ length u.values
    → StartLift σ x n v u (init_latches n v u)
unfolding init_latches fill
init_latches-Lift σ x zero v u b respects old room = record {
  lift = Lift-refl σ u b respects;
  reads = λ k lo hi. absurd (omega arith);
}
init_latches-Lift σ x (suc n) v u b respects old room =
    let m = length u.nodes in
    let filled = fill m v u.values in
    let u' = record u { nodes = u.nodes ++ input_node ∷ []; values = filled } in
    let small = fill-IsSmall m v u.values b.small in
    let (one, new) = push_node-Lift σ u u' input_node (x v) b respects refl refl refl small in
    let τ = one.lifted in
    let kept : (k : ℕ) → holds τ (get_or u.values k (pos 0)) ≡ holds σ (get_or u.values k (pos 0)) =
      λ k. holds-SameBelow m σ τ (get_or u.values k (pos 0)) one.same (b.small k) in
    let rest =
      init_latches-Lift τ x n (suc v) u' one.bounded one.respects
        (later_literals σ τ x m v u.values kept old) (rw length-fill (omega arith)) in
    record {
      lift = Lift-trans one rest.lift;
      reads = λ k lo hi. elim (dec_lt v k) [
        | yes later ↦ rest.reads k (omega arith) (omega arith)
        | no here ↦
            let same : k ≡ v = omega arith in
            rw
              (
                same,
                (init_latches-InitLatches n (suc v) u' (rw length-append (omega arith))).below v
                    (omega arith),
              )
              (holds-SameBelow (suc m) τ rest.lift.lifted (get_or filled v (pos 0))
                  (λ i lt. rest.lift.same i (rw length-append (omega arith))) (small v)
                ∙ fill_reads τ m v u.values (x v) (omega arith) new
                    (λ lit. kept v ∙ old v (omega arith) lit))
      ];
    }

-- A reset value that holds in `x` gives its latch a literal that reads `x`.
reset_one-ReadsLiterals :
    (σ x : Assignment) (v : ℕ) (l : ℤ) (values : List ℤ)
    → σ 1 ≡ false
    → IsLiteral l
    → abs l < length values
    → holds x l ≡ true
    → ReadsLiterals σ x v values
    → ReadsLiterals σ x v (reset_one l values)
reset_one-ReadsLiterals σ x v l values c lit room h old k lo klit = elim (ℕ_discrete (abs l) k) [
  | yes same ↦ rw (← same, reset_one_self l values lit room) (reads l lit h)
  | no other ↦ let e = reset_one_other l values k other in rw e (old k lo (rw e at klit))
]
  where
    reads : (l : ℤ) → IsLiteral l → holds x l ≡ true → holds σ (start_literal l) ≡ x (abs l)
    reads l lit h = unfold holds in ground arith

reset_values-ReadsLiterals :
    (σ x : Assignment) (v n end : ℕ) (ls values : List ℤ)
    → σ 1 ≡ false
    → 0 < n
    → IsReset n end ls
    → end ≤ length values
    → All (λ l. holds x l ≡ true) ls
    → ReadsLiterals σ x v values
    → ReadsLiterals σ x v (reset_values ls values)
unfolding reset_values
reset_values-ReadsLiterals σ x v n end [] values c pos_n r room h old = old
reset_values-ReadsLiterals σ x v n end (l ∷ ls) values c pos_n (lo, hi, r) room (h, hs) old =
    reset_values-ReadsLiterals σ x v (suc (abs l)) end ls (reset_one l values) c (omega arith) r
      (rw length-reset_one room) hs
      (reset_one-ReadsLiterals σ x v l values c (omega arith) (omega arith) h old)

reset_one-IsSmall : (l : ℤ) (values : List ℤ) → IsSmall 2 values → IsSmall 2 (reset_one l values)
reset_one-IsSmall (pos zero) values h = h
reset_one-IsSmall (pos (suc n)) values h =
    let positive : ltb 0 (suc n) ≡ true = ground arith in
    rw positive (set-IsSmall 2 values (suc n) (negsuc 0) h (omega arith))
reset_one-IsSmall (negsuc n) values h = set-IsSmall 2 values (suc n) (pos 1) h (omega arith)

reset_values-IsSmall : (ls values : List ℤ) → IsSmall 2 values → IsSmall 2 (reset_values ls values)
unfolding reset_values
reset_values-IsSmall [] values h = h
reset_values-IsSmall (l ∷ ls) values h =
    reset_values-IsSmall ls (reset_one l values) (reset_one-IsSmall l values h)

get_or-replicate : (n v : ℕ) → get_or (replicate n (pos 0)) v (pos 0) ≡ pos 0
get_or-replicate zero v = refl
get_or-replicate (suc n) zero = refl
get_or-replicate (suc n) (suc v) = get_or-replicate n v

blank-IsBounded : (c : Aiger) → IsBounded (blank c)
blank-IsBounded c = record {
  one = omega arith;
  small = reset_values-IsSmall c.init_state _ (
      set-IsSmall 2 _ 1 (pos 1) (λ v. rw (get_or-replicate (length c.variables) v) (omega arith))
        (omega arith));
  table = λ k. tt;
  ands = omega arith;
}

blank-ReadsLiterals :
    (c : Aiger) (x : Assignment)
    → IsWellFormed c
    → IsInitial c x
    → ReadsLiterals (λ _. false) x (first_latch c) (blank c).values
blank-ReadsLiterals c x well initial =
    reset_values-ReadsLiterals (λ _. false) x (first_latch c) (first_latch c) (first_ands_index c)
      c.init_state _ refl (omega arith) well.reset
      (rw (length-set, length-replicate, well.sized) (omega arith)) initial
      (λ k lo lit. absurd (empty k lo lit))
  where
    empty :
        (k : ℕ)
        → first_latch c ≤ k
        → ¬ IsLiteral (get_or (set (replicate (length c.variables) (pos 0)) 1 (pos 1)) k (pos 0))
    empty k lo lit = omega (
      arith,
      ap abs (
          get_or-set_other (replicate (length c.variables) (pos 0)) 1 k (pos 1) (pos 0)
            (omega arith)
          ∙ get_or-replicate (length c.variables) k),
    )

-- For every initial state there is an assignment whose first latches read it.
pub start-Lift :
    (c : Aiger) (x : Assignment)
    → IsWellFormed c
    → IsInitial c x
    → (σ : Assignment) × (σ 1 ≡ false)
      × Respects σ (start c)
      × IsBounded (start c)
      × ReadsLatches c σ x (start c)
unfolding start
start-Lift c x well initial =
    let h =
      init_latches-Lift (λ _. false) x c.num_latches (first_latch c) (blank c) (blank-IsBounded c)
        tt (blank-ReadsLiterals c x well initial) room in
    (
      h.lift.lifted,
      h.lift.same 1 (omega arith),
      h.lift.respects,
      h.lift.bounded,
      λ v lo hi. h.reads v lo (omega arith),
    )
  where
    room : first_latch c + c.num_latches ≤ length (blank c).values
    room = rw (length-reset_values, length-set, length-replicate, well.sized) (omega arith)

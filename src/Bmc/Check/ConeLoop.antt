-- ===== src/Bmc/Check/ConeLoop.antt =====
-- The loop over the gates, from the last one down: afterwards what was needed is defined.
use modelchecker.Common.{
  ℕ, zero, suc, ◌≤◌, ◌<◌, ◌≡◌, refl, sym, ◌∙◌, true, false, not, ◌||◌, Bool-cases, Option-cases,
  inl, inr, ◌⊎◌, none, some, List, [], ◌∷◌, ◌++◌, arith, abs, length, get_elem?, get_or, set,
  All-left, All-right, length-set, get_or-set_other,
}
use native.Mathlib.Decide.{ℕ_discrete}
use modelchecker.Circuit.{And, Assignment, GateHolds}
use modelchecker.Circuit.Order.{IsIncreasing}
use modelchecker.Sat.{gate_clauses}
use modelchecker.Sat.Laws.{Satisfies}
use modelchecker.Sat.Gates.{Satisfies-gate_clauses}
use modelchecker.Bmc.Solve.{Cone, cone_gate, cone_loop}
use modelchecker.Bmc.Check.Keeps.{increasing_inputs}
use modelchecker.Bmc.Check.Cone.{
  IsDefined, IsPending, Inserted, add-IsPending, skip-IsPending, input-IsPending,
}

module _ (end : ℕ) (gs : List And) (increasing : IsIncreasing 2 end gs) where
  record ConeInv (T : ℕ → Type 0) (n : ℕ) (s : Cone) : Type 0 where
    room : length gs ≤ length s.added.lit_has_insert
    targets : (v : ℕ) → T v → IsPending gs n s v
    inserted : Inserted gs (IsPending gs n s) s.added

  skip-ConeInv :
      (T : ℕ → Type 0) (i : ℕ) (a : And) (s : Cone)
      → get_elem? gs i ≡ some a
      → get_or s.added.lit_has_insert i false || not (s.lit_set a.o) ≡ true
      → ConeInv T (suc i) s
      → ConeInv T i s
  skip-ConeInv T i a s at skip h = record {
    room = h.room;
    targets = λ v t. skip-IsPending end gs increasing i a s v at skip (h.targets v t);
    inserted = record {
      inputs = λ k b e ins.
          let (left, right) = h.inserted.inputs k b e ins in
          (
            skip-IsPending end gs increasing i a s (abs b.i1) at skip left,
            skip-IsPending end gs increasing i a s (abs b.i2) at skip right,
          );
      gates = h.inserted.gates;
    };
  }

  get_elem?-lt : (xs : List And) (i : ℕ) (a : And) → get_elem? xs i ≡ some a → i < length xs
  get_elem?-lt [] i a e = cc
  get_elem?-lt (x ∷ xs) zero a e = omega arith
  get_elem?-lt (x ∷ xs) (suc i) a e = omega (arith, get_elem?-lt xs i a e)

  add-Inserted :
      (T : ℕ → Type 0) (i : ℕ) (a : And) (s : Cone)
      → get_elem? gs i ≡ some a
      → get_or s.added.lit_has_insert i false || not (s.lit_set a.o) ≡ false
      → ConeInv T (suc i) s
      → (k : ℕ) (b : And) → get_elem? gs k ≡ some b
      → get_or (set s.added.lit_has_insert i true) k false ≡ true
      → IsPending gs i (cone_gate i a s) (abs b.i1)
        × IsPending gs i (cone_gate i a s) (abs b.i2)
        × ((σ : Assignment) → Satisfies σ (s.added.clauses ++ gate_clauses a) → GateHolds σ b)
  add-Inserted T i a s at add h k b e ins = elim (ℕ_discrete i k) [
    | yes same ↦
        let here : a ≡ b = (let f = rw same at at in cc) in
        let (o, l1, _, l2, _, _) = increasing_inputs 2 end gs i a increasing at in
        rw (← here) (
          input-IsPending end gs increasing i a s (abs a.i1) at add (inl refl),
          input-IsPending end gs increasing i a s (abs a.i2) at add (inr refl),
          λ σ sat.
              Satisfies-gate_clauses σ a (omega arith, l1, l2)
                (All-right _ s.added.clauses (gate_clauses a) sat),
        )
    | no other ↦
        let before = sym (get_or-set_other s.added.lit_has_insert i k true false other) ∙ ins in
        let (left, right) = h.inserted.inputs k b e before in
        let room : i < length s.added.lit_has_insert =
          omega (arith, h.room, get_elem?-lt gs i a at) in
        (
          add-IsPending end gs increasing i a s (abs b.i1) room at add left,
          add-IsPending end gs increasing i a s (abs b.i2) room at add right,
          λ σ sat.
              h.inserted.gates k b e before σ (All-left _ s.added.clauses (gate_clauses a) sat),
        )
  ]

  add-ConeInv :
      (T : ℕ → Type 0) (i : ℕ) (a : And) (s : Cone)
      → get_elem? gs i ≡ some a
      → get_or s.added.lit_has_insert i false || not (s.lit_set a.o) ≡ false
      → ConeInv T (suc i) s
      → ConeInv T i (cone_gate i a s)
  unfolding cone_gate
  add-ConeInv T i a s at add h =
      let room : i < length s.added.lit_has_insert =
        omega (arith, h.room, get_elem?-lt gs i a at) in
      let known = add-Inserted T i a s at add h in
      record {
        room = rw (add, cone_gate) (rw length-set h.room);
        targets = λ v t. add-IsPending end gs increasing i a s v room at add (h.targets v t);
        inserted = record {
          inputs = λ k b e ins.
              let (left, right, _) = known k b e (rw (add, cone_gate) at ins) in (left, right);
          gates = λ k b e ins σ sat.
              let (_, _, gate) = known k b e (rw (add, cone_gate) at ins) in
              gate σ (rw (add, cone_gate) at sat);
        };
      }

  -- An index past the end has no gate.
  pass-IsPending :
      (i : ℕ) (s : Cone) (v : ℕ)
      → get_elem? gs i ≡ none
      → IsPending gs (suc i) s v
      → IsPending gs i s v
  pass-IsPending i s v at pending k b e eq = elim (pending k b e eq) [
    | inl there ↦ inl there
    | inr (lt, needed) ↦ elim (ℕ_discrete k i) [
      | no other ↦ inr (omega arith, needed)
      | yes same ↦ let f = rw same at e in cc
    ]
  ]

  pass-ConeInv :
      (T : ℕ → Type 0) (i : ℕ) (s : Cone)
      → get_elem? gs i ≡ none
      → ConeInv T (suc i) s
      → ConeInv T i s
  pass-ConeInv T i s at h = record {
    room = h.room;
    targets = λ v t. pass-IsPending i s v at (h.targets v t);
    inserted = record {
      inputs = λ k b e ins.
          let (left, right) = h.inserted.inputs k b e ins in
          (pass-IsPending i s (abs b.i1) at left, pass-IsPending i s (abs b.i2) at right);
      gates = h.inserted.gates;
    };
  }

  cone_loop-ConeInv :
      (T : ℕ → Type 0) (n : ℕ) (s : Cone) → ConeInv T n s → ConeInv T 0 (cone_loop n gs s)
  unfolding cone_loop
  cone_loop-ConeInv T zero s h = h
  cone_loop-ConeInv T (suc i) s h = elim (Option-cases (get_elem? gs i)) [
    | inl at ↦ rw (at, cone_loop) (cone_loop-ConeInv T i s (pass-ConeInv T i s at h))
    | inr (a, at) ↦
        rw (at, cone_loop)
          (cone_loop-ConeInv T i (cone_gate i a s)
            (elim (Bool-cases (get_or s.added.lit_has_insert i false || not (s.lit_set a.o))) [
              | inl skip ↦ unfold cone_gate in rw skip (skip-ConeInv T i a s at skip h)
              | inr add ↦ add-ConeInv T i a s at add h
            ]))
  ]

  -- The loop only adds clauses.
  pub cone_loop-clauses :
      (n : ℕ) (s : Cone) (σ : Assignment)
      → Satisfies σ (cone_loop n gs s).added.clauses
      → Satisfies σ s.added.clauses
  unfolding cone_loop cone_gate
  cone_loop-clauses zero s σ h = h
  cone_loop-clauses (suc i) s σ h = elim (Option-cases (get_elem? gs i)) [
    | inl at ↦ cone_loop-clauses i s σ (rw (at, cone_loop) at h)
    | inr (a, at) ↦
        gate_clauses_before a (cone_loop-clauses i (cone_gate i a s) σ (rw (at, cone_loop) at h))
  ]
    where
      gate_clauses_before :
          (a : And) → Satisfies σ (cone_gate i a s).added.clauses → Satisfies σ s.added.clauses
      gate_clauses_before a h =
          elim (Bool-cases (get_or s.added.lit_has_insert i false || not (s.lit_set a.o))) [
            | inl skip ↦ rw (skip, cone_gate) at h
            | inr add ↦ All-left _ s.added.clauses (gate_clauses a) (rw (add, cone_gate) at h)
          ]

  -- The whole loop: the variables of `T` and the inputs of all gates in the solver are defined.
  pub cone_loop-Inserted :
      (T : ℕ → Type 0) (s : Cone)
      → length gs ≤ length s.added.lit_has_insert
      → ((v : ℕ) → T v → (s.lit_set v ≡ true) ⊎ IsDefined gs s.added.lit_has_insert v)
      → Inserted gs (IsDefined gs s.added.lit_has_insert) s.added
      → let w = (cone_loop (length gs) gs s).added in
        ((v : ℕ) → T v → IsDefined gs w.lit_has_insert v)
        × Inserted gs (IsDefined gs w.lit_has_insert) w
  cone_loop-Inserted T s room targets ins =
      let end_inv = cone_loop-ConeInv T (length gs) s (record {
        room = room;
        targets = λ v t k b e eq. elim (targets v t) [
          | inl needed ↦ inr (get_elem?-lt gs k b e, needed)
          | inr there ↦ inl (there k b e eq)
        ];
        inserted = record {
          inputs = λ k b e there.
              let (left, right) = ins.inputs k b e there in
              (λ j d f eq. inl (left j d f eq), λ j d f eq. inl (right j d f eq));
          gates = ins.gates;
        };
      }) in
      (
        λ v t. done v (end_inv.targets v t),
        record {
          inputs = λ k b e there.
              let (left, right) = end_inv.inserted.inputs k b e there in
              (done (abs b.i1) left, done (abs b.i2) right);
          gates = end_inv.inserted.gates;
        },
      )
    where
      done :
          (v : ℕ)
          → IsPending gs 0 (cone_loop (length gs) gs s) v
          → IsDefined gs (cone_loop (length gs) gs s).added.lit_has_insert v
      done v pending k b e eq = elim (pending k b e eq) [
        | inl there ↦ there
        | inr (lt, _) ↦ absurd (omega arith)
      ]

-- ===== src/Bmc/Check/Added.antt =====
-- One more frame keeps what the solver has, and adds what its bad literal needs.
use modelchecker.Common.{
  ℕ, suc, ◌-◌, ◌≤◌, ◌<◌, ◌≡◌, refl, sym, ap, ◌∙◌, true, false, Bool, inl, inr, ◌⊎◌, some, List, [],
  ◌∷◌, ◌++◌, arith, ℤ, abs, length, get_elem?, get_or, replicate, All, All-append, length-append,
  ◌==◌,
}
use modelchecker.Circuit.{And, Assignment}
use modelchecker.Circuit.Run.{IsVar, IsWellFormed, num_variables}
use modelchecker.Aiger.{Aiger}
use modelchecker.Sat.Laws.{Satisfies, AllTrue}
use modelchecker.Bmc.Unfold.{Unfolding, unfold_frames, checked_bad}
use modelchecker.Bmc.AnyRun.{unfold_frames-IsBounded, unfold_frames_constraints-lt}
use modelchecker.Bmc.Solve.{
  SolverState, Cone, cone_loop, add_constraints, add_frame, last_from, back,
}
use modelchecker.Bmc.Check.Grows.{unfold_step-Grows}
use modelchecker.Bmc.Check.Keeps.{increasing_inputs}
use modelchecker.Bmc.Check.Cone.{IsDefined, Inserted}
use modelchecker.Bmc.Check.ConeLoop.{cone_loop-Inserted, cone_loop-clauses}
use modelchecker.Bmc.Check.Built.{
  last_from-append, append_cases, get_elem?-append, length-replicate, get_or-grown, get_or-lt,
  add_constraints_more, add_constraints_needed, add_constraints-clauses, length-cone_loop,
  new_constraints, Built,
}

module _ (c : Aiger) (well : IsWellFormed c) (thread j : ℕ)
    (bad : IsVar (num_variables c) (checked_bad c thread)) (s : SolverState)
    (built : Built c (unfold_frames c thread j) s) where
  abbrev u : Unfolding
  u = unfold_frames c thread j

  abbrev w : Unfolding
  w = unfold_frames c thread (suc j)

  -- lit_has_insert, grown by the gates that are new
  abbrev grown : List Bool
  grown = s.lit_has_insert ++ replicate (length w.ands - length s.lit_has_insert) false

  unfoldable new_gates :
      (extra : List And) × (w.ands ≡ u.ands ++ extra) × All (λ g. length u.nodes ≤ g.o) extra
  unfolding unfold_frames
  new_gates = (unfold_step-Grows c thread u).ands

  -- Old variables that are defined still are.
  later-IsDefined :
      (v : ℕ) → v < length u.nodes → IsDefined u.ands s.lit_has_insert v → IsDefined w.ands grown v
  later-IsDefined v lt defined k b e eq =
      let (extra, split, news) = new_gates in
      get_or-grown s.lit_has_insert (length w.ands - length s.lit_has_insert) k
      ∙ elim (append_cases (λ g. length u.nodes ≤ g.o) u.ands extra k b news (rw split at e)) [
        | inl old ↦ defined k b old eq
        | inr new ↦ absurd (omega arith)
      ]

  -- A gate in the solver is an old one.
  old_gate :
      (k : ℕ) (b : And)
      → get_elem? w.ands k ≡ some b
      → get_or grown k false ≡ true
      → (get_elem? u.ands k ≡ some b) × (get_or s.lit_has_insert k false ≡ true)
  old_gate k b e there =
      let (extra, split, _) = new_gates in
      let before =
        sym (get_or-grown s.lit_has_insert (length w.ands - length s.lit_has_insert) k) ∙ there in
      let lt : k < length u.ands =
        omega (arith, get_or-lt s.lit_has_insert k before, built.small) in
      (sym (get_elem?-append u.ands extra k lt) ∙ (rw split at e), before)

  grown-Inserted :
      (clauses : List (List ℤ))
      → ((σ : Assignment) → Satisfies σ clauses → Satisfies σ s.clauses)
      → Inserted w.ands
          (IsDefined w.ands grown)
          (record { clauses = clauses; lit_has_insert = grown })
  grown-Inserted clauses more = record {
    inputs = λ k b e there.
        let (old, before) = old_gate k b e there in
        let (left, right) = built.inserted.inputs k b old before in
        let (_, _, b1, _, b2, lt) =
          increasing_inputs 2 (length u.nodes) u.ands k b
            (unfold_frames-IsBounded c well thread j bad).ands old in
        (
          later-IsDefined (abs b.i1) (omega arith) left,
          later-IsDefined (abs b.i2) (omega arith) right,
        );
    gates = λ k b e there σ h.
        let (old, before) = old_gate k b e there in
        built.inserted.gates k b old before σ (more σ h);
  }

  abbrev news : List ℤ
  news = last_from (length w.constraints - length c.constraints) w.constraints

  -- The constraints of the frame are the last ones.
  news-split : w.constraints ≡ u.constraints ++ news
  unfolding unfold_frames
  news-split =
      let (ls, split, count) = new_constraints c thread u in
      let here : length (u.constraints ++ ls) - length c.constraints ≡ length u.constraints =
        omega (arith, length-append u.constraints ls, count) in
      let last : news ≡ ls = rw (split, here) (last_from-append u.constraints ls) in rw last split

  abbrev first_cone : Cone
  first_cone = add_constraints news (record { lit_set = λ v. v == abs (back w.outputs); added = s })

  abbrev grown_cone : Cone
  grown_cone = record first_cone { added = record first_cone.added { lit_has_insert = grown } }

  -- The clauses and gates after the frame.
  abbrev after : SolverState
  after = (cone_loop (length w.ands) w.ands grown_cone).added

  after-eq : add_frame (length c.constraints) w s ≡ after
  unfolding add_frame
  after-eq = refl

  before_clauses : (σ : Assignment) → Satisfies σ first_cone.added.clauses → Satisfies σ s.clauses
  before_clauses σ h = (add_constraints-clauses news _ σ h).0

  abbrev Needed : ℕ → Type 0
  Needed v = (first_cone.lit_set v ≡ true) ⊎ IsDefined w.ands grown v

  looped :
      ((v : ℕ) → Needed v → IsDefined w.ands after.lit_has_insert v)
      × Inserted w.ands (IsDefined w.ands after.lit_has_insert) after
  looped =
      cone_loop-Inserted (length w.nodes) w.ands
        (unfold_frames-IsBounded c well thread (suc j) bad).ands Needed grown_cone
        (omega (
          arith,
          length-append s.lit_has_insert
              (replicate (length w.ands - length s.lit_has_insert) false),
          length-replicate (length w.ands - length s.lit_has_insert),
        ))
        (λ v n. n) (grown-Inserted first_cone.added.clauses before_clauses)

  -- The gate of the frame's bad literal is in the solver, and all gates that it needs.
  bad-IsDefined : IsDefined w.ands after.lit_has_insert (abs (back w.outputs))
  bad-IsDefined =
      looped.0 (abs (back w.outputs)) (inl (add_constraints_more news _ _ (ground arith)))

  olds-IsDefined :
      (ls : List ℤ)
      → All (λ l. IsDefined u.ands s.lit_has_insert (abs l)) ls
      → All (λ l. abs l < length u.nodes) ls
      → All (λ l. IsDefined w.ands after.lit_has_insert (abs l)) ls
  olds-IsDefined [] h lt = tt
  olds-IsDefined (l ∷ ls) (h, hs) (lt, lts) =
      (looped.0 (abs l) (inr (later-IsDefined (abs l) lt h)), olds-IsDefined ls hs lts)

  news-IsDefined :
      (ls : List ℤ)
      → All (λ l. first_cone.lit_set (abs l) ≡ true) ls
      → All (λ l. IsDefined w.ands after.lit_has_insert (abs l)) ls
  news-IsDefined [] h = tt
  news-IsDefined (l ∷ ls) (h, hs) = (looped.0 (abs l) (inl h), news-IsDefined ls hs)

  after-clauses :
      (σ : Assignment) → Satisfies σ after.clauses → (σ 1 ≡ false) × AllTrue σ w.constraints
  after-clauses σ h =
      let (old, trues) = add_constraints-clauses news _ σ (
        cone_loop-clauses (length w.nodes) w.ands
          (unfold_frames-IsBounded c well thread (suc j) bad).ands (length w.ands) grown_cone σ
          h) in
      let (constant, before) = built.clauses σ old in
      (constant, rw news-split (All-append _ u.constraints news before trues))

  after-Built : Built c w after
  after-Built = record {
    small = rw length-cone_loop (
        omega (
          arith,
          length-append s.lit_has_insert
              (replicate (length w.ands - length s.lit_has_insert) false),
          length-replicate (length w.ands - length s.lit_has_insert),
          ap length new_gates.1 ∙ length-append u.ands new_gates.0,
          built.small,
        ));
    inserted = looped.1;
    constraints = rw news-split (
        All-append _ u.constraints news
          (olds-IsDefined u.constraints built.constraints
            (unfold_frames_constraints-lt c well thread j bad))
          (news-IsDefined news (add_constraints_needed news _)));
    clauses = after-clauses;
  }

  -- The frame's clauses keep what is built, and define the bad literal.
  pub add_frame-Built :
      Built c w (add_frame (length c.constraints) w s)
      × IsDefined w.ands
          (add_frame (length c.constraints) w s).lit_has_insert
          (abs (back w.outputs))
  add_frame-Built = rw after-eq (after-Built, bad-IsDefined)

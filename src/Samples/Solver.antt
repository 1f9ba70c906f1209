-- ===== src/Samples/Solver.antt =====
-- A solver that tries all assignments, which shows that the laws of a solver can hold.
use modelchecker.Common.{
  ℕ, zero, suc, ◌≤◌, ◌<◌, ◌≡◌, ◌≢◌, refl, sym, ◌∙◌, ap, ap₂, Bool, true, false, ◌&&◌, ◌||◌, Option,
  none, some, List, [], ◌∷◌, ℤ, abs, ltb, if◌then◌else◌, Bool-cases, Option-cases, inl, inr, ◌⊎◌,
  All, arith, lt→ltb,
}
use Prim.Native.Nat.{max}
use native.Mathlib.Decide.{ℕ_discrete}
use modelchecker.Circuit.{Assignment, holds}
use modelchecker.Circuit.Settle.{update, update_self, update_other, holds-agree}
use modelchecker.Sat.{Clause, clause_holds, Answer, sat, unsat}
use modelchecker.Sat.Laws.{Satisfies, AllTrue, Completes, IsSolver}

-- All variables are below the bound.
abbrev clause_bound : Clause → ℕ
clause_bound [] = 0
clause_bound (l ∷ ls) = max (suc (abs l)) (clause_bound ls)

abbrev clauses_bound : List Clause → ℕ
clauses_bound [] = 0
clauses_bound (c ∷ cs) = max (clause_bound c) (clauses_bound cs)

unfoldable pub all_hold : Assignment → List Clause → Bool
unfolding clause_holds
all_hold σ [] = true
all_hold σ (c ∷ cs) = clause_holds σ c && all_hold σ cs

unfoldable pub all_true : Assignment → List ℤ → Bool
unfolding holds
all_true σ [] = true
all_true σ (l ∷ ls) = holds σ l && all_true σ ls

abbrev pub first_of : Option Assignment → Option Assignment → Option Assignment
first_of (some a) r = some a
first_of none r = r

-- All values of the variables below `k`.
unfoldable pub try_all : ℕ → Assignment → List Clause → List ℤ → Option Assignment
unfolding update
try_all zero σ cs assumed = if all_hold σ cs && all_true σ assumed then some σ else none
try_all (suc k) σ cs assumed =
    first_of (try_all k (update σ k true) cs assumed) (try_all k (update σ k false) cs assumed)

unfoldable pub bound_of : List Clause → List ℤ → ℕ
bound_of cs assumed = max (clauses_bound cs) (clause_bound assumed)

unfoldable pub brute_solve : ℕ → List Clause → List ℤ → Answer
brute_solve n cs assumed =
    let bound = bound_of cs assumed in
    elim (try_all bound (λ v. false) cs assumed) [
      | some σ ↦ sat (λ v. if ltb v bound then some (σ v) else none)
      | none ↦ unsat (λ l. true)
    ]

-- The tests read the variables below the bound.
clause_holds-agree :
    (σ τ : Assignment) (c : Clause)
    → ((v : ℕ) → v < clause_bound c → σ v ≡ τ v)
    → clause_holds σ c ≡ clause_holds τ c
unfolding clause_holds
clause_holds-agree σ τ [] h = refl
clause_holds-agree σ τ (l ∷ ls) h =
    ap₂ ◌||◌ (holds-agree σ τ l (h (abs l) (omega arith)))
      (clause_holds-agree σ τ ls (λ v lt. h v (omega arith)))

all_hold-agree :
    (σ τ : Assignment) (cs : List Clause)
    → ((v : ℕ) → v < clauses_bound cs → σ v ≡ τ v)
    → all_hold σ cs ≡ all_hold τ cs
unfolding all_hold
all_hold-agree σ τ [] h = refl
all_hold-agree σ τ (c ∷ cs) h =
    ap₂ ◌&&◌ (clause_holds-agree σ τ c (λ v lt. h v (omega arith)))
      (all_hold-agree σ τ cs (λ v lt. h v (omega arith)))

all_true-agree :
    (σ τ : Assignment) (ls : List ℤ)
    → ((v : ℕ) → v < clause_bound ls → σ v ≡ τ v)
    → all_true σ ls ≡ all_true τ ls
unfolding all_true
all_true-agree σ τ [] h = refl
all_true-agree σ τ (l ∷ ls) h =
    ap₂ ◌&&◌ (holds-agree σ τ l (h (abs l) (omega arith)))
      (all_true-agree σ τ ls (λ v lt. h v (omega arith)))

all_hold-Satisfies : (σ : Assignment) (cs : List Clause) → all_hold σ cs ≡ true → Satisfies σ cs
unfolding all_hold
all_hold-Satisfies σ [] h = tt
all_hold-Satisfies σ (c ∷ cs) h = (ground (arith, h), all_hold-Satisfies σ cs (ground (arith, h)))

Satisfies-all_hold : (σ : Assignment) (cs : List Clause) → Satisfies σ cs → all_hold σ cs ≡ true
unfolding all_hold
Satisfies-all_hold σ [] h = refl
Satisfies-all_hold σ (c ∷ cs) (h, hs) =
    let rest = Satisfies-all_hold σ cs hs in ground (arith, h, rest)

all_true-AllTrue : (σ : Assignment) (ls : List ℤ) → all_true σ ls ≡ true → AllTrue σ ls
unfolding all_true
all_true-AllTrue σ [] h = tt
all_true-AllTrue σ (l ∷ ls) h = (ground (arith, h), all_true-AllTrue σ ls (ground (arith, h)))

AllTrue-all_true : (σ : Assignment) (ls : List ℤ) → AllTrue σ ls → all_true σ ls ≡ true
unfolding all_true
AllTrue-all_true σ [] h = refl
AllTrue-all_true σ (l ∷ ls) (h, hs) = let rest = AllTrue-all_true σ ls hs in ground (arith, h, rest)

-- What is found passes the tests.
try_all-some :
    (k : ℕ) (σ τ : Assignment) (cs : List Clause) (assumed : List ℤ)
    → try_all k σ cs assumed ≡ some τ
    → (all_hold τ cs ≡ true) × (all_true τ assumed ≡ true)
unfolding try_all
try_all-some zero σ τ cs assumed h = elim (Bool-cases (all_hold σ cs && all_true σ assumed)) [
  | inl passes ↦
      let same : σ ≡ τ = let h' = rw passes at h in cc in
      rw (← same) (ground (arith, passes), ground (arith, passes))
  | inr fails ↦ let h' = rw fails at h in absurd (cc)
]
try_all-some (suc k) σ τ cs assumed h =
    elim (Option-cases (try_all k (update σ k true) cs assumed)) [
      | inr (a, e) ↦
          let same : a ≡ τ = let h' = rw e at h in cc in
          try_all-some k (update σ k true) τ cs assumed (e ∙ ap some same)
      | inl e ↦ try_all-some k (update σ k false) τ cs assumed (rw e at h)
    ]

-- If an assignment passes, then some assignment is found.
try_all-none :
    (k : ℕ) (σ τ : Assignment) (cs : List Clause) (assumed : List ℤ)
    → ((v : ℕ) → k ≤ v → v < bound_of cs assumed → σ v ≡ τ v)
    → all_hold τ cs ≡ true
    → all_true τ assumed ≡ true
    → try_all k σ cs assumed ≢ none
unfolding try_all bound_of
try_all-none zero σ τ cs assumed same hc ha e =
    let h1 = all_hold-agree σ τ cs (λ v lt. same v (omega arith) (omega arith)) ∙ hc in
    let h2 = all_true-agree σ τ assumed (λ v lt. same v (omega arith) (omega arith)) ∙ ha in
    ground (arith, h1, h2, e)
try_all-none (suc k) σ τ cs assumed same hc ha e = elim (Bool-cases (τ k)) [
  | inl on ↦
      try_all-none k (update σ k true) τ cs assumed (agree true on) hc ha (first_none _ _ e).0
  | inr off ↦
      try_all-none k (update σ k false) τ cs assumed (agree false off) hc ha (first_none _ _ e).1
]
  where
    first_none : (a b : Option Assignment) → first_of a b ≡ none → (a ≡ none) × (b ≡ none)
    first_none none b h = (refl, h)
    first_none (some a) b h = absurd (cc)

    agree : (b : Bool) → τ k ≡ b → (v : ℕ) → k ≤ v → v < bound_of cs assumed → update σ k b v ≡ τ v
    agree b t v lo hi = elim (ℕ_discrete k v) [
      | yes eq ↦ rw (← eq) (update_self σ k b ∙ sym t)
      | no ne ↦ update_other σ k v b ne ∙ same v (omega arith) hi
    ]

Completes-agree :
    (n : ℕ) (a σ : Assignment)
    → Completes σ (λ v. if ltb v n then some (a v) else none)
    → (v : ℕ) → v < n
    → σ v ≡ a v
Completes-agree n a σ h v lt = h v (a v) (let test = lt→ltb v n lt in rw test refl)

Answer-sat : (a b : ℕ → Option Bool) → sat a ≡ sat b → a ≡ b
Answer-sat a b h = cc

pub brute_solve-IsSolver : IsSolver brute_solve
unfolding brute_solve
brute_solve-IsSolver = record {
  answers = λ n cs assumed h.
      elim (Option-cases (try_all (bound_of cs assumed) (λ v. false) cs assumed)) [
        | inl e ↦ let h' = rw (e, brute_solve) at h in cc
        | inr (a, e) ↦ let h' = rw (e, brute_solve) at h in cc
      ];
  sat_right = λ n cs assumed val σ h c.
      sat_case cs assumed val σ h c
        (Option-cases (try_all (bound_of cs assumed) (λ v. false) cs assumed));
  unsat_right = λ n cs assumed failed σ h s all.
      elim (Option-cases (try_all (bound_of cs assumed) (λ v. false) cs assumed)) [
        | inr (a, e) ↦ let h' = rw (e, brute_solve) at h in cc
        | inl e ↦
            let h' = rw (e, brute_solve) at h in
            try_all-none (bound_of cs assumed) (λ v. false) σ cs assumed
              (λ v lo hi. absurd (omega arith)) (Satisfies-all_hold σ cs s)
              (AllTrue-all_true σ assumed
                (every assumed failed σ (λ l. failed_all failed h' l) all))
              e
      ];
}
  where
    failed_all : (failed : ℤ → Bool) → unsat (λ l. true) ≡ unsat failed → (l : ℤ) → failed l ≡ true
    failed_all failed h l = let e : (λ l'. true) ≡ failed = cc in ap (λ (f : ℤ → Bool). f l) (sym e)

    every :
        (assumed : List ℤ) (failed : ℤ → Bool) (σ : Assignment)
        → ((l : ℤ) → failed l ≡ true)
        → All (λ a. failed a ≡ true → holds σ a ≡ true) assumed
        → AllTrue σ assumed
    every [] failed σ f h = tt
    every (l ∷ ls) failed σ f (h, hs) = (h (f l), every ls failed σ f hs)

    sat_case :
        (cs : List Clause) (assumed : List ℤ) (val : ℕ → Option Bool) (σ : Assignment)
        → brute_solve 0 cs assumed ≡ sat val
        → Completes σ val
        → (try_all (bound_of cs assumed) (λ v. false) cs assumed ≡ none)
          ⊎ ((a : Assignment) × (try_all (bound_of cs assumed) (λ v. false) cs assumed ≡ some a))
        → Satisfies σ cs × AllTrue σ assumed
    sat_case cs assumed val σ h c (inl e) = let h' = rw (e, brute_solve) at h in absurd (cc)
    sat_case cs assumed val σ h c (inr (a, e)) =
        let vals = Answer-sat _ val (rw (e, brute_solve) at h) in
        let agree = Completes-agree (bound_of cs assumed) a σ (rw (← vals) at c) in
        let (hc, ha) = try_all-some (bound_of cs assumed) (λ v. false) a cs assumed e in
        (
          all_hold-Satisfies σ cs
              (all_hold-agree σ a cs (λ v lt. agree v (unfold bound_of in omega arith)) ∙ hc),
          all_true-AllTrue σ assumed
              (all_true-agree σ a assumed (λ v lt. agree v (unfold bound_of in omega arith)) ∙ ha),
        )

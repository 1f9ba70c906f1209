-- ===== src/Pdr/Frames/Refuted.antt =====
-- Why a call of is_inductive that answers `unsat` refutes the good steps into the cube.
use modelchecker.Common.{
  ℕ, zero, suc, ◌+◌, ◌≤◌, ◌<◌, ◌≡◌, ◌≢◌, refl, sym, ◌∙◌, ap, Bool, true, false, not, Option, some,
  List, [], ◌∷◌, map, ℤ, pos, negsuc, neg, abs, abs-neg, if◌then◌else◌, length, All, All-append,
  Bool-cases, inl, inr, arith, leb,
}
use mathlib.Core.List.{reverse, reverse-cons}
use modelchecker.Circuit.{Assignment, holds, holds-neg}
use modelchecker.Circuit.Settle.{update, update_self, update_other, holds-agree}
use modelchecker.Circuit.Run.{IsWellFormed}
use modelchecker.Aiger.{Aiger, first_ands_index}
use modelchecker.Sat.{Clause, Answer, unsat, clause_holds}
use modelchecker.Sat.Laws.{Satisfies, AllTrue, IsSolver}
use modelchecker.Sat.Cadical.{Cadical, add_clause, max_var}
use modelchecker.Sat.Cadical.Bounds.{add_clause-IsBelow, Satisfies-agree}
use modelchecker.Pdr.Primes.{prime_var, prime_lit}
use modelchecker.Pdr.Primes.Means.{pair, pair_leaf, IsPrimes}
use modelchecker.Pdr.Translation.{leaves}
use modelchecker.Pdr.Frames.{Cube, Setup, Pdr, primed_lit, failed_lits, assumptions}
use modelchecker.Pdr.Frames.Prepared.{IsGoodStep, frames_of}
use modelchecker.Pdr.Frames.Invariant.{
  LowLits, cube-low, cube_holds, cubes_of, InFrame, IsLatch, IsCube, IsFrameOk, IsPdr,
  frames_of_new, excluding-holds,
}

-- stable_sort moves literals, and drops none of them.
abbrev pub IsOrder : (ℕ → List ℤ → List ℤ) → Type 1
IsOrder order = (P : ℤ → Type 0) (n : ℕ) (ls : List ℤ) → All P ls → All P (order n ls)

All-reverse : (P : ℤ → Type 0) (ls : List ℤ) → All P ls → All P (reverse ls)
All-reverse P [] h = tt
All-reverse P (l ∷ ls) (h, hs) =
    rw (reverse-cons l ls) (All-append P (reverse ls) (l ∷ []) (All-reverse P ls hs) (h, tt))

All-map : (P : ℤ → Type 0) (f : ℤ → ℤ) (ls : List ℤ) → All (λ l. P (f l)) ls → All P (map f ls)
All-map P f [] h = tt
All-map P f (l ∷ ls) (h, hs) = (h, All-map P f ls hs)

-- The primed literal of a latch.
prime_var_leaf :
    (c : Aiger) (s : Setup) (v : ℕ)
    → v < leaves c
    → prime_var (leaves c) c.primed_first_dimacs (suc (suc v)) s.primes
      ≡ some (c.primed_first_dimacs + v, s.primes)
unfolding prime_var
prime_var_leaf c s v lt =
    let low : leb (suc (suc v)) (1 + leaves c) ≡ true = ground arith in rw low refl

pub primed_lit_means :
    (c : Aiger) (s : Setup) (x y : Assignment) (l : ℤ)
    → 0 < c.primed_first_dimacs
    → IsLatch c l
    → (holds (frames_of c s x y) (primed_lit c s l) ≡ holds y l)
      × (abs (primed_lit c s l) < c.primed_first_dimacs + leaves c)
unfolding primed_lit prime_lit frames_of holds
primed_lit_means c s x y (pos zero) first (lo, hi) = absurd (omega arith)
primed_lit_means c s x y (pos (suc zero)) first (lo, hi) = absurd (omega arith)
primed_lit_means c s x y (pos (suc (suc v))) first (lo, hi) =
    let e = prime_var_leaf c s v (omega arith) in
    let value = pair_leaf x y (leaves c) c.primed_first_dimacs s.primes v (omega arith) in
    let same : y (v + 2) ≡ y (suc (suc v)) = ap y (omega arith) in
    rw (e, primed_lit, prime_lit) (value ∙ same, omega arith)
primed_lit_means c s x y (negsuc zero) first (lo, hi) = absurd (omega arith)
primed_lit_means c s x y (negsuc (suc v)) first (lo, hi) =
    let e = prime_var_leaf c s v (omega arith) in
    let value = pair_leaf x y (leaves c) c.primed_first_dimacs s.primes v (omega arith) in
    let same : y (v + 2) ≡ y (suc (suc v)) = ap y (omega arith) in
    let σ = pair x y (leaves c) c.primed_first_dimacs s.primes in
    let flip = holds-neg σ (pos (c.primed_first_dimacs + v)) (omega arith) in
    let size : abs (neg (pos (c.primed_first_dimacs + v))) ≡ c.primed_first_dimacs + v =
      abs-neg (pos (c.primed_first_dimacs + v)) in
    rw (e, primed_lit, prime_lit) (flip ∙ ap not (value ∙ same), omega (arith, size))

-- The values of the two frames, with the activation literal of a call.
abbrev pub activated : Aiger → Setup → ℕ → Assignment → Assignment → Assignment
activated c s act x y = update (frames_of c s x y) act true

module _ (solve : ℕ → List Clause → List ℤ → Answer) (order : ℕ → List ℤ → List ℤ) (c : Aiger)
    (law : IsSolver solve) (keeps : IsOrder order) (well : IsWellFormed c)
    (first : c.primed_first_dimacs ≡ first_ands_index c + length c.ands) where
  -- The clause of a call: the cube does not hold, or the call's activation literal is false.
  abbrev pub asked_clause : ℕ → Cube → Clause
  asked_clause act q = neg (pos act) ∷ map neg q

  pub asked-IsFrameOk :
      (s : Pdr) (k : ℕ) (solver : Cadical) (q : Cube) (val : ℕ → Option Bool)
      → IsPdr c s
      → IsFrameOk c s.setup (cubes_of s.frames) k solver
      → IsFrameOk c s.setup
          (cubes_of s.frames)
          k
          (record (add_clause (asked_clause (suc (max_var solver)) q) solver) { model = val })
  unfolding add_clause max_var
  asked-IsFrameOk s k solver q val h ok =
      let act = suc solver.nv in
      record {
        below = unfold add_clause in add_clause-IsBelow (asked_clause act q) solver ok.below;
        room = omega (arith, ok.room);
        implied = λ x y g inside.
            let σ = frames_of c s.setup x y in
            let off = frames_of_new c s.setup x y act h.setup.primes ok.room in
            All-append _ solver.clauses (asked_clause act q ∷ []) (ok.implied x y g inside)
              (off_clause σ solver.nv q off, tt);
      }
    where
      off_clause :
          (σ : Assignment) (act : ℕ) (p : Cube)
          → σ (suc act) ≡ false
          → clause_holds σ (neg (pos (suc act)) ∷ map neg p) ≡ true
      off_clause σ act p off = unfold clause_holds in unfold holds in ground (arith, off)

  -- The values satisfy the clauses of the call, with its activation literal.
  asked_clauses-Satisfies :
      (s : Pdr) (k : ℕ) (solver : Cadical) (q : Cube) (x y : Assignment)
      → IsPdr c s
      → IsFrameOk c s.setup (cubes_of s.frames) k solver
      → IsCube c q
      → IsGoodStep c x y
      → InFrame c x k (cubes_of s.frames)
      → cube_holds x q ≡ false
      → Satisfies
          (activated c s.setup (suc (max_var solver)) x y)
          (add_clause (asked_clause (suc (max_var solver)) q) solver).clauses
  unfolding add_clause max_var
  asked_clauses-Satisfies s k solver q x y h ok cube g inside out =
      let act = suc solver.nv in
      let σ = frames_of c s.setup x y in
      let τ = activated c s.setup act x y in
      let same : (v : ℕ) → v ≤ solver.nv → σ v ≡ τ v =
        λ v le. sym (update_other σ act v true (λ e. absurd (omega (arith, e)))) in
      All-append _ solver.clauses (asked_clause act q ∷ [])
        (Satisfies-agree solver.nv σ τ solver.clauses ok.below same (ok.implied x y g inside))
        (held τ (low s.setup q cube h.setup.primes ok.room), tt)
    where
      low :
          (u : Setup) (ls : Cube)
          → IsCube c ls
          → IsPrimes (leaves c) c.primed_first_dimacs u.primes
          → u.primes.num_variables ≤ suc solver.nv
          → LowLits (activated c u (suc solver.nv) x y) x ls
      low u [] hs primes room = tt
      low u (l ∷ ls) ((lo, hi), hs) primes room =
          let first_low : first_ands_index c ≤ c.primed_first_dimacs = omega (arith, first) in
          let ((lit, e), _) = cube-low c u first_low x y (l ∷ []) ((lo, hi), tt) in
          let above = primes.room in
          let other : suc solver.nv ≢ abs l = λ e. absurd (omega (arith, e)) in
          let τ = activated c u (suc solver.nv) x y in
          let kept =
            holds-agree τ (frames_of c u x y) l
              (update_other (frames_of c u x y) (suc solver.nv) (abs l) true other) in
          ((lit, kept ∙ e), low u ls hs primes room)

      held :
          (τ : Assignment) → LowLits τ x q → clause_holds τ (asked_clause (suc solver.nv) q) ≡ true
      held τ ls =
          let rest = excluding-holds τ x q ls in unfold clause_holds in ground (arith, rest, out)

  -- An assumption of the call that failed holds, where the cube's literal holds in the next state.
  primed-holds :
      (s : Setup) (act : ℕ) (failed : ℤ → Bool) (x y : Assignment) (q : Cube)
      → IsPrimes (leaves c) c.primed_first_dimacs s.primes
      → s.primes.num_variables ≤ act
      → IsCube c q
      → All (λ l. failed (primed_lit c s l) ≡ true → holds y l ≡ true) q
      → All
          (λ l.
            failed (primed_lit c s l) ≡ true
            → holds (activated c s act x y) (primed_lit c s l) ≡ true)
          q
  primed-holds s act failed x y [] primes room cube h = tt
  primed-holds s act failed x y (l ∷ ls) primes room (latch, cube) (h, hs) =
      let (means, size) = primed_lit_means c s x y l (omega (arith, first)) latch in
      let above = primes.room in
      let p = primed_lit c s l in
      let σ = frames_of c s x y in
      let other : act ≢ abs p = λ e. absurd (omega (arith, e)) in
      let kept = holds-agree (activated c s act x y) σ p (update_other σ act (abs p) true other) in
      (λ w. kept ∙ means ∙ h w, primed-holds s act failed x y ls primes room cube hs)

  -- The failed assumptions cannot all hold after a good step from outside of the cube.
  pub refuted :
      (s : Pdr) (k : ℕ) (solver : Cadical) (q : Cube) (reverse_assumption : Bool)
      (failed : ℤ → Bool) (x y : Assignment)
      → IsPdr c s
      → IsFrameOk c s.setup (cubes_of s.frames) k solver
      → IsCube c q
      → solve s.queries
          (add_clause (asked_clause (suc (max_var solver)) q) solver).clauses
          (assumptions solve order c s.setup s.queries (suc (max_var solver)) q reverse_assumption)
        ≡ unsat failed
      → IsGoodStep c x y
      → InFrame c x k (cubes_of s.frames)
      → cube_holds x q ≡ false
      → ¬ All (λ l. failed (primed_lit c s.setup l) ≡ true → holds y l ≡ true) q
  unfolding assumptions
  refuted s k solver q rev failed x y h ok cube e g inside out all =
      let act = suc (max_var solver) in
      let τ = activated c s.setup act x y in
      let P : ℤ → Type 0 = λ a. failed a ≡ true → holds τ a ≡ true in
      let primed =
        primed-holds s.setup act failed x y q h.setup.primes (unfold max_var in ok.room) cube all in
      let ordered = keeps (λ l. P (primed_lit c s.setup l)) s.queries q primed in
      let assumed : All P (assumptions solve order c s.setup s.queries act q rev) = (
        λ w. unfold holds in update_self (frames_of c s.setup x y) act true,
        All-map P (primed_lit c s.setup)
            (if rev then reverse (order s.queries q) else order s.queries q)
            (turned (λ l. P (primed_lit c s.setup l)) (order s.queries q) ordered),
      ) in
      law.unsat_right s.queries _ _ failed τ e
        (asked_clauses-Satisfies s k solver q x y h ok cube g inside out) assumed
    where
      turned : (P : ℤ → Type 0) (ls : List ℤ) → All P ls → All P (if rev then reverse ls else ls)
      turned P ls a = elim (Bool-cases rev) [
        | inl t ↦ rw (t) (All-reverse P ls a)
        | inr t ↦ rw (t) a
      ]

  -- The literals of the core hold in the next state, so those of the cube do that failed.
  pub core-All :
      (s : Setup) (failed : ℤ → Bool) (y : Assignment) (q : Cube)
      → cube_holds y (failed_lits solve order c s failed q) ≡ true
      → All (λ l. failed (primed_lit c s l) ≡ true → holds y l ≡ true) q
  unfolding failed_lits cube_holds
  core-All s failed y [] h = tt
  core-All s failed y (l ∷ ls) h = elim (Bool-cases (failed (primed_lit c s l))) [
    | inl t ↦
        let split = rw (t) at h in
        (λ w. ground (arith, split), core-All s failed y ls (ground (arith, split)))
    | inr t ↦ let rest = rw (t) at h in (λ w. absurd (cc), core-All s failed y ls rest)
  ]

  pub cube-All :
      (s : Setup) (failed : ℤ → Bool) (y : Assignment) (q : Cube)
      → AllTrue y q
      → All (λ l. failed (primed_lit c s l) ≡ true → holds y l ≡ true) q
  cube-All s failed y [] h = tt
  cube-All s failed y (l ∷ ls) (h, hs) = (λ w. h, cube-All s failed y ls hs)

  pub failed_lits-IsCube :
      (s : Setup) (failed : ℤ → Bool) (q : Cube)
      → IsCube c q
      → IsCube c (failed_lits solve order c s failed q)
  unfolding failed_lits
  failed_lits-IsCube s failed [] h = tt
  failed_lits-IsCube s failed (l ∷ ls) (h, hs) = elim (Bool-cases (failed (primed_lit c s l))) [
    | inl t ↦ rw (t) (h, failed_lits-IsCube s failed ls hs)
    | inr t ↦ rw (t) (failed_lits-IsCube s failed ls hs)
  ]

  pub cube_holds-failed_lits :
      (s : Setup) (failed : ℤ → Bool) (x : Assignment) (q : Cube)
      → cube_holds x q ≡ true
      → cube_holds x (failed_lits solve order c s failed q) ≡ true
  unfolding failed_lits cube_holds
  cube_holds-failed_lits s failed x [] h = refl
  cube_holds-failed_lits s failed x (l ∷ ls) h =
      let rest = cube_holds-failed_lits s failed x ls (ground (arith, h)) in
      elim (Bool-cases (failed (primed_lit c s l))) [
        | inl t ↦ rw (t) (ground (arith, h, rest))
        | inr t ↦ rw (t) rest
      ]

-- ===== src/Pdr/Frames/Invariant.antt =====
-- What the frames' solvers know: nothing but what holds of every good step from a state that the
-- frame has not excluded.
use modelchecker.Common.{
  ℕ, zero, suc, ◌+◌, ◌≤◌, ◌<◌, ◌≡◌, ◌≢◌, refl, sym, ◌∙◌, ap, subst, Bool, true, false, not, ◌&&◌,
  some, Option-cases, List, [], ◌∷◌, map, ℤ, abs, All, inl, inr, arith, get_elem?, set, ltb,
}
use native.Mathlib.Decide.{ℕ_discrete}
use modelchecker.Circuit.{Assignment, holds, IsLiteral, holds-neg}
use modelchecker.Circuit.Settle.{holds-agree}
use modelchecker.Circuit.Run.{IsInitial}
use modelchecker.Aiger.{Aiger, first_latch, first_ands_index}
use modelchecker.Sat.{clause_holds}
use modelchecker.Sat.Laws.{Satisfies}
use modelchecker.Sat.Cadical.{Cadical, add_clauses, new_cadical}
use modelchecker.Sat.Cadical.Bounds.{IsBelow}
use modelchecker.Pdr.Primes.Means.{pair, pair_low, IsPrimes}
use modelchecker.Pdr.Init.{init_clauses}
use modelchecker.Pdr.Translation.{leaves}
use modelchecker.Pdr.Frames.{Cube, Frame, Setup, Pdr, excluding}
use modelchecker.Pdr.Frames.Prepared.{IsGoodStep, IsSetup, frames_of}

-- All literals of the cube hold.
unfoldable pub cube_holds : Assignment → Cube → Bool
cube_holds x [] = true
cube_holds x (l ∷ ls) = holds x l && cube_holds x ls

abbrev pub Avoids : Assignment → List Cube → Type 0
Avoids x cubes = All (λ q. cube_holds x q ≡ false) cubes

abbrev pub cubes_of : List Frame → List (List Cube)
cubes_of fs = map (λ (f : Frame). f.cubes) fs

-- The state is in none of the cubes of the frames from `k` on.
abbrev pub AvoidsFrom : Assignment → ℕ → List (List Cube) → Type 0
AvoidsFrom x zero css = All (Avoids x) css
AvoidsFrom x (suc k) [] = Unit {0}
AvoidsFrom x (suc k) (cs ∷ css) = AvoidsFrom x k css

-- The states of frame `k`: the initial ones, or those that no cube excludes.
abbrev pub InFrame : Aiger → Assignment → ℕ → List (List Cube) → Type 0
InFrame c x zero css = IsInitial c x
InFrame c x (suc k) css = AvoidsFrom x (suc k) css

-- A literal of a latch.
abbrev pub IsLatch : Aiger → ℤ → Type 0
IsLatch c l = (first_latch c ≤ abs l) × (abs l < first_ands_index c)

abbrev pub IsCube : Aiger → Cube → Type 0
IsCube c q = All (IsLatch c) q

-- What holds of the solver of frame `k`.
pub record IsFrameOk (c : Aiger) (s : Setup) (css : List (List Cube)) (k : ℕ) (solver : Cadical)
    : Type 0 where
  pub below : IsBelow solver.nv solver.clauses
  pub room : s.primes.num_variables ≤ suc solver.nv
  pub implied :
      (x y : Assignment)
      → IsGoodStep c x y
      → InFrame c x k css
      → Satisfies (frames_of c s x y) solver.clauses

pub record IsPdr (c : Aiger) (s : Pdr) : Type 0 where
  pub setup : IsSetup c s.setup
  pub frame_ok :
      (k : ℕ) (f : Frame)
      → get_elem? s.frames k ≡ some f
      → IsFrameOk c s.setup (cubes_of s.frames) k f.solver
  pub init_ok : (i : Cadical) → s.init ≡ some i → i ≡ add_clauses (init_clauses c) new_cadical

-- A new variable is false for the two frames.
pub frames_of_new :
    (c : Aiger) (s : Setup) (x y : Assignment) (v : ℕ)
    → IsPrimes (leaves c) c.primed_first_dimacs s.primes
    → s.primes.num_variables ≤ v
    → frames_of c s x y v ≡ false
unfolding frames_of pair
frames_of_new c s x y v h le =
    let room = h.room in
    let high : ltb v c.primed_first_dimacs ≡ false = ground arith in
    let higher : ltb v (c.primed_first_dimacs + leaves c) ≡ false = ground arith in
    elim (Option-cases (s.primes.map_to_unprime v)) [
      | inl e ↦ rw (high, higher, e) refl
      | inr (u, e) ↦ let lt = (h.paired.back u v e).1 in absurd (omega arith)
    ]

-- The clause that excludes a cube holds outside of it.
pub excluding-holds :
    (σ x : Assignment) (q : Cube)
    → All (λ l. IsLiteral l × (holds σ l ≡ holds x l)) q
    → clause_holds σ (excluding q) ≡ not (cube_holds x q)
unfolding clause_holds cube_holds
excluding-holds σ x [] h = refl
excluding-holds σ x (l ∷ ls) ((lit, e), h) =
    let rest = excluding-holds σ x ls h in
    let flip = holds-neg σ l lit in ground (arith, rest, flip, e)

-- The literals of a cube have their values in the two frames.
abbrev pub LowLits : Assignment → Assignment → Cube → Type 0
LowLits σ x q = All (λ l. IsLiteral l × (holds σ l ≡ holds x l)) q

pub cube-low :
    (c : Aiger) (s : Setup)
    → first_ands_index c ≤ c.primed_first_dimacs
    → (x y : Assignment) (q : Cube) → IsCube c q
    → LowLits (frames_of c s x y) x q
unfolding frames_of
cube-low c s first x y [] h = tt
cube-low c s first x y (l ∷ ls) ((lo, hi), h) = (
  (
    omega arith,
    holds-agree (pair x y (leaves c) c.primed_first_dimacs s.primes) x l
        (pair_low x y (leaves c) c.primed_first_dimacs s.primes (abs l) (omega arith)),
  ),
  cube-low c s first x y ls h,
)

module _ {A : Type 0} where
  pub get_elem?-set_self :
      (xs : List A) (k : ℕ) (a v : A) → get_elem? xs k ≡ some a → get_elem? (set xs k v) k ≡ some v
  get_elem?-set_self [] k a v h = cc
  get_elem?-set_self (x ∷ xs) zero a v h = refl
  get_elem?-set_self (x ∷ xs) (suc k) a v h = get_elem?-set_self xs k a v h

  pub get_elem?-set_other :
      (xs : List A) (k j : ℕ) (v : A) → k ≢ j → get_elem? (set xs k v) j ≡ get_elem? xs j
  get_elem?-set_other [] k j v h = refl
  get_elem?-set_other (x ∷ xs) zero zero v h = absurd (h refl)
  get_elem?-set_other (x ∷ xs) zero (suc j) v h = refl
  get_elem?-set_other (x ∷ xs) (suc k) zero v h = refl
  get_elem?-set_other (x ∷ xs) (suc k) (suc j) v h =
      get_elem?-set_other xs k j v (λ e. h (ap suc e))

pub cubes_of-set :
    (fs : List Frame) (k : ℕ) (f g : Frame)
    → get_elem? fs k ≡ some f
    → g.cubes ≡ f.cubes
    → cubes_of (set fs k g) ≡ cubes_of fs
cubes_of-set [] k f g h e = cc
cubes_of-set (x ∷ xs) zero f g h e =
    let same : x ≡ f = cc in
    ap (λ cs. cs ∷ cubes_of xs) (e ∙ sym (ap (λ (w : Frame). w.cubes) same))
cubes_of-set (x ∷ xs) (suc k) f g h e = ap (λ css. x.cubes ∷ css) (cubes_of-set xs k f g h e)

-- Replacing the solver of one frame by another that is right keeps the invariant.
pub set_solver-IsPdr :
    (c : Aiger) (s : Pdr) (k : ℕ) (f : Frame) (solver : Cadical) (n : ℕ)
    → IsPdr c s
    → get_elem? s.frames k ≡ some f
    → IsFrameOk c s.setup (cubes_of s.frames) k solver
    → IsPdr c (record s { frames = set s.frames k (record f { solver = solver }); queries = n })
set_solver-IsPdr c s k f solver n h found ok =
    let g : Frame = record f { solver = solver } in
    let same = cubes_of-set s.frames k f g found refl in
    record {
      setup = h.setup;
      frame_ok =
          λ j w e. subst (λ css. IsFrameOk c s.setup css j w.solver) (sym same) (at_frame j w e);
      init_ok = h.init_ok;
    }
  where
    at_frame :
        (j : ℕ) (w : Frame)
        → get_elem? (set s.frames k (record f { solver = solver })) j ≡ some w
        → IsFrameOk c s.setup (cubes_of s.frames) j w.solver
    at_frame j w e = elim (ℕ_discrete k j) [
      | yes same ↦
          let self = get_elem?-set_self s.frames k f (record f { solver = solver }) found in
          let e' : get_elem? (set s.frames k (record f { solver = solver })) k ≡ some w =
            subst (λ (i : ℕ). get_elem? (set s.frames k (record f { solver = solver })) i ≡ some w)
              (sym same) e in
          let eq : record f { solver = solver } ≡ w = cc in
          subst (λ (i : ℕ). IsFrameOk c s.setup (cubes_of s.frames) i w.solver) same
            (subst (λ (v : Frame). IsFrameOk c s.setup (cubes_of s.frames) k v.solver) eq ok)
      | no other ↦
          h.frame_ok j w
            (sym (get_elem?-set_other s.frames k j (record f { solver = solver }) other) ∙ e)
    ]

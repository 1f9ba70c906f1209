-- ===== src/Pdr/Primes/Means.antt =====
-- The primed variables stand for the next state: an assignment for two frames gives each primed
-- literal the truth of its literal in the second frame.
use modelchecker.Common.{
  ℕ, zero, suc, ◌+◌, ◌-◌, ◌≤◌, ◌<◌, ◌≡◌, refl, sym, ◌∙◌, ap, true, false, not, none, some, ℤ, pos,
  negsuc, neg, abs, abs-neg, ltb, leb, if◌then◌else◌, Bool-cases, Option-cases, inl, inr, arith,
  lt→ltb, leb→le,
}
use Prim.Native.Nat.{max}
use modelchecker.Circuit.{Assignment, holds, IsLiteral, holds-neg}
use modelchecker.Pdr.Primes.{
  Primes, prime_var, prime_lit, IsPaired, prime_gate-IsPaired, with_prime, prime_gate_found,
  prime_gate_missing,
}

-- The variables below `first` in the frame `x`, and their primed ones in the frame `y`.
unfoldable pub pair : Assignment → Assignment → ℕ → ℕ → Primes → Assignment
pair x y leaves first s v =
    if ltb v first
    then x v
    else if ltb v (first + leaves)
    then y (v - first + 2)
    else elim (s.map_to_unprime v) [ none ↦ false | some u ↦ y u ]

-- The gates' primed variables follow those of the inputs and latches.
pub record IsPrimes (leaves first : ℕ) (s : Primes) : Type 0 where
  pub paired : IsPaired s
  pub high : (v p : ℕ) → s.map_to_unprime p ≡ some v → first + leaves ≤ p
  pub room : first + leaves ≤ s.num_variables

-- What is primed in `s` is primed in `t` too, by the same variables.
pub record Grows (s t : Primes) : Type 0 where
  pub keeps : (v p : ℕ) → s.map_to_unprime p ≡ some v → t.map_to_unprime p ≡ some v
  pub more : s.num_variables ≤ t.num_variables

pub Grows-refl : (s : Primes) → Grows s s
Grows-refl s = record { keeps = λ v p e. e; more = omega arith }

pub Grows-trans : {s t u : Primes} → Grows s t → Grows t u → Grows s u
Grows-trans g h = record {
  keeps = λ v p e. h.keeps v p (g.keeps v p e);
  more = omega (arith, g.more, h.more);
}

module _ (x y : Assignment) (leaves first : ℕ) where
  pub pair_low : (s : Primes) (v : ℕ) → v < first → pair x y leaves first s v ≡ x v
  unfolding pair
  pair_low s v lt = let test = lt→ltb v first lt in rw test refl

  pub pair_leaf :
      (s : Primes) (v : ℕ) → v < leaves → pair x y leaves first s (first + v) ≡ y (v + 2)
  unfolding pair
  pair_leaf s v lt =
      let high : ltb (first + v) first ≡ false = ground arith in
      let low : ltb (first + v) (first + leaves) ≡ true = ground arith in
      let same : first + v - first ≡ v = omega arith in rw (high, low, same) refl

  pub pair_gate :
      (s : Primes) (v p : ℕ)
      → first + leaves ≤ p
      → s.map_to_unprime p ≡ some v
      → pair x y leaves first s p ≡ y v
  unfolding pair
  pair_gate s v p le e =
      let high : ltb p first ≡ false = ground arith in
      let higher : ltb p (first + leaves) ≡ false = ground arith in rw (high, higher, e) refl

-- `var` is primed as `result`, and the maps become `after`.
pub record PrimesVar (x y : Assignment) (leaves first var : ℕ) (s : Primes) : Type 0 where
  pub result : ℕ
  pub after : Primes
  pub returns : prime_var leaves first var s ≡ some (result, after)
  pub primes : IsPrimes leaves first after
  pub grows : Grows s after
  pub positive : 0 < result
  pub bounded : result < after.num_variables
  pub tight : after.num_variables ≤ max s.num_variables (suc result)
  pub means : (t : Primes) → Grows after t → pair x y leaves first t result ≡ y var
  -- It is primed the same way again.
  pub again :
      (t : Primes) → Grows after t → IsPaired t → prime_var leaves first var t ≡ some (result, t)

module _ (x y : Assignment) (leaves first : ℕ) (x-false : x 1 ≡ false) (y-false : y 1 ≡ false)
    (two : 2 ≤ first) where
  gate-PrimesVar :
      (v : ℕ) (s : Primes)
      → IsPrimes leaves first s
      → leb (suc (suc v)) (1 + leaves) ≡ false
      → PrimesVar x y leaves first (suc (suc v)) s
  unfolding prime_var
  gate-PrimesVar v s h high =
      let var = suc (suc v) in
      let (paired, there, unprimed, lt, _) = prime_gate-IsPaired var s h.paired in
      elim (Option-cases (s.map_to_prime var)) [
        | inr (p, known) ↦
            let same = prime_gate_found var p s known in
            let old = h.paired.there var p known in
            record {
              result = p;
              after = s;
              returns = rw (high, same) refl;
              primes = h;
              grows = Grows-refl s;
              positive = let le = h.high var p old.0 in omega (arith, le);
              bounded = old.1;
              tight = omega arith;
              means = λ t g.
                  pair_gate x y leaves first t var p (h.high var p old.0) (g.keeps var p old.0);
              again = λ t g ok.
                  let kept = prime_gate_found var p t (ok.back var p (g.keeps var p old.0)).0 in
                  rw (high, kept) refl;
            }
        | inl missing ↦
            let same = prime_gate_missing var s missing in
            let new = with_prime var s in
            let there' : new.map_to_unprime s.num_variables ≡ some var = ground arith in
            record {
              result = s.num_variables;
              after = new;
              returns = rw (high, same) refl;
              primes = record {
                paired = rw same at paired;
                high = λ u p e. ground (arith, h.high u p, h.room, e);
                room = omega (arith, h.room);
              };
              grows = record {
                keeps = λ u p e. let le = h.paired.back u p e in ground (arith, le, e);
                more = omega arith;
              };
              positive = omega (arith, h.room);
              bounded = omega arith;
              tight = omega arith;
              means = λ t g.
                  pair_gate x y leaves first t var s.num_variables h.room
                    (g.keeps var s.num_variables there');
              again = λ t g ok.
                  let back = (ok.back var s.num_variables (g.keeps var s.num_variables there')).0 in
                  let kept = prime_gate_found var s.num_variables t back in rw (high, kept) refl;
            }
      ]

  pub prime_var_means :
      (v : ℕ) (s : Primes) → 0 < v → IsPrimes leaves first s → PrimesVar x y leaves first v s
  unfolding prime_var
  prime_var_means zero s lt h = absurd (omega arith)
  prime_var_means (suc zero) s lt h = record {
    result = 1;
    after = s;
    returns = refl;
    primes = h;
    grows = Grows-refl s;
    positive = omega arith;
    bounded = omega (arith, h.room);
    tight = omega arith;
    means = λ t g. pair_low x y leaves first t 1 (omega arith) ∙ x-false ∙ sym y-false;
    again = λ t g ok. refl;
  }
  prime_var_means (suc (suc v)) s lt h = elim (Bool-cases (leb (suc (suc v)) (1 + leaves))) [
    | inl low ↦
        let le = leb→le (suc (suc v)) (1 + leaves) low in
        record {
          result = first + v;
          after = s;
          returns = rw low refl;
          primes = h;
          grows = Grows-refl s;
          positive = omega arith;
          bounded = omega (arith, h.room, le);
          tight = omega arith;
          means = λ t g. pair_leaf x y leaves first t v (omega arith) ∙ ap y (omega arith);
          again = λ t g ok. rw low refl;
        }
    | inr high ↦ gate-PrimesVar v s h high
  ]

-- The literal `l` is primed as `result`, and the maps become `after`.
pub record PrimesLit (x y : Assignment) (leaves first : ℕ) (l : ℤ) (s : Primes) : Type 0 where
  pub result : ℤ
  pub after : Primes
  pub returns : prime_lit leaves first l s ≡ some (result, after)
  pub primes : IsPrimes leaves first after
  pub grows : Grows s after
  pub literal : IsLiteral result
  pub bounded : abs result < after.num_variables
  pub tight : after.num_variables ≤ max s.num_variables (suc (abs result))
  pub means : (t : Primes) → Grows after t → holds (pair x y leaves first t) result ≡ holds y l
  pub again :
      (t : Primes)
      → Grows after t
      → IsPaired t
      → prime_var leaves first (abs l) t ≡ some (abs result, t)

module _ (x y : Assignment) (leaves first : ℕ) (x-false : x 1 ≡ false) (y-false : y 1 ≡ false)
    (two : 2 ≤ first) where
  pub prime_lit_means :
      (l : ℤ) (s : Primes) → IsLiteral l → IsPrimes leaves first s → PrimesLit x y leaves first l s
  unfolding prime_lit
  prime_lit_means (pos n) s lit h =
      let v = prime_var_means x y leaves first x-false y-false two n s lit h in
      let e = v.returns in
      record {
        result = pos v.result;
        after = v.after;
        returns = rw (e, prime_lit) refl;
        primes = v.primes;
        grows = v.grows;
        literal = v.positive;
        bounded = v.bounded;
        tight = v.tight;
        means = λ t g. unfold holds in v.means t g;
        again = v.again;
      }
  prime_lit_means (negsuc n) s lit h =
      let v = prime_var_means x y leaves first x-false y-false two (suc n) s (omega arith) h in
      let e = v.returns in
      record {
        result = neg (pos v.result);
        after = v.after;
        returns = rw (e, prime_lit) refl;
        primes = v.primes;
        grows = v.grows;
        literal = let le = v.positive in ground (arith, le);
        bounded = let lt = v.bounded in ground (arith, lt);
        tight =
            let le = v.tight in
            let same : abs (neg (pos v.result)) ≡ v.result = abs-neg (pos v.result) in rw same le;
        means = λ t g.
            let same = v.means t g in
            holds-neg (pair x y leaves first t) (pos v.result) v.positive
            ∙ (unfold holds in ap not same);
        again = λ t g ok.
            let same : abs (neg (pos v.result)) ≡ v.result = abs-neg (pos v.result) in
            rw same (v.again t g ok);
      }

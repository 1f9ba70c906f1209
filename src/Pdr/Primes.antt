-- ===== src/Pdr/Primes.antt =====
-- PDR::prime_var and PDR::prime_lit of PDR.cpp: the variables of the next state.
pub mod Means
use modelchecker.Common.{
  ℕ, zero, suc, ◌+◌, ◌<◌, ◌≡◌, refl, Option, none, some, Option-cases, inl, inr, ℤ, pos, negsuc,
  neg, leb, ◌==◌, if◌then◌else◌, arith,
}

-- The number of variables, and the maps between the gates' variables and their primed ones.
pub record Primes : Type 0 where
  pub num_variables : ℕ
  pub map_to_prime : ℕ → Option ℕ
  pub map_to_unprime : ℕ → Option ℕ

abbrev pub insert : (ℕ → Option ℕ) → ℕ → ℕ → ℕ → Option ℕ
insert m k v j = if k == j then some v else m j

-- A gate's variable gets a primed one when it is first asked for.
unfoldable pub prime_gate : ℕ → Primes → ℕ × Primes
prime_gate var s = elim (s.map_to_prime var) [
  | some primed_var ↦ (primed_var, s)
  | none ↦ (
    s.num_variables,
    record {
      num_variables = s.num_variables + 1;
      map_to_prime = insert s.map_to_prime var s.num_variables;
      map_to_unprime = insert s.map_to_unprime s.num_variables var;
    },
  )
]

-- `leaves` is num_inputs + num_latches, and `first` is primed_first_dimacs; `none` is the failed assert.
unfoldable pub prime_var : ℕ → ℕ → ℕ → Primes → Option (ℕ × Primes)
prime_var leaves first zero s = none
prime_var leaves first (suc zero) s = some (1, s)
prime_var leaves first (suc (suc v)) s =
    if leb (suc (suc v)) (1 + leaves)
    then some (first + v, s)
    else some (prime_gate (suc (suc v)) s)

unfoldable pub prime_lit : ℕ → ℕ → ℤ → Primes → Option (ℤ × Primes)
prime_lit leaves first (pos n) s = elim (prime_var leaves first n s) [
  | none ↦ none
  | some (v, t) ↦ some (pos v, t)
]
prime_lit leaves first (negsuc n) s = elim (prime_var leaves first (suc n) s) [
  | none ↦ none
  | some (v, t) ↦ some (neg (pos v), t)
]

-- The maps are inverse to each other, and their primed variables are among the variables.
pub record IsPaired (s : Primes) : Type 0 where
  pub there :
      (v p : ℕ) → s.map_to_prime v ≡ some p → (s.map_to_unprime p ≡ some v) × (p < s.num_variables)
  pub back :
      (v p : ℕ) → s.map_to_unprime p ≡ some v → (s.map_to_prime v ≡ some p) × (p < s.num_variables)

insert_self : (m : ℕ → Option ℕ) (k v : ℕ) → insert m k v k ≡ some v
insert_self m k v = ground arith

-- `s` with a primed variable for `var`.
abbrev pub with_prime : ℕ → Primes → Primes
with_prime var s = record {
  num_variables = s.num_variables + 1;
  map_to_prime = insert s.map_to_prime var s.num_variables;
  map_to_unprime = insert s.map_to_unprime s.num_variables var;
}

pub prime_gate_found :
    (var p : ℕ) (s : Primes) → s.map_to_prime var ≡ some p → prime_gate var s ≡ (p, s)
unfolding prime_gate
prime_gate_found var p s e = rw (e, prime_gate) refl

pub prime_gate_missing :
    (var : ℕ) (s : Primes)
    → s.map_to_prime var ≡ none
    → prime_gate var s ≡ (s.num_variables, with_prime var s)
unfolding prime_gate
prime_gate_missing var s e = rw (e, prime_gate) refl

fresh_IsPaired :
    (var : ℕ) (s : Primes) → s.map_to_prime var ≡ none → IsPaired s → IsPaired (with_prime var s)
fresh_IsPaired var s missing h = record {
  there = λ v p e. ground (arith, e, h.there v p, missing);
  back = λ v p e. ground (arith, e, h.back v p, missing);
}

-- Priming a gate's variable keeps the maps inverse to each other; afterwards its primed variable is
-- recorded in both maps and is among the variables, and priming it again gives the same variable and
-- changes nothing.
pub prime_gate-IsPaired :
    (var : ℕ) (s : Primes)
    → IsPaired s
    → IsPaired (prime_gate var s).1
      × ((prime_gate var s).1.map_to_prime var ≡ some (prime_gate var s).0)
      × ((prime_gate var s).1.map_to_unprime (prime_gate var s).0 ≡ some var)
      × ((prime_gate var s).0 < (prime_gate var s).1.num_variables)
      × (prime_gate var (prime_gate var s).1 ≡ prime_gate var s)
prime_gate-IsPaired var s h = elim (Option-cases (s.map_to_prime var)) [
  | inl missing ↦
      let recorded = insert_self s.map_to_prime var s.num_variables in
      rw (prime_gate_missing var s missing) (
        fresh_IsPaired var s missing h,
        recorded,
        insert_self s.map_to_unprime s.num_variables var,
        omega arith,
        prime_gate_found var s.num_variables (with_prime var s) recorded,
      )
  | inr (p, found) ↦
      let (unprimed, lt) = h.there var p found in
      let same = prime_gate_found var p s found in rw same (h, found, unprimed, lt, same)
]

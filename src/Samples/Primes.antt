-- ===== src/Samples/Primes.antt =====
-- Primed variables at a concrete input.
use modelchecker.Common.{◌<◌, ◌≡◌, none, some}
use modelchecker.Pdr.Primes.{Primes, prime_gate, IsPaired, prime_gate-IsPaired}

-- Seven variables, none of which is primed.
abbrev no_primes : Primes
no_primes = record { num_variables = 7; map_to_prime = λ _. none; map_to_unprime = λ _. none }

no_primes-IsPaired : IsPaired no_primes
no_primes-IsPaired = record { there = λ v p e. cc; back = λ v p e. cc }

prime_gate-IsPaired_example :
    IsPaired (prime_gate 5 no_primes).1
    × ((prime_gate 5 no_primes).1.map_to_prime 5 ≡ some (prime_gate 5 no_primes).0)
    × ((prime_gate 5 no_primes).1.map_to_unprime (prime_gate 5 no_primes).0 ≡ some 5)
    × ((prime_gate 5 no_primes).0 < (prime_gate 5 no_primes).1.num_variables)
    × (prime_gate 5 (prime_gate 5 no_primes).1 ≡ prime_gate 5 no_primes)
prime_gate-IsPaired_example = prime_gate-IsPaired 5 no_primes no_primes-IsPaired

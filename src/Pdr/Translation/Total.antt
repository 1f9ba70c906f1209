-- ===== src/Pdr/Translation/Total.antt =====
-- The loops of encode_translation pass their asserts, and every primed variable that they make new
-- stands in a clause.
use modelchecker.Common.{
  ℕ, suc, ◌≤◌, ◌<◌, ◌≡◌, refl, subst, false, Option, some, List, [], ◌∷◌, ◌++◌, ℤ, pos, neg, abs,
  abs-neg, Bool-cases, inl, inr, arith,
}
use Prim.Native.Nat.{max}
use modelchecker.Circuit.{And, Assignment, IsLiteral}
use modelchecker.Circuit.Order.{IsOrderedFrom}
use modelchecker.Pdr.Primes.{Primes}
use modelchecker.Pdr.Primes.Means.{
  IsPrimes, Grows, Grows-refl, Grows-trans, PrimesLit, prime_lit_means,
}
use modelchecker.Sat.{Clause, and_clauses, gate_clauses}
use modelchecker.Sat.Cadical.{top_var}
use modelchecker.Sat.Cone.{insert}
use modelchecker.Pdr.Translation.{
  latch_clauses, Encoding, prime_gate_clauses, translate_gate, translate_gates,
}

-- The largest variable of the clauses.
unfoldable pub tops : List Clause → ℕ
tops [] = 0
tops (c ∷ cs) = max (top_var c) (tops cs)

pub tops-append : (cs ds : List Clause) → tops (cs ++ ds) ≡ max (tops cs) (tops ds)
unfolding tops
tops-append [] ds = omega arith
tops-append (c ∷ cs) ds = let rest = tops-append cs ds in omega (arith, rest)

le_first : (a b c : ℕ) → (a ≤ max (max a (max b 0)) c) × (b ≤ max (max a (max b 0)) c)
le_first a b c = omega arith

le_second : (a b c d : ℕ) → b ≤ max d (max (max a (max b 0)) c)
le_second a b c d = omega arith

-- The literals of a gate stand in its clauses.
tops-and_clauses :
    (o i1 i2 : ℤ)
    → (abs o ≤ tops (and_clauses o i1 i2))
      × (abs i1 ≤ tops (and_clauses o i1 i2))
      × (abs i2 ≤ tops (and_clauses o i1 i2))
unfolding tops top_var and_clauses
tops-and_clauses o i1 i2 =
    let (out, left) = le_first (abs (neg o)) (abs i1) _ in
    (
      subst (λ m. m ≤ tops (and_clauses o i1 i2)) (abs-neg o) out,
      left,
      le_second (abs (neg o)) (abs i2) _ _,
    )

abbrev anything : Assignment
anything v = false

module _ (n first : ℕ) (two : 2 ≤ first) where
  abbrev prime :
      (l : ℤ) (s : Primes)
      → IsLiteral l
      → IsPrimes n first s
      → PrimesLit anything anything n first l s
  prime l s lit h = prime_lit_means anything anything n first refl refl two l s lit h

  pub record LatchesTotal (v : ℕ) (nexts : List ℤ) (s : Primes) : Type 0 where
    pub result : List Clause
    pub after : Primes
    pub returns : latch_clauses n first v nexts s ≡ some (result, after)
    pub primes : IsPrimes n first after
    pub grows : Grows s after
    pub tight : after.num_variables ≤ max s.num_variables (suc (tops result))

  pub latch_clauses_total :
      (v : ℕ) (nexts : List ℤ) (s : Primes) → 0 < v → IsPrimes n first s → LatchesTotal v nexts s
  unfolding latch_clauses tops top_var
  latch_clauses_total v [] s lt h = record {
    result = [];
    after = s;
    returns = refl;
    primes = h;
    grows = Grows-refl s;
    tight = omega arith;
  }
  latch_clauses_total v (next ∷ nexts) s lt h =
      let p = prime (pos v) s lt h in
      let rest = latch_clauses_total (suc v) nexts p.after (omega arith) p.primes in
      record {
        result = (neg p.result ∷ next ∷ []) ∷ (neg next ∷ p.result ∷ []) ∷ rest.result;
        after = rest.after;
        returns = let e1 = p.returns in let e2 = rest.returns in rw (e1, e2, latch_clauses) refl;
        primes = rest.primes;
        grows = Grows-trans p.grows rest.grows;
        tight = omega (arith, p.tight, rest.tight);
      }

  pub record GatesTotal (e : Encoding) (r : Option Encoding) : Type 0 where
    pub after : Encoding
    pub returns : r ≡ some after
    pub primes : IsPrimes n first after.primes
    pub grows : Grows e.primes after.primes
    pub more : tops e.clauses ≤ tops after.clauses
    pub tight : after.primes.num_variables ≤ max e.primes.num_variables (suc (tops after.clauses))

  prime_gate_clauses_total :
      (a : And) (e : Encoding)
      → 0 < a.o
      → IsLiteral a.i1
      → IsLiteral a.i2
      → IsPrimes n first e.primes
      → GatesTotal e (prime_gate_clauses n first a e)
  unfolding prime_gate_clauses
  prime_gate_clauses_total a e o l1 l2 h = elim (Bool-cases (e.prime_lit_set a.o)) [
    | inr off ↦ record {
      after = e;
      returns = rw off refl;
      primes = h;
      grows = Grows-refl e.primes;
      more = omega arith;
      tight = omega arith;
    }
    | inl on ↦
        let po = prime (pos a.o) e.primes o h in
        let pi1 = prime a.i1 po.after l1 po.primes in
        let pi2 = prime a.i2 pi1.after l2 pi1.primes in
        let new = and_clauses po.result pi1.result pi2.result in
        let split = tops-append e.clauses new in
        record {
          after = record e {
            prime_lit_set = insert (abs a.i2) (insert (abs a.i1) e.prime_lit_set);
            primes = pi2.after;
            clauses = e.clauses ++ new;
          };
          returns =
              let r0 = po.returns in
              let r1 = pi1.returns in
              let r2 = pi2.returns in rw (on, r0, r1, r2, prime_gate_clauses) refl;
          primes = pi2.primes;
          grows = Grows-trans po.grows (Grows-trans pi1.grows pi2.grows);
          more = omega (arith, split);
          tight =
              let (t0, t1, t2) = tops-and_clauses po.result pi1.result pi2.result in
              omega (arith, split, po.tight, pi1.tight, pi2.tight, t0, t1, t2);
        }
  ]

  translate_gate_total :
      (a : And) (e : Encoding)
      → 0 < a.o
      → IsLiteral a.i1
      → IsLiteral a.i2
      → IsPrimes n first e.primes
      → GatesTotal e (translate_gate n first a e)
  unfolding translate_gate
  translate_gate_total a e o l1 l2 h = elim (Bool-cases (e.lit_set a.o)) [
    | inr off ↦ record {
      after = e;
      returns = rw off refl;
      primes = h;
      grows = Grows-refl e.primes;
      more = omega arith;
      tight = omega arith;
    }
    | inl on ↦
        let mid : Encoding = record e {
          lit_set = insert (abs a.i2) (insert (abs a.i1) e.lit_set);
          clauses = e.clauses ++ gate_clauses a;
        } in
        let next = prime_gate_clauses_total a mid o l1 l2 h in
        record {
          after = next.after;
          returns = let r = next.returns in rw on r;
          primes = next.primes;
          grows = next.grows;
          more = omega (arith, next.more, tops-append e.clauses (gate_clauses a));
          tight = next.tight;
        }
  ]

  pub translate_gates_total :
      (m : ℕ) (gs : List And) (e : Encoding)
      → 0 < m
      → IsOrderedFrom m gs
      → IsPrimes n first e.primes
      → GatesTotal e (translate_gates n first gs e)
  unfolding translate_gates
  translate_gates_total m [] e lt o h = record {
    after = e;
    returns = refl;
    primes = h;
    grows = Grows-refl e.primes;
    more = omega arith;
    tight = omega arith;
  }
  translate_gates_total m (a ∷ gs) e lt (eq, l1, _, l2, _, o) h =
      let later = translate_gates_total (suc m) gs e (omega arith) o h in
      let next = translate_gate_total a later.after (omega arith) l1 l2 later.primes in
      record {
        after = next.after;
        returns = let e1 = later.returns in let e2 = next.returns in rw (e1, translate_gates) e2;
        primes = next.primes;
        grows = Grows-trans later.grows next.grows;
        more = omega (arith, later.more, next.more);
        tight = omega (arith, later.tight, next.tight, next.more);
      }

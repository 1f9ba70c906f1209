-- ===== src/Pdr/Translation/Gates.antt =====
-- The loops of encode_translation over latches and gates, for an assignment of two frames.
use modelchecker.Common.{
  ℕ, suc, ◌+◌, ◌≤◌, ◌<◌, ◌≡◌, refl, sym, ◌∙◌, ap₂, false, ◌&&◌, Option, some, List, [], ◌∷◌, ◌++◌,
  map, ℤ, pos, neg, abs, length, All, All-append, Bool-cases, inl, inr, arith, ==_refl,
}
use modelchecker.Circuit.{And, Assignment, holds, IsLiteral, GateHolds, holds-neg}
use modelchecker.Circuit.Settle.{holds-agree}
use modelchecker.Circuit.Order.{IsOrderedFrom}
use modelchecker.Circuit.Run.{IsVar, NextLatches}
use modelchecker.Pdr.Primes.{Primes, IsPaired}
use modelchecker.Pdr.Primes.Means.{
  pair, pair_low, IsPrimes, Grows, Grows-refl, Grows-trans, prime_lit_means,
}
use modelchecker.Sat.{Clause, and_clauses, gate_clauses, clause_holds}
use modelchecker.Sat.Laws.{Satisfies}
use modelchecker.Sat.Gates.{and_clauses-Satisfies, gate_clauses-Satisfies}
use modelchecker.Sat.Cone.{insert}
use modelchecker.Pdr.Translation.{
  prime_lits, check_constraints, latch_clauses, Encoding, prime_gate_clauses, translate_gate,
  translate_gates,
}

-- Two clauses for each latch hold if the latch has the value of its next state.
equal-Satisfies :
    (σ : Assignment) (p next : ℤ)
    → IsLiteral p
    → IsLiteral next
    → holds σ p ≡ holds σ next
    → Satisfies σ ((neg p ∷ next ∷ []) ∷ (neg next ∷ p ∷ []) ∷ [])
unfolding clause_holds
equal-Satisfies σ p next lp ln e =
    let n0 = holds-neg σ p lp in
    let n1 = holds-neg σ next ln in (ground (arith, n0, n1, e), (ground (arith, n0, n1, e), tt))

module _ (x y : Assignment) (n first : ℕ) (x-false : x 1 ≡ false) (y-false : y 1 ≡ false)
    (two : 2 ≤ first) where
  abbrev pub both : Primes → Assignment
  both t = pair x y n first t

  -- Clauses that hold with all maps that grow from `s`.
  abbrev pub Stable : Primes → List Clause → Type 0
  Stable s cs = (t : Primes) → Grows s t → Satisfies (both t) cs

  Stable-append :
      (s : Primes) (cs ds : List Clause) → Stable s cs → Stable s ds → Stable s (cs ++ ds)
  Stable-append s cs ds h k t g = All-append _ cs ds (h t g) (k t g)

  Stable-later : (s t : Primes) (cs : List Clause) → Grows s t → Stable s cs → Stable t cs
  Stable-later s t cs g h u k = h u (Grows-trans g k)

  low : (t : Primes) (l : ℤ) → abs l < first → holds (both t) l ≡ holds x l
  low t l lt = holds-agree (both t) x l (pair_low x y n first t (abs l) lt)

  pub record LatchesDone (v : ℕ) (nexts : List ℤ) (s : Primes) : Type 0 where
    pub result : List Clause
    pub after : Primes
    pub returns : latch_clauses n first v nexts s ≡ some (result, after)
    pub primes : IsPrimes n first after
    pub grows : Grows s after
    pub stable : Stable after result

  pub latch_clauses-Stable :
      (v : ℕ) (nexts : List ℤ) (s : Primes)
      → 0 < v
      → IsPrimes n first s
      → All (IsVar first) nexts
      → NextLatches x y v nexts
      → LatchesDone v nexts s
  unfolding latch_clauses holds
  latch_clauses-Stable v [] s lt h vars step = record {
    result = [];
    after = s;
    returns = refl;
    primes = h;
    grows = Grows-refl s;
    stable = λ t g. tt;
  }
  latch_clauses-Stable v (next ∷ nexts) s lt h ((lit, small), vars) (here, step) =
      let p = prime_lit_means x y n first x-false y-false two (pos v) s lt h in
      let rest = latch_clauses-Stable (suc v) nexts p.after (omega arith) p.primes vars step in
      record {
        result = (neg p.result ∷ next ∷ []) ∷ (neg next ∷ p.result ∷ []) ∷ rest.result;
        after = rest.after;
        returns = let e1 = p.returns in let e2 = rest.returns in rw (e1, e2, latch_clauses) refl;
        primes = rest.primes;
        grows = Grows-trans p.grows rest.grows;
        stable = λ t g.
            let latch = p.means t (Grows-trans rest.grows g) in
            let same = latch ∙ here ∙ sym (low t next small) in
            let (a, (b, _)) = equal-Satisfies (both t) p.result next p.literal lit same in
            (a, (b, rest.stable t g));
      }

  -- What is kept of the loop over the gates.
  pub record IsGood (e : Encoding) : Type 0 where
    pub primes : IsPrimes n first e.primes
    pub stable : Stable e.primes e.clauses

  pub record Next (e : Encoding) (r : Option Encoding) : Type 0 where
    pub after : Encoding
    pub returns : r ≡ some after
    pub good : IsGood after
    pub grows : Grows e.primes after.primes

  -- A gate over literals of variables, which holds in both frames.
  pub record IsStepGate (a : And) : Type 0 where
    pub output : 0 < a.o
    pub left : IsVar first a.i1
    pub right : IsVar first a.i2
    pub small : a.o < first
    pub now : GateHolds x a
    pub later : GateHolds y a

  prime_gate_clauses-Next :
      (a : And) (e : Encoding) → IsStepGate a → IsGood e → Next e (prime_gate_clauses n first a e)
  unfolding prime_gate_clauses holds
  prime_gate_clauses-Next a e gate h = elim (Bool-cases (e.prime_lit_set a.o)) [
    | inr off ↦ record { after = e; returns = rw off refl; good = h; grows = Grows-refl e.primes }
    | inl on ↦
        let po =
          prime_lit_means x y n first x-false y-false two (pos a.o) e.primes gate.output h.primes in
        let pi1 =
          prime_lit_means x y n first x-false y-false two a.i1 po.after gate.left.0 po.primes in
        let pi2 =
          prime_lit_means x y n first x-false y-false two a.i2 pi1.after gate.right.0 pi1.primes in
        let grown = Grows-trans po.grows (Grows-trans pi1.grows pi2.grows) in
        record {
          after = record e {
            prime_lit_set = insert (abs a.i2) (insert (abs a.i1) e.prime_lit_set);
            primes = pi2.after;
            clauses = e.clauses ++ and_clauses po.result pi1.result pi2.result;
          };
          returns =
              let r0 = po.returns in
              let r1 = pi1.returns in
              let r2 = pi2.returns in rw (on, r0, r1, r2, prime_gate_clauses) refl;
          good = record {
            primes = pi2.primes;
            stable =
                Stable-append pi2.after e.clauses (and_clauses po.result pi1.result pi2.result)
                  (Stable-later e.primes pi2.after e.clauses grown h.stable)
                  (λ t g.
                    let o = po.means t (Grows-trans pi1.grows (Grows-trans pi2.grows g)) in
                    let l = pi1.means t (Grows-trans pi2.grows g) in
                    let r = pi2.means t g in
                    and_clauses-Satisfies (both t) po.result pi1.result pi2.result po.literal
                      pi1.literal pi2.literal (o ∙ gate.later ∙ sym (ap₂ ◌&&◌ l r)));
          };
          grows = grown;
        }
  ]

  translate_gate-Next :
      (a : And) (e : Encoding) → IsStepGate a → IsGood e → Next e (translate_gate n first a e)
  unfolding translate_gate
  translate_gate-Next a e gate h = elim (Bool-cases (e.lit_set a.o)) [
    | inr off ↦ record { after = e; returns = rw off refl; good = h; grows = Grows-refl e.primes }
    | inl on ↦
        let mid : Encoding = record e {
          lit_set = insert (abs a.i2) (insert (abs a.i1) e.lit_set);
          clauses = e.clauses ++ gate_clauses a;
        } in
        let good : IsGood mid = record {
          primes = h.primes;
          stable = Stable-append e.primes e.clauses (gate_clauses a) h.stable (λ t g.
              gate_clauses-Satisfies (both t) a (gate.output, gate.left.0, gate.right.0)
                (pair_low x y n first t a.o gate.small
                  ∙ gate.now
                  ∙ sym (ap₂ ◌&&◌ (low t a.i1 gate.left.1) (low t a.i2 gate.right.1))));
        } in
        let next = prime_gate_clauses-Next a mid gate good in
        record {
          after = next.after;
          returns = let r = next.returns in rw on r;
          good = next.good;
          grows = next.grows;
        }
  ]

  pub translate_gates-Next :
      (gs : List And) (e : Encoding)
      → All IsStepGate gs
      → IsGood e
      → Next e (translate_gates n first gs e)
  unfolding translate_gates
  translate_gates-Next [] e gates h = record {
    after = e;
    returns = refl;
    good = h;
    grows = Grows-refl e.primes;
  }
  translate_gates-Next (a ∷ gs) e (gate, gates) h =
      let later = translate_gates-Next gs e gates h in
      let next = translate_gate-Next a later.after gate later.good in
      record {
        after = next.after;
        returns = let e1 = later.returns in let e2 = next.returns in rw (e1, translate_gates) e2;
        good = next.good;
        grows = Grows-trans later.grows next.grows;
      }

  -- Gates of both frames.
  pub step_gates :
      (m : ℕ) (gs : List And)
      → 0 < m
      → m + length gs ≤ first
      → IsOrderedFrom m gs
      → All (GateHolds x) gs
      → All (GateHolds y) gs
      → All IsStepGate gs
  step_gates m [] lt le o gx gy = tt
  step_gates m (g ∷ gs) lt le (e, l1, s1, l2, s2, o) (hx, gx) (hy, gy) = (
    record {
      output = omega arith;
      left = (l1, omega arith);
      right = (l2, omega arith);
      small = omega arith;
      now = hx;
      later = hy;
    },
    step_gates (suc m) gs (omega arith) (omega arith) o gx gy,
  )

  pub record PrimedLits (ls : List ℤ) (s : Primes) : Type 0 where
    pub result : List ℤ
    pub after : Primes
    pub returns : prime_lits n first ls s ≡ some (result, after)
    pub primes : IsPrimes n first after
    pub grows : Grows s after
    pub means : (t : Primes) → Grows after t → map (holds (both t)) result ≡ map (holds y) ls
    -- The asserts on the constraints hold of them.
    pub checks :
        (t : Primes) → Grows after t → IsPaired t → check_constraints n first ls result t ≡ some t

  pub prime_lits_means :
      (ls : List ℤ) (s : Primes) → All (IsVar first) ls → IsPrimes n first s → PrimedLits ls s
  unfolding prime_lits check_constraints
  prime_lits_means [] s vars h = record {
    result = [];
    after = s;
    returns = refl;
    primes = h;
    grows = Grows-refl s;
    means = λ t g. refl;
    checks = λ t g ok. refl;
  }
  prime_lits_means (l ∷ ls) s ((lit, _), vars) h =
      let p = prime_lit_means x y n first x-false y-false two l s lit h in
      let rest = prime_lits_means ls p.after vars p.primes in
      record {
        result = p.result ∷ rest.result;
        after = rest.after;
        returns = let e1 = p.returns in let e2 = rest.returns in rw (e1, e2, prime_lits) refl;
        primes = rest.primes;
        grows = Grows-trans p.grows rest.grows;
        means = λ t g. ap₂ ◌∷◌ (p.means t (Grows-trans rest.grows g)) (rest.means t g);
        checks = λ t g ok.
            let first_one = p.again t (Grows-trans rest.grows g) ok in
            let more = rest.checks t g ok in
            rw (first_one, ==_refl (abs p.result), check_constraints) more;
      }

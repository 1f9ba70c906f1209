-- ===== src/Pdr/Frames/Prepare.antt =====
-- The steps of the preparation return, and how large their variables are.
use modelchecker.Common.{
  ℕ, zero, suc, ◌≤◌, ◌<◌, ◌≡◌, refl, sym, ◌∙◌, true, false, ◌||◌, some, List, [], ◌∷◌, ◌++◌, map, ℤ,
  pos, neg, abs, All, Bool-cases, inl, inr, arith, ◌==ℤ◌, ==ℤ→eq,
}
use Prim.Native.Nat.{max}
use modelchecker.Circuit.{Assignment, holds}
use modelchecker.Circuit.Run.{IsVar, num_variables}
use modelchecker.Aiger.{Aiger, first_latch, first_ands_index}
use modelchecker.Sat.{Clause, clause_holds}
use modelchecker.Sat.Laws.{AllTrue}
use modelchecker.Sat.Cone.{insert, var_set}
use modelchecker.Sat.Cadical.{}
use modelchecker.Sat.Cadical.Bounds.{IsBelow}
use modelchecker.Pdr.Primes.Means.{IsPrimes, Grows-refl, Grows-trans, prime_lit_means}
use modelchecker.Pdr.Translation.{
  leaves, check_constraints, Primed, first_primes, translate_to_dimacs, Encoding, step_clauses,
  encode_translation,
}
use modelchecker.Pdr.Translation.Gates.{prime_lits_means}
use modelchecker.Pdr.Translation.Total.{
  tops, tops-append, latch_clauses_total, translate_gates_total,
}
use modelchecker.Pdr.Translation.Holds.{IsTranslated, start-IsPrimes}
use modelchecker.Pdr.Frames.{is_listed}

pub tops-IsBelow : (n : ℕ) (cs : List Clause) → IsBelow n cs → tops cs ≤ n
unfolding tops
tops-IsBelow n [] h = omega arith
tops-IsBelow n (c ∷ cs) (h, hs) = let rest = tops-IsBelow n cs hs in omega (arith, rest)

-- A literal or its negation holds.
pub either-holds :
    (σ : Assignment) (n : ℕ) → 0 < n → clause_holds σ (pos n ∷ neg (pos n) ∷ []) ≡ true
unfolding clause_holds holds
either-holds σ zero lt = absurd (omega arith)
either-holds σ (suc n) lt = ground arith

pub AllTrue-map :
    (σ τ : Assignment) (ls ks : List ℤ)
    → map (holds σ) ls ≡ map (holds τ) ks
    → AllTrue τ ks
    → AllTrue σ ls
AllTrue-map σ τ [] ks e h = tt
AllTrue-map σ τ (l ∷ ls) [] e h = absurd (cc)
AllTrue-map σ τ (l ∷ ls) (k ∷ ks) e (t, h) =
    let first : holds σ l ≡ holds τ k = cc in
    let rest : map (holds σ) ls ≡ map (holds τ) ks = cc in (first ∙ t, AllTrue-map σ τ ls ks rest h)

pub is_listed-AllTrue :
    (σ : Assignment) (l : ℤ) (ls : List ℤ) → is_listed l ls ≡ true → AllTrue σ ls → holds σ l ≡ true
unfolding is_listed
is_listed-AllTrue σ l [] h t = cc
is_listed-AllTrue σ l (k ∷ ks) h (t, ts) = elim (Bool-cases (k ==ℤ l)) [
  | inl same ↦ rw (← ==ℤ→eq k l same) t
  | inr other ↦ is_listed-AllTrue σ l ks (ground (arith, h, other)) ts
]

-- What set_up goes through, for any two frames.
pub record Prepared (c : Aiger) : Type 0 where
  pub primed : Primed
  pub encoding : Encoding
  pub translates : translate_to_dimacs c ≡ some primed
  pub encodes : encode_translation c true primed ≡ some encoding
  pub primes : IsPrimes (leaves c) c.primed_first_dimacs encoding.primes
  pub checks :
      check_constraints
        (leaves c)
        c.primed_first_dimacs
        c.constraints
        primed.constraints_prime
        encoding.primes
      ≡ some encoding.primes
  pub start_room : 2 ≤ primed.primes.num_variables
  pub tight :
      encoding.primes.num_variables ≤ max primed.primes.num_variables (suc (tops encoding.clauses))

abbrev pub anything : Assignment
anything v = false

pub prepare : (c : Aiger) → IsTranslated c → Prepared c
unfolding translate_to_dimacs encode_translation
prepare c h =
    let first = c.primed_first_dimacs in
    let n = leaves c in
    let two : 2 ≤ first = let e = h.first_primed in omega arith in
    let start = start-IsPrimes c (h.well.sized ∙ sym h.first_primed) in
    let bad =
      prime_lit_means anything anything n first refl refl two c.bad (first_primes c) h.bad_var.0
        start in
    let in_first : (ls : List ℤ) → All (IsVar (num_variables c)) ls → All (IsVar first) ls =
      λ ls vars. let e = h.first_primed in rw e vars in
    let cs =
      prime_lits_means anything anything n first refl refl two c.constraints bad.after
        (in_first c.constraints h.well.constraint_vars) bad.primes in
    let latches =
      latch_clauses_total n first two (first_latch c) c.nexts cs.after (omega arith) cs.primes in
    let needed = insert (abs c.bad) (var_set c.constraints) in
    let e0 : Encoding = record {
      lit_set = λ v. needed v || var_set c.nexts v;
      prime_lit_set = needed;
      primes = latches.after;
      clauses = step_clauses c true ++ latches.result;
    } in
    let end =
      translate_gates_total n first two (first_ands_index c) c.ands e0 (omega arith) h.well.ordered
        latches.primes in
    record {
      primed = record { bad_prime = bad.result; constraints_prime = cs.result; primes = cs.after };
      encoding = end.after;
      translates =
          let r1 = bad.returns in let r2 = cs.returns in rw (r1, r2, translate_to_dimacs) refl;
      encodes =
          let r0 = cs.checks cs.after (Grows-refl cs.after) cs.primes.paired in
          let r1 = latches.returns in let r2 = end.returns in rw (r0, r1, encode_translation) r2;
      checks = cs.checks end.after.primes (Grows-trans latches.grows end.grows) end.primes.paired;
      primes = end.primes;
      start_room = omega (arith, cs.primes.room, two);
      tight = omega (
        arith,
        latches.tight,
        end.tight,
        end.more,
        tops-append (step_clauses c true) latches.result,
      );
    }

-- ===== src/Bmc/Unfold/Bounds.antt =====
-- The unfolding speaks only of nodes that there are, and its gates stand in the order of the nodes.
use modelchecker.Common.{
  ℕ, zero, suc, ◌≤◌, ◌<◌, ◌≡◌, inl, inr, refl, ap, ◌∙◌, ◌==◌, Bool-cases, Option-cases, List, [],
  ◌∷◌, arith, ℤ, pos, abs, length, set, All, All-append, length-append, get_or-set_self,
  get_or-set_other,
}
use Prim.Native.Nat.{max}
use native.Mathlib.Decide.{dec_lt, ℕ_discrete}
use modelchecker.Circuit.{And, IsLiteral}
use modelchecker.Circuit.Order.{IsIncreasing, IsIncreasing-concat}
use modelchecker.Bmc.AndGate.{aig_and}
use modelchecker.Bmc.AndGate.Bounds.{IsSmall, aig_and-lt}
use modelchecker.Bmc.Unfold.{Unfolding, push_bucket, find_gate, simplify, new_gate}
use modelchecker.Bmc.Unfold.Updates.{length-add_father}

abbrev pub IsBelow : ℕ → And → Type 0
IsBelow n a = (a.o < n) × (abs a.i1 < n) × (abs a.i2 < n)

pub record IsBounded (u : Unfolding) : Type 0 where
  pub one : 1 < length u.nodes
  pub small : IsSmall (length u.nodes) u.values
  pub table : (k : ℕ) → All (IsBelow (length u.nodes)) (u.hash_table k)
  pub ands : IsIncreasing 2 (length u.nodes) u.ands

pub set-IsSmall :
    (n : ℕ) (values : List ℤ) (k : ℕ) (r : ℤ)
    → IsSmall n values
    → abs r < n
    → IsSmall n (set values k r)
set-IsSmall n values k r h lt v = elim (ℕ_discrete k v) [
  | yes same ↦ elim (dec_lt k (length values)) [
    | yes room ↦ rw (← same, get_or-set_self values k r (pos 0) room) lt
    | no out ↦ rw (set_out values k r out) (h v)
  ]
  | no other ↦ rw (get_or-set_other values k v r (pos 0) other) (h v)
]
  where
    set_out : (xs : List ℤ) (i : ℕ) (x : ℤ) → ¬ (i < length xs) → set xs i x ≡ xs
    set_out [] i x h = refl
    set_out (y ∷ ys) zero x h = absurd (h (omega arith))
    set_out (y ∷ ys) (suc i) x h = ap (◌∷◌ y) (set_out ys i x (λ lt. h (omega arith)))

pub IsSmall-weaken : (n m : ℕ) (values : List ℤ) → IsSmall n values → n ≤ m → IsSmall m values
IsSmall-weaken n m values h le v = omega (arith, h v)

pub IsBelow-weaken : (n m : ℕ) (gs : List And) → All (IsBelow n) gs → n ≤ m → All (IsBelow m) gs
IsBelow-weaken n m [] h le = tt
IsBelow-weaken n m (g ∷ gs) ((a, b, c), h) le =
    ((omega arith, omega arith, omega arith), IsBelow-weaken n m gs h le)

push_bucket-IsBelow :
    (n : ℕ) (table : ℕ → List And) (k : ℕ) (a : And)
    → ((j : ℕ) → All (IsBelow n) (table j))
    → IsBelow n a
    → (j : ℕ) → All (IsBelow n) (push_bucket table k a j)
unfolding push_bucket
push_bucket-IsBelow n table k a h e j = elim (Bool-cases (k == j)) [
  | inl here ↦ rw here (All-append (IsBelow n) (table j) (a ∷ []) (h j) (e, tt))
  | inr other ↦ rw other (h j)
]

pub find_gate-lt :
    (n : ℕ) (i1 i2 : ℤ) (bucket : List And) (output : ℤ)
    → All (IsBelow n) bucket
    → abs output < n
    → abs (find_gate i1 i2 bucket output) < n
unfolding find_gate
find_gate-lt n i1 i2 [] output h start = start
find_gate-lt n i1 i2 (a ∷ rest) output ((lt, _, _), h) start =
    find_gate-lt n i1 i2 rest _ h (ground arith)

pub simplify-lt :
    (n first : ℕ) (ands : List And) (values : List ℤ) (p q : ℤ)
    → 1 < n
    → IsSmall n values
    → abs (simplify first ands values p q) < n
unfolding simplify
simplify-lt n first ands values p q one h =
    elim (Option-cases (aig_and first ands values (suc (max (abs p) (abs q))) p q)) [
      | inl stuck ↦ rw (stuck, simplify) (omega arith)
      | inr (r, e) ↦
          rw (e, simplify)
            (aig_and-lt n first ands values one h (suc (max (abs p) (abs q))) p q r e)
    ]

pub new_gate-IsBounded :
    (u : Unfolding) (o : ℕ) (i1 i2 : ℤ)
    → IsBounded u
    → IsLiteral i1
    → abs i1 < length u.nodes
    → IsLiteral i2
    → abs i2 < length u.nodes
    → IsBounded (new_gate u o i1 i2)
unfolding new_gate
new_gate-IsBounded u o i1 i2 h l1 b1 l2 b2 =
    let n = length u.nodes in
    let a : And = record { o = n; i1 = i1; i2 = i2 } in
    let below : IsBelow (suc n) a = (omega arith, omega arith, omega arith) in
    let grown : (k : ℕ) → All (IsBelow (suc n)) (u.hash_table k) =
      λ k. IsBelow-weaken n (suc n) (u.hash_table k) (h.table k) (omega arith) in
    rw_bounded _ (suc n)
      (length-add_father _ _
        ∙ length-add_father _ _
        ∙ length-append {0} u.nodes (_ ∷ [])
        ∙ omega arith)
      (omega (arith, h.one))
      (set-IsSmall (suc n) u.values o _ (IsSmall-weaken n (suc n) u.values h.small (omega arith))
        (omega arith))
      (push_bucket-IsBelow (suc n) _ (abs i2) a
        (push_bucket-IsBelow (suc n) u.hash_table (abs i1) a grown below) below)
      (IsIncreasing-concat 2 n u.ands a h.ands (omega arith) l1 b1 l2 b2)
  where
    rw_bounded :
        (w : Unfolding) (m : ℕ)
        → length w.nodes ≡ m
        → 1 < m
        → IsSmall m w.values
        → ((k : ℕ) → All (IsBelow m) (w.hash_table k))
        → IsIncreasing 2 m w.ands
        → IsBounded w
    rw_bounded w m e a b c d = record {
      one = rw e a;
      small = rw e b;
      table = rw e c;
      ands = rw e d;
    }

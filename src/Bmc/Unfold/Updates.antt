-- ===== src/Bmc/Unfold/Updates.antt =====
-- How the writes of BMC::unfold change the values, the nodes and the table of gates.
use modelchecker.Common.{ℕ, zero, suc, ◌≤◌, ◌<◌, ◌≡◌, ◌⊎◌, inl, inr, refl, ap, ◌∙◌, ◌&&◌, ◌==◌}
use modelchecker.Common.{List, [], ◌∷◌, Bool-cases, arith, ℤ, pos, ==ℤ→eq}
use modelchecker.Common.{length, set, All, All-append, get_or-set_self, get_or-set_other}
use native.Mathlib.Decide.{dec_lt}
use mathlib.Core.Bool.{and_comm}
use modelchecker.Circuit.{And, Assignment, holds, IsLiteral, GateHolds}
use modelchecker.Bmc.AndGate.Agrees.{Agrees}
use modelchecker.Bmc.Unfold.{Node, add_father, push_bucket, find_gate}

-- Writing the value of variable `n` extends the agreement by it.
pub set-Agrees :
    {σ x : Assignment} {values : List ℤ} {n : ℕ}
    → Agrees σ x values n
    → (r : ℤ) → 1 < n
    → n < length values
    → IsLiteral r
    → holds σ r ≡ x n
    → Agrees σ x (set values n r) (suc n)
set-Agrees {σ} {x} {values} {n} h r two room lit e = record {
  constant = get_or-set_other values n 1 r (pos 0) (omega arith) ∙ h.constant;
  nonzero = λ v lo hi. elim (dec_lt v n) [
    | yes old ↦ rw (get_or-set_other values n v r (pos 0) (omega arith)) (h.nonzero v lo old)
    | no new ↦
        let here : v ≡ n = omega arith in rw (here, get_or-set_self values n r (pos 0) room) lit
  ];
  same = λ v lo hi. elim (dec_lt v n) [
    | yes old ↦ rw (get_or-set_other values n v r (pos 0) (omega arith)) (h.same v lo old)
    | no new ↦
        let here : v ≡ n = omega arith in rw (here, get_or-set_self values n r (pos 0) room) e
  ];
}

-- A write at or above `n` changes nothing below it.
pub set_above-Agrees :
    {σ x : Assignment} {values : List ℤ} {n : ℕ}
    → Agrees σ x values n
    → (k : ℕ) (r : ℤ) → 1 < n
    → n ≤ k
    → Agrees σ x (set values k r) n
set_above-Agrees {σ} {x} {values} {n} h k r two le = record {
  constant = get_or-set_other values k 1 r (pos 0) (omega arith) ∙ h.constant;
  nonzero = λ v lo hi. rw (get_or-set_other values k v r (pos 0) (omega arith)) (h.nonzero v lo hi);
  same = λ v lo hi. rw (get_or-set_other values k v r (pos 0) (omega arith)) (h.same v lo hi);
}

pub length-add_father : (ns : List Node) (k : ℕ) → length (add_father ns k) ≡ length ns
unfolding add_father
length-add_father [] k = refl
length-add_father (n ∷ ns) zero = refl
length-add_father (n ∷ ns) (suc k) = ap suc (length-add_father ns k)

-- A gate in the table: its variable is positive, and it holds.
abbrev pub IsEntry : Assignment → And → Type 0
IsEntry σ a = (0 < a.o) × GateHolds σ a

abbrev pub Means : Assignment → ℤ → ℤ → ℤ → Type 0
Means σ r i1 i2 = IsLiteral r × (holds σ r ≡ (holds σ i1 && holds σ i2))

pub find_gate-Means :
    (σ : Assignment) (i1 i2 : ℤ) (bucket : List And) (output : ℤ)
    → All (IsEntry σ) bucket
    → (output ≡ pos 0) ⊎ Means σ output i1 i2
    → (find_gate i1 i2 bucket output ≡ pos 0) ⊎ Means σ (find_gate i1 i2 bucket output) i1 i2
unfolding find_gate
find_gate-Means σ i1 i2 [] output h start = start
find_gate-Means σ i1 i2 (a ∷ rest) output ((o, e), h) start = find_gate-Means σ i1 i2 rest _ h (
    unfold holds in
    ground (
      arith,
      ==ℤ→eq a.i1 i1,
      ==ℤ→eq a.i2 i2,
      ==ℤ→eq a.i2 i1,
      ==ℤ→eq a.i1 i2,
      and_comm (holds σ a.i1) (holds σ a.i2),
    ))

pub push_bucket-All :
    (σ : Assignment) (table : ℕ → List And) (k : ℕ) (a : And)
    → ((j : ℕ) → All (IsEntry σ) (table j))
    → IsEntry σ a
    → (j : ℕ) → All (IsEntry σ) (push_bucket table k a j)
unfolding push_bucket
push_bucket-All σ table k a h e j = elim (Bool-cases (k == j)) [
  | inl here ↦ rw here (All-append (IsEntry σ) (table j) (a ∷ []) (h j) (e, tt))
  | inr other ↦ rw other (h j)
]

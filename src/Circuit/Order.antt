-- ===== src/Circuit/Order.antt =====
-- Gates in topological order: the gate of variable `o` reads only variables below `o`.
use modelchecker.Common.{ℕ, suc, ◌+◌, ◌-◌, ◌≤◌, ◌<◌, ◌≡◌, List, [], ◌∷◌, ◌++◌, arith}
use modelchecker.Common.{abs, length, get_or, All}
use native.Mathlib.Decide.{dec_lt}
use modelchecker.Circuit.{And, Assignment, IsLiteral, GateHolds}

-- `o` is the variable of the next gate, and inputs are nonzero literals of smaller variables.
abbrev pub IsOrderedFrom : ℕ → List And → Type 0
IsOrderedFrom n [] = Unit {0}
IsOrderedFrom n (g ∷ gs) =
    (g.o ≡ n)
    × IsLiteral g.i1
    × (abs g.i1 < n)
    × IsLiteral g.i2
    × (abs g.i2 < n)
    × IsOrderedFrom (suc n) gs

-- A gate that reads only smaller variables, as `x` evaluates it.
pub record IsGate (x : Assignment) (k : ℕ) (g : And) : Type 0 where
  pub output : g.o ≡ k
  pub left : IsLiteral g.i1
  pub left_lt : abs g.i1 < k
  pub right : IsLiteral g.i2
  pub right_lt : abs g.i2 < k
  pub holds_gate : GateHolds x g

pub get_or-IsGate :
    (x : Assignment) (d : And) (gs : List And) (m k : ℕ)
    → IsOrderedFrom m gs
    → All (GateHolds x) gs
    → m ≤ k
    → k < m + length gs
    → IsGate x k (get_or gs (k - m) d)
get_or-IsGate x d [] m k ordered gates lo hi = absurd (omega arith)
get_or-IsGate x d (g ∷ gs) m k (o, l, ll, r, rl, ordered) (gate, gates) lo hi = elim (dec_lt m k) [
  | yes later ↦
      let shift : k - m ≡ suc (k - suc m) = omega arith in
      rw shift (get_or-IsGate x d gs (suc m) k ordered gates (omega arith) (omega arith))
  | no first ↦
      let same : k ≡ m = omega arith in
      let zeroth : m - m ≡ 0 = omega arith in
      rw (same, zeroth)
        (record { output = o; left = l; left_lt = ll; right = r; right_lt = rl; holds_gate = gate })
]

-- Gates of growing variables from `n` up to `end`, with gaps: each reads only smaller variables.
abbrev pub IsIncreasing : ℕ → ℕ → List And → Type 0
IsIncreasing n end [] = n ≤ end
IsIncreasing n end (g ∷ gs) =
    (n ≤ g.o)
    × IsLiteral g.i1
    × (abs g.i1 < g.o)
    × IsLiteral g.i2
    × (abs g.i2 < g.o)
    × IsIncreasing (suc g.o) end gs

pub IsIncreasing-concat :
    (n end : ℕ) (gs : List And) (g : And)
    → IsIncreasing n end gs
    → end ≤ g.o
    → IsLiteral g.i1
    → abs g.i1 < g.o
    → IsLiteral g.i2
    → abs g.i2 < g.o
    → IsIncreasing n (suc g.o) (gs ++ g ∷ [])
IsIncreasing-concat n end [] g h le a b d e = (omega arith, a, b, d, e, omega arith)
IsIncreasing-concat n end (x ∷ gs) g (h1, h2, h3, h4, h5, h) le a b d e =
    (h1, h2, h3, h4, h5, IsIncreasing-concat (suc x.o) end gs g h le a b d e)

pub IsIncreasing-weaken :
    (n end top : ℕ) (gs : List And) → IsIncreasing n end gs → end ≤ top → IsIncreasing n top gs
IsIncreasing-weaken n end top [] h le = omega arith
IsIncreasing-weaken n end top (x ∷ gs) (h1, h2, h3, h4, h5, h) le =
    (h1, h2, h3, h4, h5, IsIncreasing-weaken (suc x.o) end top gs h le)

pub IsIncreasing-le : (n end : ℕ) (gs : List And) → IsIncreasing n end gs → n ≤ end
IsIncreasing-le n end [] h = h
IsIncreasing-le n end (x ∷ gs) (h1, _, _, _, _, h) =
    omega (arith, IsIncreasing-le (suc x.o) end gs h)

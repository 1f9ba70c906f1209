-- ===== src/Sat/Gates.antt =====
-- The clauses of a gate hold exactly if the gate does.
use modelchecker.Common.{◌<◌, ◌≡◌, ◌&&◌, ℤ, pos, arith}
use modelchecker.Circuit.{And, Assignment, holds, GateHolds, IsLiteral, holds-neg}
use modelchecker.Sat.{and_clauses, gate_clauses, clause_holds}
use modelchecker.Sat.Laws.{Satisfies}

pub and_clauses-Satisfies :
    (σ : Assignment) (o i1 i2 : ℤ)
    → IsLiteral o
    → IsLiteral i1
    → IsLiteral i2
    → holds σ o ≡ (holds σ i1 && holds σ i2)
    → Satisfies σ (and_clauses o i1 i2)
unfolding and_clauses clause_holds
and_clauses-Satisfies σ o i1 i2 h h1 h2 gate =
    let n0 = holds-neg σ o h in
    let n1 = holds-neg σ i1 h1 in
    let n2 = holds-neg σ i2 h2 in
    (ground (arith, n0, gate), (ground (arith, n0, gate), (ground (arith, n1, n2, gate), tt)))

pub Satisfies-and_clauses :
    (σ : Assignment) (o i1 i2 : ℤ)
    → IsLiteral o
    → IsLiteral i1
    → IsLiteral i2
    → Satisfies σ (and_clauses o i1 i2)
    → holds σ o ≡ (holds σ i1 && holds σ i2)
unfolding and_clauses clause_holds
Satisfies-and_clauses σ o i1 i2 h h1 h2 (a, (b, (c, _))) =
    let n0 = holds-neg σ o h in
    let n1 = holds-neg σ i1 h1 in let n2 = holds-neg σ i2 h2 in ground (arith, n0, n1, n2, a, b, c)

-- A gate over literals.
abbrev pub IsGateOf : And → Type 0
IsGateOf a = (0 < a.o) × IsLiteral a.i1 × IsLiteral a.i2

pub gate_clauses-Satisfies :
    (σ : Assignment) (a : And) → IsGateOf a → GateHolds σ a → Satisfies σ (gate_clauses a)
unfolding gate_clauses holds
gate_clauses-Satisfies σ a (o, l1, l2) gate =
    and_clauses-Satisfies σ (pos a.o) a.i1 a.i2 o l1 l2 gate

pub Satisfies-gate_clauses :
    (σ : Assignment) (a : And) → IsGateOf a → Satisfies σ (gate_clauses a) → GateHolds σ a
unfolding gate_clauses holds
Satisfies-gate_clauses σ a (o, l1, l2) h = Satisfies-and_clauses σ (pos a.o) a.i1 a.i2 o l1 l2 h

-- ===== src/Bmc/Check/Traces.antt =====
-- A run and the assignment of the unfolded variables that stands for it.
use modelchecker.Common.{
  ℕ, zero, suc, ◌<◌, ◌≡◌, refl, sym, ap, ◌∙◌, true, false, Bool, List, [], ◌∷◌, ◌++◌, map, arith, ℤ,
  length, All, All-append, length-append,
}
use mathlib.Core.List.{map-append}
use modelchecker.Circuit.{Assignment, holds}
use modelchecker.Circuit.Run.{IsVar, IsWellFormed, num_variables}
use modelchecker.Aiger.{Aiger}
use modelchecker.Sat.Laws.{AllTrue}
use modelchecker.Bmc.Unfold.{unfold_frames, checked_bad}
use modelchecker.Bmc.Run.{IsRun, bad_trace, constraint_trace}
use modelchecker.Bmc.Complete.{IsRun-unfold_frames}
use modelchecker.Bmc.Solve.{back}
use modelchecker.Bmc.Check.Frames.{Goes, next_output, Goes-intro}

pub snoc_inj : (xs ys : List Bool) (a b : Bool) → xs ++ a ∷ [] ≡ ys ++ b ∷ [] → (xs ≡ ys) × (a ≡ b)
snoc_inj [] [] a b e = (refl, cc)
snoc_inj [] (y ∷ ys) a b e = absurd (omega (arith, ap length e, length-append ys (b ∷ [])))
snoc_inj (x ∷ xs) [] a b e = absurd (omega (arith, ap length e, length-append xs (a ∷ [])))
snoc_inj (x ∷ xs) (y ∷ ys) a b e = let (front, last) = snoc_inj xs ys a b cc in (cc, last)

All-map :
    (b : Bool) (σ : Assignment) (ls : List ℤ) (ts : List Bool)
    → map (holds σ) ls ≡ ts
    → All (λ t. t ≡ b) ts
    → All (λ l. holds σ l ≡ b) ls
All-map b σ [] ts e h = tt
All-map b σ (l ∷ ls) [] e h = cc
All-map b σ (l ∷ ls) (t ∷ ts) e (h, hs) =
    let head : holds σ l ≡ t = cc in (head ∙ h, All-map b σ ls ts (cc) hs)

map-All : (x : Assignment) (ls : List ℤ) → AllTrue x ls → All (λ t. t ≡ true) (map (holds x) ls)
map-All x [] h = tt
map-All x (l ∷ ls) (h, hs) = (h, map-All x ls hs)

-- The constraints hold in the first `k` frames.
abbrev pub IsConstrained : Aiger → ℕ → (ℕ → Assignment) → Type 0
IsConstrained c k x = (i : ℕ) → i < k → AllTrue (x i) c.constraints

constraint_trace-All :
    (c : Aiger) (x : ℕ → Assignment) (k : ℕ)
    → IsConstrained c k x
    → All (λ t. t ≡ true) (constraint_trace x c.constraints k)
unfolding constraint_trace
constraint_trace-All c x zero h = tt
constraint_trace-All c x (suc k) h =
    All-append (λ t. t ≡ true) (constraint_trace x c.constraints k) _
      (constraint_trace-All c x k (λ i lt. h i (omega arith)))
      (map-All (x k) c.constraints (h k (omega arith)))

bad_trace-All :
    (x : ℕ → Assignment) (bad : ℤ) (k : ℕ)
    → ((i : ℕ) → i < k → holds (x i) bad ≡ false)
    → All (λ t. t ≡ false) (bad_trace x bad k)
unfolding bad_trace
bad_trace-All x bad zero h = tt
bad_trace-All x bad (suc k) h =
    All-append (λ t. t ≡ false) (bad_trace x bad k) _
      (bad_trace-All x bad k (λ i lt. h i (omega arith))) (h k (omega arith), tt)

module _ (c : Aiger) (well : IsWellFormed c) (thread j : ℕ)
    (bad : IsVar (num_variables c) (checked_bad c thread)) (x : ℕ → Assignment)
    (run : IsRun c (suc j) x) (constrained : IsConstrained c (suc j) x)
    (not_bad : (i : ℕ) → i < j → holds (x i) (checked_bad c thread) ≡ false) where
  -- A run that was not bad so far is among the assignments of the unfolded variables.
  pub run-Goes :
      (σ : Assignment) × Goes c thread j σ
      × (holds σ (back (unfold_frames c thread (suc j)).outputs)
          ≡ holds (x j) (checked_bad c thread))
  unfolding bad_trace
  run-Goes =
      let (σ, constant, respects, outs, cons) =
        IsRun-unfold_frames c thread (suc j) x well bad run in
      let (split, _) = next_output c well thread j bad σ constant respects in
      let (front, last) = snoc_inj _ (bad_trace x (checked_bad c thread) j) _ _ (
        sym (map-append (holds σ) (unfold_frames c thread j).outputs _)
        ∙ ap (map (holds σ)) (sym split)
        ∙ outs) in
      let all : AllTrue σ (unfold_frames c thread (suc j)).constraints =
        All-map true σ _ _ cons (constraint_trace-All c x (suc j) constrained) in
      (
        σ,
        Goes-intro c well thread j bad σ constant respects all
            (All-map false σ _ _ front (bad_trace-All x (checked_bad c thread) j not_bad)),
        last,
      )

pub IsRun-shorter : {c : Aiger} {k : ℕ} {x : ℕ → Assignment} → IsRun c (suc k) x → IsRun c k x
IsRun-shorter run = record {
  initial = run.initial;
  frames = λ i lt. run.frames i (omega arith);
  steps = λ i lt. run.steps i (omega arith);
}

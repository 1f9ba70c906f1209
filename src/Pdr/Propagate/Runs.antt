-- ===== src/Pdr/Propagate/Runs.antt =====
-- A frame without cubes holds all runs.
use modelchecker.Common.{
  ℕ, zero, suc, ◌≤◌, ◌≡◌, subst, false, some, List, [], ◌∷◌, arith, get_elem?,
}
use modelchecker.Circuit.{Assignment, holds}
use modelchecker.Aiger.{Aiger}
use modelchecker.Bmc.Run.{IsRun}
use modelchecker.Sat.Laws.{AllTrue}
use modelchecker.Pdr.Frames.{Cube}
use modelchecker.Pdr.Frames.Prepared.{IsGoodStep}
use modelchecker.Pdr.Frames.Invariant.{Avoids, AvoidsFrom, InFrame}
use modelchecker.Pdr.Frames.Initial.{IsStart}
use modelchecker.Pdr.Frames.Chain.{IsChain, AvoidsFrom-later}

-- No run in which the constraints hold reaches a bad state.
abbrev pub IsSafe : Aiger → Type 0
IsSafe c =
    (k : ℕ) (x : ℕ → Assignment)
    → IsRun c (suc k) x
    → ((i : ℕ) → i ≤ k → AllTrue (x i) c.constraints)
    → holds (x k) c.bad ≡ false

-- No good step from the frame leads to a bad state.
abbrev pub NoBadFrom : Aiger → List (List Cube) → ℕ → Type 0
NoBadFrom c css k =
    (x y : Assignment) → IsGoodStep c x y → InFrame c x k css → holds y c.bad ≡ false

AvoidsFrom-empty :
    (x : Assignment) (css : List (List Cube)) (k : ℕ)
    → get_elem? css k ≡ some []
    → AvoidsFrom x (suc k) css
    → AvoidsFrom x k css
AvoidsFrom-empty x [] k h w = absurd (cc)
AvoidsFrom-empty x (cs ∷ css) zero h w = let e : [] ≡ cs = cc in (subst (Avoids x) e tt, w)
AvoidsFrom-empty x (cs ∷ css) (suc k) h w = AvoidsFrom-empty x css k h w

-- A frame without cubes, before one that does not lead to a bad state, holds all runs.
module _ (c : Aiger) (css : List (List Cube)) (m d : ℕ) (chain : IsChain c css) (le : suc m ≤ d)
    (empty : get_elem? css (suc m) ≡ some []) (no_bad : NoBadFrom c css d)
    (start_ok : (x : Assignment) → IsStart c x → holds x c.bad ≡ false) where
  inside :
      (k : ℕ) (x : ℕ → Assignment)
      → IsRun c (suc k) x
      → ((i : ℕ) → i ≤ k → AllTrue (x i) c.constraints)
      → (holds (x k) c.bad ≡ false) × AvoidsFrom (x k) (suc m) css
  inside zero x run cons =
      let st : IsStart c (x 0) = (run.frames 0 (omega arith), run.initial, cons 0 (omega arith)) in
      (
        start_ok (x 0) st,
        AvoidsFrom-later (x 0) css 0 (suc m) (omega arith) (chain.starts (x 0) st),
      )
  inside (suc k) x run cons =
      let shorter : IsRun c (suc k) x = record {
        initial = run.initial;
        frames = λ i lt. run.frames i (omega (arith, lt));
        steps = λ i lt. run.steps i (omega (arith, lt));
      } in
      let (good, here) = inside k x shorter (λ i lt. cons i (omega (arith, lt))) in
      let g : IsGoodStep c (x k) (x (suc k)) = record {
        now = run.frames k (omega arith);
        later = run.frames (suc k) (omega arith);
        step = run.steps k (omega arith);
        not_bad = good;
        constraints = cons k (omega arith);
        constraints_later = cons (suc k) (omega arith);
      } in
      (
        no_bad_later g here,
        AvoidsFrom-empty (x (suc k)) css (suc m) empty
            (chain.steps (suc m) (x k) (x (suc k)) g here),
      )
    where
      no_bad_later :
          {a b : Assignment} → IsGoodStep c a b → AvoidsFrom a (suc m) css → holds b c.bad ≡ false
      no_bad_later {a} {b} g w = at_frame d le no_bad
        where
          at_frame : (d : ℕ) → suc m ≤ d → NoBadFrom c css d → holds b c.bad ≡ false
          at_frame zero bad none_bad = absurd (omega (arith, bad))
          at_frame (suc d) below none_bad =
              none_bad a b g (AvoidsFrom-later a css (suc m) (suc d) below w)

  pub empty-IsSafe : IsSafe c
  empty-IsSafe k x run cons = (inside k x run cons).0

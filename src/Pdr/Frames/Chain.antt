-- ===== src/Pdr/Frames/Chain.antt =====
-- What the cubes of the frames mean for the circuit, and how add_cube keeps it.
use modelchecker.Common.{
  ℕ, zero, suc, ◌≤◌, ◌≡◌, subst, false, some, List, [], ◌∷◌, All, arith, get_elem?, set,
}
use modelchecker.Circuit.{Assignment}
use modelchecker.Aiger.{Aiger}
use modelchecker.Pdr.Frames.{Cube, insert_cube}
use modelchecker.Pdr.Frames.Prepared.{IsGoodStep}
use modelchecker.Pdr.Frames.Invariant.{cube_holds, AvoidsFrom, InFrame, IsCube}
use modelchecker.Pdr.Frames.Initial.{IsStart}
use modelchecker.Pdr.Frames.Added.{insert_cube-All, AvoidsFrom-set, set-AvoidsFrom}

-- No cube of the frames has a start, and every good step from a frame leads to the next one.
pub record IsChain (c : Aiger) (css : List (List Cube)) : Type 0 where
  pub starts : (x : Assignment) → IsStart c x → AvoidsFrom x 0 css
  pub steps :
      (k : ℕ) (x y : Assignment) → IsGoodStep c x y → InFrame c x k css → AvoidsFrom y (suc k) css
  pub latches : All (λ cs. All (IsCube c) cs) css

-- No start is in the cube.
abbrev pub NoStart : Aiger → Cube → Type 0
NoStart c q = (x : Assignment) → IsStart c x → cube_holds x q ≡ false

-- A good step from the frame `m`, outside of the cube, does not enter the cube.
abbrev pub Closed : Aiger → List (List Cube) → ℕ → Cube → Type 0
Closed c css m q =
    (x y : Assignment)
    → IsGoodStep c x y
    → InFrame c x m css
    → cube_holds x q ≡ false
    → cube_holds y q ≡ false

pub AvoidsFrom-later :
    (x : Assignment) (css : List (List Cube)) (j m : ℕ)
    → j ≤ m
    → AvoidsFrom x j css
    → AvoidsFrom x m css
AvoidsFrom-later x css zero zero le w = w
AvoidsFrom-later x [] zero (suc m) le w = tt
AvoidsFrom-later x (cs ∷ css) zero (suc m) le (w, ws) =
    AvoidsFrom-later x css zero m (omega arith) ws
AvoidsFrom-later x css (suc j) zero le w = absurd (omega (arith, le))
AvoidsFrom-later x [] (suc j) (suc m) le w = tt
AvoidsFrom-later x (cs ∷ css) (suc j) (suc m) le w =
    AvoidsFrom-later x css j m (omega (arith, le)) w

-- Later frames have more states.
pub InFrame-later :
    (c : Aiger) (x y : Assignment) (css : List (List Cube)) (j m : ℕ)
    → IsChain c css
    → IsGoodStep c x y
    → j ≤ m
    → InFrame c x j css
    → InFrame c x m css
InFrame-later c x y css zero zero h g le w = w
InFrame-later c x y css zero (suc m) h g le w =
    AvoidsFrom-later x css zero (suc m) (omega arith) (h.starts x (g.now, w, g.constraints))
InFrame-later c x y css (suc j) zero h g le w = absurd (omega (arith, le))
InFrame-later c x y css (suc j) (suc m) h g le w = AvoidsFrom-later x css (suc j) (suc m) le w

module _ {A : Type 0} (P : A → Type 0) where
  pub All-get : (xs : List A) (k : ℕ) (a : A) → get_elem? xs k ≡ some a → All P xs → P a
  All-get [] k a h w = absurd (cc)
  All-get (x ∷ xs) zero a h (w, ws) = let e : x ≡ a = cc in subst P e w
  All-get (x ∷ xs) (suc k) a h (w, ws) = All-get xs k a h ws

  pub All-set : (xs : List A) (k : ℕ) (a : A) → All P xs → P a → All P (set xs k a)
  All-set [] k a w p = tt
  All-set (x ∷ xs) zero a (w, ws) p = (p, ws)
  All-set (x ∷ xs) (suc k) a (w, ws) p = (w, All-set xs k a ws p)

module _ (c : Aiger) (css : List (List Cube)) (m : ℕ) (q : Cube) (ds es : List Cube)
    (found : get_elem? css (suc m) ≡ some ds) (added : insert_cube q ds ≡ some es) where
  pub now_avoids :
      (x : Assignment) (j : ℕ)
      → AvoidsFrom x j (set css (suc m) es)
      → AvoidsFrom x j css × (j ≤ suc m → cube_holds x q ≡ false)
  now_avoids x j =
      AvoidsFrom-set x (cube_holds x q ≡ false) css (suc m) j ds es found
        (insert_cube-All (λ d. cube_holds x d ≡ false) q ds es added).0

  then_avoids :
      (x : Assignment) (j : ℕ)
      → AvoidsFrom x j css
      → (j ≤ suc m → cube_holds x q ≡ false)
      → AvoidsFrom x j (set css (suc m) es)
  then_avoids x j =
      set-AvoidsFrom x (cube_holds x q ≡ false) css (suc m) j ds es found
        (insert_cube-All (λ d. cube_holds x d ≡ false) q ds es added).1

  pub now_InFrame :
      (x : Assignment) (j : ℕ) → InFrame c x j (set css (suc m) es) → InFrame c x j css
  now_InFrame x zero w = w
  now_InFrame x (suc j) w = (now_avoids x (suc j) w).0

  -- A cube that is closed from the frame before, and has no start, may be added.
  pub insert_cube-IsChain :
      IsChain c css → IsCube c q → NoStart c q → Closed c css m q → IsChain c (set css (suc m) es)
  insert_cube-IsChain h cube none_start closed = record {
    starts = λ x st. then_avoids x 0 (h.starts x st) (λ le. none_start x st);
    steps = λ k x y g w. then_avoids y (suc k) (h.steps k x y g (now_InFrame x k w)) (λ le.
        closed x y g (InFrame-later c x y css k m h g (omega (arith, le)) (now_InFrame x k w))
          (out k x y g le w));
    latches =
        All-set (λ cs. All (IsCube c) cs) css (suc m) es h.latches
          ((insert_cube-All (IsCube c) q ds es added).1 cube
            (All-get (λ cs. All (IsCube c) cs) css (suc m) ds found h.latches));
  }
    where
      out :
          (k : ℕ) (x y : Assignment)
          → IsGoodStep c x y
          → suc k ≤ suc m
          → InFrame c x k (set css (suc m) es)
          → cube_holds x q ≡ false
      out zero x y g le w = none_start x (g.now, w, g.constraints)
      out (suc k) x y g le w = (now_avoids x (suc k) w).1 (omega (arith, le))

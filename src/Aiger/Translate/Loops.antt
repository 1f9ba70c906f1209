-- ===== src/Aiger/Translate/Loops.antt =====
-- Each loop of translate_to_dimacs passes its asserts, and what its vectors hold then.
use modelchecker.Common.{
  ℕ, zero, suc, ◌+◌, ◌*◌, ◌≤◌, ◌<◌, ◌≡◌, refl, true, some, List, [], ◌∷◌, ◌++◌, arith, ℤ, pos, abs,
  neg, length, All, All-append, length-append, ◌==◌, Bool-cases, inl, inr, abs-neg,
}
use modelchecker.Circuit.{And, IsLiteral}
use modelchecker.Circuit.Order.{IsOrderedFrom}
use modelchecker.Circuit.Run.{IsVar, IsReset}
use modelchecker.Literal.{aiger_to_dimacs}
use modelchecker.Literal.RoundTrip.{abs-aiger_to_dimacs, aiger_to_dimacs-IsLiteral}
use modelchecker.Aiger.{Variable, AigerLatch, AigerAnd}
use modelchecker.Aiger.Translate.{
  load_inputs, load_latches, load_ands, load_resets, push_reset, load_literals, variable,
}
use modelchecker.Aiger.Translate.Format.{HasInputs, HasLatches, HasGates, HasLiterals}

pub ==_true : (a b : ℕ) → a ≡ b → (a == b) ≡ true
==_true a b e = ground arith

length-push : {A : Type 0} (xs : List A) (x : A) → length (xs ++ x ∷ []) ≡ suc (length xs)
length-push xs x = omega (arith, length-append xs (x ∷ []))

pub load_inputs_lem :
    (n i : ℕ) (inputs : List ℕ) (vs : List Variable)
    → HasInputs (i + n) inputs
    → (ws : List Variable) × (load_inputs n i inputs vs ≡ some ws) × (length ws ≡ length vs + n)
unfolding load_inputs
load_inputs_lem zero i inputs vs h = (vs, refl, omega arith)
load_inputs_lem (suc n) i inputs vs h =
    let new = variable (i + 2) 105 i in
    let (ws, e, len) =
      load_inputs_lem n (suc i) inputs (vs ++ new ∷ []) (λ j lt. h j (omega arith)) in
    (
      ws,
      rw (h i (omega arith), ==_true (suc i * 2) (2 * suc i) (omega arith), load_inputs) e,
      omega (arith, len, length-push vs new),
    )

pub load_latches_lem :
    (bound num_inputs n i : ℕ) (latches : List AigerLatch) (vs : List Variable)
    → HasLatches bound num_inputs (i + n) latches
    → (ws : List Variable) × (load_latches num_inputs n i latches vs ≡ some ws)
      × (length ws ≡ length vs + n)
unfolding load_latches
load_latches_lem bound num_inputs zero i latches vs h = (vs, refl, omega arith)
load_latches_lem bound num_inputs (suc n) i latches vs h =
    let new = variable (2 + num_inputs + i) 108 i in
    let (ws, e, len) =
      load_latches_lem bound num_inputs n (suc i) latches (vs ++ new ∷ [])
        (λ j lt. h j (omega arith)) in
    let (a, found, is_l, _) = h i (omega arith) in
    (
      ws,
      rw (found, ==_true ((num_inputs + suc i) * 2) a.l (omega arith), load_latches) e,
      omega (arith, len, length-push vs new),
    )

IsOrderedFrom-push :
    (m : ℕ) (gs : List And) (g : And)
    → IsOrderedFrom m gs
    → g.o ≡ m + length gs
    → IsLiteral g.i1
    → abs g.i1 < g.o
    → IsLiteral g.i2
    → abs g.i2 < g.o
    → IsOrderedFrom m (gs ++ g ∷ [])
IsOrderedFrom-push m [] g h o l1 lt1 l2 lt2 = (omega arith, l1, omega arith, l2, omega arith, tt)
IsOrderedFrom-push m (f ∷ fs) g (a, b, c, d, e, h) o l1 lt1 l2 lt2 =
    (a, b, c, d, e, IsOrderedFrom-push (suc m) fs g h (omega arith) l1 lt1 l2 lt2)

pub load_ands_lem :
    (before n i : ℕ) (gates : List AigerAnd) (vs : List Variable) (gs : List And)
    → HasGates before (i + n) gates
    → IsOrderedFrom (before + 2) gs
    → length gs ≡ i
    → (ws : List Variable) × (hs : List And) × (load_ands before n i gates vs gs ≡ some (ws, hs))
      × (length ws ≡ length vs + n)
      × IsOrderedFrom (before + 2) hs
      × (length hs ≡ i + n)
unfolding load_ands
load_ands_lem before zero i gates vs gs h ordered size =
    (vs, gs, refl, omega arith, ordered, omega arith)
load_ands_lem before (suc n) i gates vs gs h ordered size =
    let (a, found, is_o, lt1, lt2) = h i (omega arith) in
    let new = variable (2 + before + i) 97 i in
    let g : And = record {
      o = 2 + before + i;
      i1 = aiger_to_dimacs (pos a.i1);
      i2 = aiger_to_dimacs (pos a.i2);
    } in
    let (ws, hs, e, len, ordered', size') =
      load_ands_lem before n (suc i) gates (vs ++ new ∷ []) (gs ++ g ∷ [])
        (λ j lt. h j (omega arith))
        (IsOrderedFrom-push (before + 2) gs g ordered (omega arith) (aiger_to_dimacs-IsLiteral a.i1)
          (omega (arith, abs-aiger_to_dimacs a.i1)) (aiger_to_dimacs-IsLiteral a.i2)
          (omega (arith, abs-aiger_to_dimacs a.i2)))
        (omega (arith, length-push gs g)) in
    (
      ws,
      hs,
      rw (found, ==_true (2 * (before + suc i)) a.o (omega arith), load_ands) e,
      omega (arith, len, length-push vs new),
      ordered',
      omega arith,
    )

-- An AIGER literal below the bound is a literal of the circuit's variables.
aiger_to_dimacs-IsVar : (bound n : ℕ) → n < 2 * bound → IsVar (suc bound) (aiger_to_dimacs (pos n))
aiger_to_dimacs-IsVar bound n lt =
    (aiger_to_dimacs-IsLiteral n, omega (arith, abs-aiger_to_dimacs n))

pub load_literals_lem :
    (bound n i : ℕ) (source : List ℕ) (target : List ℤ)
    → HasLiterals bound (i + n) source
    → All (IsVar (suc bound)) target
    → (ls : List ℤ) × (load_literals n i source target ≡ some ls)
      × All (IsVar (suc bound)) ls
      × (length ls ≡ length target + n)
unfolding load_literals
load_literals_lem bound zero i source target h vars = (target, refl, vars, omega arith)
load_literals_lem bound (suc n) i source target h vars =
    let (l, found, lt) = h i (omega arith) in
    let (ls, e, vars', len) =
      load_literals_lem bound n (suc i) source (target ++ aiger_to_dimacs (pos l) ∷ [])
        (λ j lt'. h j (omega arith))
        (All-append (IsVar (suc bound)) target _ vars (aiger_to_dimacs-IsVar bound l lt, tt)) in
    (
      ls,
      rw (found, load_literals) e,
      vars',
      omega (arith, len, length-push target (aiger_to_dimacs (pos l))),
    )

pub IsReset-later : (m e e' : ℕ) (ls : List ℤ) → IsReset m e ls → e ≤ e' → IsReset m e' ls
IsReset-later m e e' [] h le = tt
IsReset-later m e e' (l ∷ ls) (a, b, h) le =
    (a, omega arith, IsReset-later (suc (abs l)) e e' ls h le)

IsReset-push :
    (m e : ℕ) (ls : List ℤ) (l : ℤ)
    → IsReset m e ls
    → m ≤ e
    → abs l ≡ e
    → IsReset m (suc e) (ls ++ l ∷ [])
IsReset-push m e [] l h le same = (omega arith, omega arith, tt)
IsReset-push m e (k ∷ ks) l (a, b, h) le same =
    (a, omega arith, IsReset-push (suc (abs k)) e ks l h (omega arith) same)

push_reset-IsReset :
    (m l default_val : ℕ) (init : List ℤ)
    → IsReset m l init
    → m ≤ l
    → 0 < l
    → IsReset m (suc l) (push_reset l default_val init)
unfolding push_reset
push_reset-IsReset m l default_val init h le lt = elim (Bool-cases (default_val == 0)) [
  | inl zero_reset ↦ rw zero_reset (IsReset-push m l init (neg (pos l)) h le (abs-neg (pos l)))
  | inr nonzero ↦ elim (Bool-cases (default_val == 1)) [
    | inl one_reset ↦ rw (nonzero, one_reset) (IsReset-push m l init (pos l) h le refl)
    | inr none_reset ↦ rw (nonzero, none_reset) (IsReset-later m l (suc l) init h (omega arith))
  ]
]

pub load_resets_lem :
    (bound num_inputs n i : ℕ) (latches : List AigerLatch) (nexts init : List ℤ)
    → HasLatches bound num_inputs (i + n) latches
    → All (IsVar (suc bound)) nexts
    → IsReset (num_inputs + 2) (num_inputs + 2 + i) init
    → (nexts' init' : List ℤ) × (load_resets num_inputs n i latches nexts init
        ≡ some (nexts', init'))
      × All (IsVar (suc bound)) nexts'
      × (length nexts' ≡ length nexts + n)
      × IsReset (num_inputs + 2) (num_inputs + 2 + (i + n)) init'
unfolding load_resets
load_resets_lem bound num_inputs zero i latches nexts init h vars reset =
    (nexts, init, refl, vars, omega arith, IsReset-later _ _ _ init reset (omega arith))
load_resets_lem bound num_inputs (suc n) i latches nexts init h vars reset =
    let (a, found, is_l, lt) = h i (omega arith) in
    let l = 2 + num_inputs + i in
    let next = aiger_to_dimacs (pos a.next) in
    let reset' = IsReset-later (num_inputs + 2) (num_inputs + 2 + i) l init reset (omega arith) in
    let pushed =
      push_reset-IsReset (num_inputs + 2) l a.default_val init reset' (omega arith) (omega arith) in
    let (nexts', init', e, vars', len, reset'') =
      load_resets_lem bound num_inputs n (suc i) latches (nexts ++ next ∷ [])
        (push_reset l a.default_val init) (λ j lt'. h j (omega arith))
        (All-append (IsVar (suc bound)) nexts _ vars (aiger_to_dimacs-IsVar bound a.next lt, tt))
        (IsReset-later _ _ _ (push_reset l a.default_val init) pushed (omega arith)) in
    (
      nexts',
      init',
      rw (found, ==_true ((num_inputs + suc i) * 2) a.l (omega arith), load_resets) e,
      vars',
      omega (arith, len, length-push nexts next),
      IsReset-later _ _ _ init' reset'' (omega arith),
    )

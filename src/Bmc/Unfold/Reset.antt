-- ===== src/Bmc/Unfold/Reset.antt =====
-- The loop of BMC::initialize over the reset values of the latches.
use modelchecker.Common.{
  ℕ, zero, suc, ◌≤◌, ◌<◌, ◌≡◌, ◌≢◌, refl, ap, ◌∙◌, List, [], ◌∷◌, arith, ℤ, pos, negsuc, abs,
  is_pos, is_neg, if◌then◌else◌, length, get_or, set, replicate, All, length-set, get_or-set_self,
  get_or-set_other,
}
use modelchecker.Circuit.{IsLiteral}
use modelchecker.Circuit.Run.{IsReset}
use modelchecker.Bmc.Unfold.{reset_values}

pub length-replicate : (n : ℕ) → length (replicate n (pos 0)) ≡ n
length-replicate zero = refl
length-replicate (suc n) = ap suc (length-replicate n)

abbrev pub reset_one : ℤ → List ℤ → List ℤ
reset_one l values =
    if is_pos l
    then set values (abs l) (negsuc 0)
    else if is_neg l
    then set values (abs l) (pos 1)
    else values

pub length-reset_one : (l : ℤ) (values : List ℤ) → length (reset_one l values) ≡ length values
length-reset_one (pos n) values = ground (arith, length-set values n (negsuc 0))
length-reset_one (negsuc n) values = length-set values (suc n) (pos 1)

pub reset_one_other :
    (l : ℤ) (values : List ℤ) (k : ℕ)
    → abs l ≢ k
    → get_or (reset_one l values) k (pos 0) ≡ get_or values k (pos 0)
reset_one_other (pos n) values k ne = ground (arith, get_or-set_other values n k (negsuc 0) (pos 0))
reset_one_other (negsuc n) values k ne = get_or-set_other values (suc n) k (pos 1) (pos 0) ne

-- The literal that a reset value starts as: 1 is the constant false.
abbrev pub start_literal : ℤ → ℤ
start_literal l = if is_pos l then negsuc 0 else pos 1

pub reset_one_self :
    (l : ℤ) (values : List ℤ)
    → IsLiteral l
    → abs l < length values
    → get_or (reset_one l values) (abs l) (pos 0) ≡ start_literal l
reset_one_self (pos n) values lit room = ground (arith, get_or-set_self values n (negsuc 0) (pos 0))
reset_one_self (negsuc n) values lit room = get_or-set_self values (suc n) (pos 1) (pos 0) room

pub length-reset_values : (ls values : List ℤ) → length (reset_values ls values) ≡ length values
unfolding reset_values
length-reset_values [] values = refl
length-reset_values (l ∷ ls) values =
    length-reset_values ls (reset_one l values) ∙ length-reset_one l values

pub reset_values_below :
    (n end k : ℕ) (ls values : List ℤ)
    → IsReset n end ls
    → k < n
    → get_or (reset_values ls values) k (pos 0) ≡ get_or values k (pos 0)
unfolding reset_values
reset_values_below n end k [] values h lt = refl
reset_values_below n end k (l ∷ ls) values (lo, hi, h) lt =
    reset_values_below (suc (abs l)) end k ls (reset_one l values) h (omega arith)
    ∙ reset_one_other l values k (omega arith)

-- What the values say of a latch with a reset value.
abbrev pub StartsAt : List ℤ → ℤ → Type 0
StartsAt values l = get_or values (abs l) (pos 0) ≡ start_literal l

pub reset_values-StartsAt :
    (n end : ℕ) (ls values : List ℤ)
    → 0 < n
    → IsReset n end ls
    → end ≤ length values
    → All (StartsAt (reset_values ls values)) ls
unfolding reset_values
reset_values-StartsAt n end [] values pos_n h room = tt
reset_values-StartsAt n end (l ∷ ls) values pos_n (lo, hi, h) room = (
  reset_values_below (suc (abs l)) end (abs l) ls (reset_one l values) h (omega arith)
      ∙ reset_one_self l values (omega arith) (omega arith),
  reset_values-StartsAt (suc (abs l)) end ls (reset_one l values) (omega arith) h
      (rw length-reset_one room),
)

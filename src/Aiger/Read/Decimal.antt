-- ===== src/Aiger/Read/Decimal.antt =====
-- read_literal reads back a decimal number.
use modelchecker.Common.{
  ℕ, zero, suc, ◌+◌, ◌-◌, ◌*◌, ◌/◌, ◌%◌, ◌^◌, ◌≤◌, ◌<◌, ◌≡◌, refl, ◌∙◌, ap, true, false, some, List,
  [], ◌∷◌, ◌++◌, ltb, leb, ◌&&◌, pos, negsuc, if◌then◌else◌, Bool-cases, inl, inr, arith,
}
use mathlib.Core.List.{append_assoc}
use modelchecker.Literal.{to_int}
use modelchecker.Aiger.Read.{
  newline, is_digit, read_digits, read_literal, wrap, add_ℤ, add_int, advance, next_line,
}

-- The decimal digits of a number, with as many rounds as needed.
unfoldable pub decimal_from : ℕ → ℕ → List ℕ
decimal_from zero n = []
decimal_from (suc fuel) n =
    let front = decimal_from fuel (n / 10) in
    if ltb n 10 then (48 + n) ∷ [] else front ++ (48 + n % 10) ∷ []

unfoldable pub decimal : ℕ → List ℕ
decimal n = decimal_from (suc n) n

-- An int that is not negative.
abbrev pub IsInt : ℕ → Type 0
IsInt n = n < 2 ^ 31

pub to_int-pos : (n : ℕ) → IsInt n → to_int n ≡ pos n
unfolding to_int
to_int-pos n int = let test : ltb n (2 ^ 31) ≡ true = ground (arith, int) in rw test refl

-- The sum of two ints that is one, too.
pub wrap-pos : (n : ℕ) → IsInt n → wrap (pos n) ≡ pos n
unfolding wrap
wrap-pos n int = let same : n % 2 ^ 32 ≡ n = omega arith in rw same (to_int-pos n int)

pub add_int-pos : (a b : ℕ) → IsInt (a + b) → add_int (pos a) (pos b) ≡ pos (a + b)
unfolding add_int add_ℤ
add_int-pos a b int = wrap-pos (a + b) int

read_digits-digit :
    (result d : ℕ) (rest : List ℕ)
    → d < 10
    → IsInt (result * 10 + d)
    → read_digits result ((48 + d) ∷ rest) ≡ read_digits (result * 10 + d) rest
unfolding read_digits is_digit
read_digits-digit result d rest lt small =
    let same : (result * 10 + (48 + d - 48)) % 2 ^ 32 ≡ result * 10 + d = omega arith in
    let test : (leb 48 (48 + d) && leb (48 + d) 57) ≡ true = ground (arith, lt) in
    rw (test, same) refl

read_digits-decimal_from :
    (fuel n : ℕ) (rest : List ℕ)
    → n < fuel
    → IsInt n
    → read_digits 0 (decimal_from fuel n ++ rest) ≡ read_digits n rest
unfolding decimal_from
read_digits-decimal_from zero n rest lt int = absurd (omega (arith, lt))
read_digits-decimal_from (suc fuel) n rest lt int = elim (Bool-cases (ltb n 10)) [
  | inl small ↦
      let none_yet : 0 * 10 + n ≡ n = omega arith in
      rw (small) (
        read_digits-digit 0 n rest (ground (arith, small)) (omega (arith, int))
        ∙ ap (λ m. read_digits m rest) none_yet)
  | inr large ↦
      let big : 10 ≤ n = ground (arith, large) in
      let split : n / 10 * 10 + n % 10 ≡ n = omega arith in
      rw (large) (
        ap (read_digits 0) (append_assoc (decimal_from fuel (n / 10)) ((48 + n % 10) ∷ []) rest)
        ∙ read_digits-decimal_from fuel (n / 10) ((48 + n % 10) ∷ rest) (omega (arith, lt, big))
            (omega (arith, int))
        ∙ read_digits-digit (n / 10) (n % 10) rest (omega arith) (omega (arith, int))
        ∙ ap (λ m. read_digits m rest) split)
]

-- A decimal number starts with a digit.
decimal_from_head :
    (fuel n : ℕ)
    → n < fuel
    → (d : ℕ) × (ds : List ℕ) × (decimal_from fuel n ≡ d ∷ ds) × (is_digit d ≡ true)
unfolding decimal_from is_digit
decimal_from_head zero n lt = absurd (omega (arith, lt))
decimal_from_head (suc fuel) n lt = elim (Bool-cases (ltb n 10)) [
  | inl small ↦ (48 + n, [], rw small refl, ground (arith, small))
  | inr large ↦
      let big : 10 ≤ n = ground (arith, large) in
      let (d, ds, e, digit) = decimal_from_head fuel (n / 10) (omega (arith, lt, big)) in
      (d, ds ++ (48 + n % 10) ∷ [], rw (large, e) refl, digit)
]

pub read_literal-decimal :
    (n b : ℕ) (rest : List ℕ)
    → IsInt n
    → is_digit b ≡ false
    → read_literal (decimal n ++ b ∷ rest) ≡ some (pos n, b ∷ rest)
unfolding decimal read_literal
read_literal-decimal n b rest int off =
    let (d, ds, e, digit) = decimal_from_head (suc n) n (omega arith) in
    let ends : read_digits n (b ∷ rest) ≡ some (n, b ∷ rest) = unfold read_digits in rw off refl in
    let whole = read_digits-decimal_from (suc n) n (b ∷ rest) (omega arith) int ∙ ends in
    let r = rw e at whole in let value = to_int-pos n int in rw (e, digit, r, value) refl

read_literal-space : (rest : List ℕ) → read_literal (b' ' ∷ rest) ≡ read_literal rest
unfolding read_literal is_digit
read_literal-space rest = refl

pub read_literal-field :
    (n b : ℕ) (rest : List ℕ)
    → IsInt n
    → is_digit b ≡ false
    → read_literal (b' ' ∷ (decimal n ++ b ∷ rest)) ≡ some (pos n, b ∷ rest)
read_literal-field n b rest int off =
    read_literal-space (decimal n ++ b ∷ rest) ∙ read_literal-decimal n b rest int off

pub read_literal-newline :
    (rest : List ℕ) → read_literal (newline ∷ rest) ≡ some (negsuc 0, newline ∷ rest)
unfolding read_literal is_digit
read_literal-newline rest = refl

pub next_line-newline : (rest : List ℕ) → next_line (newline ∷ rest) ≡ some (tt, rest)
unfolding next_line advance
next_line-newline rest = rw (read_literal-newline rest) refl

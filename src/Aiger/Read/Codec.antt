-- ===== src/Aiger/Read/Codec.antt =====
-- decode reads back what encode writes.
use modelchecker.Common.{
  ℕ, zero, suc, ◌+◌, ◌*◌, ◌/◌, ◌%◌, ◌^◌, ◌≤◌, ◌<◌, ◌≡◌, refl, sym, ◌∙◌, ap, true, false, some, List,
  [], ◌∷◌, ◌++◌, ltb, leb, Bool-cases, inl, inr, arith,
}
use mathlib.Core.List.{append_assoc, append-nil}
use native.Mathlib.Nat.{div-add-mod}
use native.Mathlib.Numerals.{towards_suc}
use modelchecker.Aiger.Read.{decode_from, decode, encode_from, encode}

-- What is read starts where encode began to append.
encode_from-append :
    (fuel : ℕ) (str : List ℕ) (x : ℕ) → encode_from fuel str x ≡ str ++ encode_from fuel [] x
unfolding encode_from
encode_from-append zero str x = sym (append-nil str)
encode_from-append (suc fuel) str x = elim (Bool-cases (ltb x 128)) [
  | inl small ↦ rw small refl
  | inr large ↦ rw large (
      encode_from-append fuel (str ++ (x % 128 + 128) ∷ []) (x / 128)
      ∙ append_assoc str ((x % 128 + 128) ∷ []) (encode_from fuel [] (x / 128))
      ∙ ap (λ t. str ++ t) (sym (encode_from-append fuel ((x % 128 + 128) ∷ []) (x / 128))))
]

shift_seven : (i : ℕ) → 2 ^ (7 * suc i) ≡ 128 * 2 ^ (7 * i)
shift_seven i = let e : 7 * suc i ≡ 7 * i + 7 = omega arith in rw e (simp towards_suc (omega arith))

decode_from-last :
    (i sum x : ℕ) (rest : List ℕ)
    → i < 5
    → x < 128
    → sum + x * 2 ^ (7 * i) < 2 ^ 32
    → decode_from i sum (x ∷ rest) ≡ some (sum + x * 2 ^ (7 * i), rest)
unfolding decode_from
decode_from-last i sum x rest five small fits =
    let low : x % 128 ≡ x = omega (arith, small) in
    let whole : (sum + x * 2 ^ (7 * i)) % 2 ^ 32 ≡ sum + x * 2 ^ (7 * i) = omega (arith, fits) in
    let test : ltb i 5 ≡ true = ground (arith, five) in
    let last : leb 128 x ≡ false = ground (arith, small) in rw (test, last, low, whole) refl

decode_from-more :
    (i sum g : ℕ) (rest : List ℕ)
    → i < 5
    → g < 128
    → sum + g * 2 ^ (7 * i) < 2 ^ 32
    → decode_from i sum ((g + 128) ∷ rest) ≡ decode_from (suc i) (sum + g * 2 ^ (7 * i)) rest
unfolding decode_from
decode_from-more i sum g rest five small fits =
    let low : (g + 128) % 128 ≡ g = omega (arith, small) in
    let whole : (sum + g * 2 ^ (7 * i)) % 2 ^ 32 ≡ sum + g * 2 ^ (7 * i) = omega (arith, fits) in
    let test : ltb i 5 ≡ true = ground (arith, five) in
    let more : leb 128 (g + 128) ≡ true = ground arith in rw (test, more, low, whole) refl

-- The lowest group of `x` and the rest.
split_group : (x i : ℕ) → x * 2 ^ (7 * i) ≡ x % 128 * 2 ^ (7 * i) + x / 128 * 2 ^ (7 * suc i)
split_group x i = omega (
  arith,
  ap (λ (t : ℕ). t * 2 ^ (7 * i)) (div-add-mod x 128),
  ap (λ (t : ℕ). x / 128 * t) (shift_seven i),
)

some_left : (fuel x : ℕ) → x < 128 ^ suc fuel → 128 ≤ x → 0 < fuel
some_left zero x left big = absurd (omega (arith, left, big))
some_left (suc fuel) x left big = omega arith

-- The rounds of both: `i` groups are read, and `x` is left, of `fuel` groups at most.
decode_from-encode_from :
    (fuel i sum x : ℕ) (rest : List ℕ)
    → i + fuel ≤ 5
    → x < 128 ^ fuel
    → 0 < fuel
    → sum + x * 2 ^ (7 * i) < 2 ^ 32
    → decode_from i sum (encode_from fuel [] x ++ rest) ≡ some (sum + x * 2 ^ (7 * i), rest)
unfolding encode_from
decode_from-encode_from zero i sum x rest five left some_fuel fits =
    absurd (omega (arith, some_fuel))
decode_from-encode_from (suc fuel) i sum x rest five left some_fuel fits =
    elim (Bool-cases (ltb x 128)) [
      | inl small ↦
          rw small
            (decode_from-last i sum x rest (omega (arith, five)) (ground (arith, small)) fits)
      | inr large ↦
          let big : 128 ≤ x = ground (arith, large) in
          let split = split_group x i in
          let less : sum + x % 128 * 2 ^ (7 * i) < 2 ^ 32 = omega (arith, fits, split) in
          let fits_more : sum + x % 128 * 2 ^ (7 * i) + x / 128 * 2 ^ (7 * suc i) < 2 ^ 32 =
            omega (arith, fits, split) in
          let left_more : x / 128 < 128 ^ fuel = omega (arith, left) in
          let same : sum + x % 128 * 2 ^ (7 * i) + x / 128 * 2 ^ (7 * suc i)
              ≡ sum + x * 2 ^ (7 * i) =
            omega (arith, split) in
          rw large (
            ap (decode_from i sum)
              (ap (λ t. t ++ rest) (encode_from-append fuel ((x % 128 + 128) ∷ []) (x / 128)))
            ∙ decode_from-more i sum (x % 128) (encode_from fuel [] (x / 128) ++ rest)
                (omega (arith, five)) (omega arith) less
            ∙ decode_from-encode_from fuel (suc i) (sum + x % 128 * 2 ^ (7 * i)) (x / 128) rest
                (omega (arith, five)) left_more (some_left fuel x left big) fits_more
            ∙ ap (λ n. some (n, rest)) same)
    ]

-- decode reads back the number below 2 ^ 32 that encode appended, and leaves what follows it.
pub decode-encode :
    (x : ℕ) (rest : List ℕ) → x < 2 ^ 32 → decode (encode [] x ++ rest) ≡ some (x, rest)
unfolding decode encode
decode-encode x rest fits =
    let whole : 0 + x * 2 ^ (7 * 0) ≡ x = omega arith in
    decode_from-encode_from 5 0 0 x rest (omega arith) (omega (arith, fits)) (omega arith)
      (omega (arith, fits, whole))
    ∙ ap (λ n. some (n, rest)) whole

-- ===== src/Aiger/Read/Bytes.antt =====
-- The buffer of a file whose size is an int.
use modelchecker.Common.{
  ℕ, suc, ◌+◌, ◌%◌, ◌^◌, ◌≡◌, refl, ap, some, List, [], ◌∷◌, ◌++◌, length, arith,
}
use modelchecker.Aiger.Read.{take, read_bytes, read_file}
use modelchecker.Aiger.Read.Decimal.{IsInt, to_int-pos, add_int-pos}

take-length : (bs : List ℕ) → take (length bs) bs ≡ bs
unfolding take
take-length [] = refl
take-length (b ∷ bs) = ap (λ r. b ∷ r) (take-length bs)

-- The file and its last 0 have an int as their size.
abbrev pub HasIntSize : List ℕ → Type 0
HasIntSize file = IsInt (length file + 1)

pub read_file_lem : (file : List ℕ) → HasIntSize file → read_file file ≡ some (file ++ 0 ∷ [])
unfolding read_file
read_file_lem file int =
    let small : length file % 2 ^ 32 ≡ length file = omega arith in
    let size = to_int-pos (length file) (omega arith) in
    let more = add_int-pos (length file) 1 int in
    let one : length file + 1 ≡ suc (length file) = omega arith in
    let all = take-length file in rw (small, size, more, one) (unfold read_bytes in rw all refl)

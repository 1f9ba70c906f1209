-- ===== src/Aiger/Read/Rejects.antt =====
-- Files that load_aiger_from_file refuses.
use modelchecker.Common.{
  ℕ, ◌+◌, ◌≡◌, ◌≢◌, ◌⊎◌, inl, inr, refl, false, none, List, [], ◌∷◌, ◌++◌, ◌==◌, arith,
}
use modelchecker.Aiger.Read.{
  newline, read_header, read_magic, peek, advance, expect, load_aiger_from_file,
}
use modelchecker.Aiger.Read.Decimal.{IsInt, add_int-pos}
use modelchecker.Aiger.Read.Bytes.{HasIntSize, read_file_lem}
use modelchecker.Aiger.Read.Print.{field}
use modelchecker.Aiger.Read.Lines.{AtLine, AtLine-AtStop, field-AtStop, field_lem, end_lem}
use modelchecker.Aiger.Read.RoundTrip.{read_header-g, field-then}

read_header-none :
    (m i l o a : ℕ) (bs : List ℕ)
    → AtLine bs
    → IsInt m
    → IsInt o
    → IsInt (i + l + a)
    → m ≢ i + l + a
    → read_header (field m (field i (field l (field o (field a bs))))) ≡ none
unfolding read_header
read_header-none m i l o a bs h first out all ne =
    let r1 =
      field_lem m (field i (field l (field o (field a bs)))) first
        (field-AtStop i (field l (field o (field a bs)))) in
    let r2 =
      field_lem i (field l (field o (field a bs))) (omega (arith, all))
        (field-AtStop l (field o (field a bs))) in
    let r3 =
      field_lem l (field o (field a bs)) (omega (arith, all)) (field-AtStop o (field a bs)) in
    let r4 = field_lem o (field a bs) out (field-AtStop a bs) in
    let r5 = field_lem a bs (omega (arith, all)) (AtLine-AtStop bs h) in
    let r6 = end_lem bs h in
    let two = add_int-pos i l (omega (arith, all)) in
    let three = add_int-pos (i + l) a all in
    let test : (m == i + l + a) ≡ false = ground (arith, ne) in
    rw (r1, r2, r3, r4, r5, r6, r6, r6, r6, two, three, test) refl

-- A file whose first line has five numbers.
abbrev pub with_header : (letter m i l o a : ℕ) → List ℕ → List ℕ
with_header letter m i l o a rest =
    b'a' ∷ letter ∷ b'g' ∷ field m (field i (field l (field o (field a (newline ∷ rest)))))

-- A file in the text or the binary form whose header has five numbers below 2 ^ 31, the first of which
-- is not the sum of the inputs, the latches and the gates, where this sum is below 2 ^ 31, too, and whose
-- bytes are less than 2 ^ 31 - 1, is refused, whatever follows.
pub load_aiger_from_file-none :
    (letter m i l o a : ℕ) (rest : List ℕ)
    → (letter ≡ b'a') ⊎ (letter ≡ b'i')
    → IsInt m
    → IsInt o
    → IsInt (i + l + a)
    → m ≢ i + l + a
    → HasIntSize (with_header letter m i l o a rest)
    → load_aiger_from_file (with_header letter m i l o a rest) ≡ none
unfolding load_aiger_from_file read_magic expect peek advance
load_aiger_from_file-none letter m i l o a rest form first out all ne size =
    let file = read_file_lem (with_header letter m i l o a rest) size in
    let bs = newline ∷ (rest ++ 0 ∷ []) in
    let r0 = read_header-g (field m (field i (field l (field o (field a bs))))) in
    let r1 = read_header-none m i l o a bs (_, refl) first out all ne in
    elim form [
      | inl e ↦ rw (file, e, whole, r0, r1) refl
      | inr e ↦ rw (file, e, whole, r0, r1) refl
    ]
  where
    whole :
        field m (field i (field l (field o (field a (newline ∷ rest))))) ++ 0 ∷ []
        ≡ field m (field i (field l (field o (field a (newline ∷ (rest ++ 0 ∷ []))))))
    whole =
        field-then _ _ _ _
          (field-then _ _ _ _ (field-then _ _ _ _ (field-then _ _ _ _ (field-then _ _ _ _ refl))))

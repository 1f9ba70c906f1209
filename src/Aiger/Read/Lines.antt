-- ===== src/Aiger/Read/Lines.antt =====
-- The parts of a printed file that consist of lines are read back.
use modelchecker.Common.{
  ℕ, zero, suc, ◌+◌, ◌*◌, ◌%◌, ◌^◌, ◌≡◌, refl, true, false, some, List, [], ◌∷◌, ◌++◌, ◌==◌, ==→eq,
  ==_refl, ℤ, pos, negsuc, length, All, Bool-cases, inl, inr, arith,
}
use modelchecker.Aiger.{AigerLatch, AigerAnd}
use modelchecker.Aiger.Read.{
  newline, is_digit, read_literal, read_header, read_literals, read_latches, read_text_ands, max_0,
  to_unsigned,
}
use modelchecker.Aiger.Read.Decimal.{
  IsInt, to_int-pos, add_int-pos, decimal, read_literal-decimal, read_literal-field,
  read_literal-newline, next_line-newline,
}
use modelchecker.Aiger.Read.Print.{
  File, field, print_lines, print_header, print_reset, print_text_latches, print_binary_latches,
  print_text_ands, LatchesFrom, IsPrintable, loaded,
}

-- The buffer is at the end of a line.
abbrev pub AtLine : List ℕ → Type 0
AtLine bs = (t : List ℕ) × (bs ≡ newline ∷ t)

-- The buffer is behind the digits of a number.
abbrev pub AtStop : List ℕ → Type 0
AtStop bs = (b : ℕ) × (t : List ℕ) × (bs ≡ b ∷ t) × (is_digit b ≡ false)

pub AtLine-AtStop : (bs : List ℕ) → AtLine bs → AtStop bs
unfolding is_digit
AtLine-AtStop bs (t, e) = (newline, t, e, refl)

pub field-AtStop : (n : ℕ) (bs : List ℕ) → AtStop (field n bs)
unfolding is_digit
field-AtStop n bs = (b' ', decimal n ++ bs, refl, refl)

pub decimal_lem :
    (n : ℕ) (bs : List ℕ) → IsInt n → AtStop bs → read_literal (decimal n ++ bs) ≡ some (pos n, bs)
decimal_lem n bs int (b, t, e, off) = rw e (read_literal-decimal n b t int off)

pub field_lem :
    (n : ℕ) (bs : List ℕ) → IsInt n → AtStop bs → read_literal (field n bs) ≡ some (pos n, bs)
field_lem n bs int (b, t, e, off) = rw e (read_literal-field n b t int off)

pub end_lem : (bs : List ℕ) → AtLine bs → read_literal bs ≡ some (negsuc 0, bs)
end_lem bs (t, e) = rw e (read_literal-newline t)

pub print_lines-AtLine : (ls : List ℕ) (bs : List ℕ) → AtLine bs → AtLine (print_lines ls bs)
print_lines-AtLine [] bs h = h
print_lines-AtLine (l ∷ ls) bs h = (decimal l ++ print_lines ls bs, refl)

pub read_literals-print_lines :
    (ls bs : List ℕ)
    → All IsInt ls
    → AtLine bs
    → read_literals (length ls) (print_lines ls bs) ≡ some (ls, bs)
unfolding read_literals to_unsigned
read_literals-print_lines [] bs ints h = refl
read_literals-print_lines (l ∷ ls) bs (int, ints) h =
    let first = next_line-newline (decimal l ++ print_lines ls bs) in
    let number =
      decimal_lem l (print_lines ls bs) int (AtLine-AtStop _ (print_lines-AtLine ls bs h)) in
    let more = read_literals-print_lines ls bs ints h in rw (first, number, more) refl

-- A reset value that is left out is read as -1, which counts as 0.
pub reset_lem :
    (d : ℕ) (bs : List ℕ)
    → IsInt d
    → AtLine bs
    → (z : ℤ) × (read_literal (print_reset d bs) ≡ some (z, bs)) × (max_0 z ≡ d)
unfolding max_0
reset_lem zero bs int h = (negsuc 0, end_lem bs h, refl)
reset_lem (suc d) bs int h = (pos (suc d), field_lem (suc d) bs int (AtLine-AtStop bs h), refl)

pub print_reset-AtStop : (d : ℕ) (bs : List ℕ) → AtLine bs → AtStop (print_reset d bs)
print_reset-AtStop zero bs h = AtLine-AtStop bs h
print_reset-AtStop (suc d) bs h = field-AtStop (suc d) bs

pub print_text_latches-AtLine :
    (ls : List AigerLatch) (bs : List ℕ) → AtLine bs → AtLine (print_text_latches ls bs)
print_text_latches-AtLine [] bs h = h
print_text_latches-AtLine (l ∷ ls) bs h = (_, refl)

pub print_binary_latches-AtLine :
    (ls : List AigerLatch) (bs : List ℕ) → AtLine bs → AtLine (print_binary_latches ls bs)
print_binary_latches-AtLine [] bs h = h
print_binary_latches-AtLine (l ∷ ls) bs h = (_, refl)

pub print_text_ands-AtLine :
    (gs : List AigerAnd) (bs : List ℕ) → AtLine bs → AtLine (print_text_ands gs bs)
print_text_ands-AtLine [] bs h = h
print_text_ands-AtLine (g ∷ gs) bs h = (_, refl)

pub read_latches-print_text :
    (v : ℕ) (ls : List AigerLatch) (bs : List ℕ)
    → All (λ (l : AigerLatch). IsInt l.l × IsInt l.next × IsInt l.default_val) ls
    → AtLine bs
    → read_latches false v (length ls) (print_text_latches ls bs) ≡ some (ls, bs)
unfolding read_latches to_unsigned
read_latches-print_text v [] bs ints h = refl
read_latches-print_text v (l ∷ ls) bs ((own, to, reset), ints) h =
    let rest = print_text_latches ls bs in
    let at = print_text_latches-AtLine ls bs h in
    let tail = print_reset l.default_val rest in
    let first = next_line-newline (decimal l.l ++ field l.next tail) in
    let number = decimal_lem l.l (field l.next tail) own (field-AtStop l.next tail) in
    let next = field_lem l.next tail to (print_reset-AtStop l.default_val rest at) in
    let (z, value, same) = reset_lem l.default_val rest reset at in
    let more = read_latches-print_text (suc v) ls bs ints h in
    rw (first, number, next, value, more, same) refl

pub read_latches-print_binary :
    (v : ℕ) (ls : List AigerLatch) (bs : List ℕ)
    → LatchesFrom v ls
    → All (λ (l : AigerLatch). IsInt l.l × IsInt l.next × IsInt l.default_val) ls
    → AtLine bs
    → read_latches true v (length ls) (print_binary_latches ls bs) ≡ some (ls, bs)
unfolding read_latches to_unsigned
read_latches-print_binary v [] bs counts ints h = refl
read_latches-print_binary v (l ∷ ls) bs (count, counts) ((own, to, reset), ints) h =
    let rest = print_binary_latches ls bs in
    let at = print_binary_latches-AtLine ls bs h in
    let tail = print_reset l.default_val rest in
    let first = next_line-newline (decimal l.next ++ tail) in
    let next = decimal_lem l.next tail to (print_reset-AtStop l.default_val rest at) in
    let (z, value, same) = reset_lem l.default_val rest reset at in
    let more = read_latches-print_binary (suc v) ls bs counts ints h in
    let whose : 2 * v % 2 ^ 32 ≡ l.l = omega (arith, count, own) in
    let literal = to_int-pos l.l own in rw (first, next, value, more, same, whose, literal) refl

pub read_text_ands-print :
    (gs : List AigerAnd) (bs : List ℕ)
    → All (λ (g : AigerAnd). IsInt g.o × IsInt g.i1 × IsInt g.i2) gs
    → AtLine bs
    → read_text_ands (length gs) (print_text_ands gs bs) ≡ some (gs, bs)
unfolding read_text_ands to_unsigned
read_text_ands-print [] bs ints h = refl
read_text_ands-print (g ∷ gs) bs ((o, i1, i2), ints) h =
    let rest = print_text_ands gs bs in
    let at = AtLine-AtStop rest (print_text_ands-AtLine gs bs h) in
    let first = next_line-newline (decimal g.o ++ field g.i1 (field g.i2 rest)) in
    let output =
      decimal_lem g.o (field g.i1 (field g.i2 rest)) o (field-AtStop g.i1 (field g.i2 rest)) in
    let left = field_lem g.i1 (field g.i2 rest) i1 (field-AtStop g.i2 rest) in
    let right = field_lem g.i2 rest i2 at in
    let more = read_text_ands-print gs bs ints h in rw (first, output, left, right, more) refl

-- The first five numbers of the header, and whether they add up.
header_start :
    (i l a o : ℕ) (bs : List ℕ)
    → IsInt (i + l + a)
    → IsInt o
    → AtStop bs
    → (read_literal (field (i + l + a) (field i (field l (field o (field a bs)))))
        ≡ some (pos (i + l + a), field i (field l (field o (field a bs)))))
      × (read_literal (field i (field l (field o (field a bs))))
          ≡ some (pos i, field l (field o (field a bs))))
      × (read_literal (field l (field o (field a bs))) ≡ some (pos l, field o (field a bs)))
      × (read_literal (field o (field a bs)) ≡ some (pos o, field a bs))
      × (read_literal (field a bs) ≡ some (pos a, bs))
header_start i l a o bs all out stop = (
  field_lem (i + l + a) (field i (field l (field o (field a bs)))) all
      (field-AtStop i (field l (field o (field a bs)))),
  field_lem i (field l (field o (field a bs))) (omega (arith, all))
      (field-AtStop l (field o (field a bs))),
  field_lem l (field o (field a bs)) (omega (arith, all)) (field-AtStop o (field a bs)),
  field_lem o (field a bs) out (field-AtStop a bs),
  field_lem a bs (omega (arith, all)) stop,
)

pub read_header-print :
    (f : File) (bs : List ℕ)
    → IsPrintable f
    → AtLine bs
    → read_header (print_header f bs) ≡ some ((loaded false f).header, bs)
unfolding read_header loaded max_0
read_header-print f bs p h =
    let i = length f.inputs in
    let l = length f.latches in
    let a = length f.ands in
    let b = length f.bads in
    let c = length f.constraints in
    let j = f.num_justice in
    let k = f.num_fairness in
    let all = p.num_variables in
    let two = add_int-pos i l (omega (arith, all)) in
    let three = add_int-pos (i + l) a all in
    let sum = ==_refl (i + l + a) in
    elim (Bool-cases (b + c + j + k == 0)) [
      | inl t ↦
          let none_left = ==→eq (b + c + j + k) 0 t in
          let b0 : b ≡ 0 = omega (arith, none_left) in
          let c0 : c ≡ 0 = omega (arith, none_left) in
          let j0 : j ≡ 0 = omega (arith, none_left) in
          let k0 : k ≡ 0 = omega (arith, none_left) in
          let (r1, r2, r3, r4, r5) =
            header_start i l a (length f.outputs) bs all p.num_outputs (AtLine-AtStop bs h) in
          let r6 = end_lem bs h in
          rw (t, r1, r2, r3, r4, r5, r6, r6, r6, r6, two, three, sum, b0, c0, j0, k0) refl
      | inr t ↦
          let tail = field b (field c (field j (field k bs))) in
          let (r1, r2, r3, r4, r5) =
            header_start i l a (length f.outputs) tail all p.num_outputs
              (field-AtStop b (field c (field j (field k bs)))) in
          let r6 =
            field_lem b (field c (field j (field k bs))) p.num_bads
              (field-AtStop c (field j (field k bs))) in
          let r7 =
            field_lem c (field j (field k bs)) p.num_constraints (field-AtStop j (field k bs)) in
          let r8 = field_lem j (field k bs) p.num_justice (field-AtStop k bs) in
          let r9 = field_lem k bs p.num_fairness (AtLine-AtStop bs h) in
          rw (t, r1, r2, r3, r4, r5, r6, r7, r8, r9, two, three, sum) refl
    ]

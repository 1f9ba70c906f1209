-- ===== src/Aiger/Read/Tables.antt =====
-- The binary gates, the symbols and the comment of a printed file are read back.
use modelchecker.Common.{
  ℕ, zero, suc, ◌+◌, ◌-◌, ◌*◌, ◌%◌, ◌^◌, ◌≤◌, ◌≡◌, ◌≢◌, ◌⊎◌, refl, ◌∙◌, ap, Bool, true, false, some,
  List, [], ◌∷◌, ◌++◌, ltb, ◌==◌, pos, neg, if◌then◌else◌, length, length-append, All, inl, inr,
  arith,
}
use mathlib.Core.List.{append_assoc}
use modelchecker.Literal.{to_int}
use modelchecker.Aiger.{AigerAnd}
use modelchecker.Aiger.Read.{
  newline, is_digit, read_literal, read_name, read_symbol, read_symbols, is_symbol, set_symbol,
  advance, read_string, expect, read_comments, read_tables, add_ℤ, add_int, to_unsigned, encode,
  read_binary_ands,
}
use modelchecker.Aiger.Read.Decimal.{IsInt, to_int-pos, wrap-pos, decimal}
use modelchecker.Aiger.Read.Codec.{decode-encode}
use modelchecker.Aiger.Read.Print.{
  File, Symbol, Kind, input, latch, output, letter, print_symbols, print_binary_ands, print_tables,
  symbol_table, AndsFrom, IsPrintable,
}
use modelchecker.Aiger.Read.Lines.{decimal_lem}

-- The difference of two literals is read as it was written.
minus_by : (n m d : ℕ) → m ≤ n → n - m ≡ d → add_ℤ (pos n) (neg (pos d)) ≡ pos m
unfolding add_ℤ
minus_by n m zero le e = ap pos (omega (arith, e, le))
minus_by n m (suc d) le e =
    let test : ltb d n ≡ true = ground (arith, e) in rw test (ap pos (omega (arith, e, le)))

minus : (n m : ℕ) → m ≤ n → IsInt n → add_int (pos n) (neg (to_int (n - m))) ≡ pos m
unfolding add_int
minus n m le lt =
    let small = to_int-pos (n - m) (omega (arith, lt)) in
    let true_difference = minus_by n m (n - m) le refl in
    rw (small, true_difference) (wrap-pos m (omega (arith, le, lt)))

pub read_binary_ands-print :
    (v : ℕ) (gs : List AigerAnd) (bs : List ℕ)
    → AndsFrom v gs
    → read_binary_ands v (length gs) (print_binary_ands gs bs) ≡ some (gs, bs)
unfolding read_binary_ands to_unsigned
read_binary_ands-print v [] bs h = refl
read_binary_ands-print v (g ∷ gs) bs (o, l, r, small, h) =
    let rest = print_binary_ands gs bs in
    let first =
      decode-encode (g.o - g.i1) (encode [] (g.i1 - g.i2) ++ rest) (omega (arith, small)) in
    let second = decode-encode (g.i1 - g.i2) rest (omega (arith, small, l)) in
    let more = read_binary_ands-print (suc v) gs bs h in
    let left = minus g.o g.i1 l small in
    let right = minus g.i1 g.i2 r (omega (arith, small, l)) in
    let whose : 2 * v % 2 ^ 32 ≡ g.o = omega (arith, o, small) in
    let own = to_int-pos g.o small in rw (first, second, more, whose, own, left, right) refl

read_name_lem :
    (name bs : List ℕ)
    → All (λ b. b ≢ newline) name
    → read_name (name ++ newline ∷ bs) ≡ some (name, newline ∷ bs)
unfolding read_name
read_name_lem [] bs h = refl
read_name_lem (b ∷ name) bs (ne, h) =
    let other : (b == newline) ≡ false = ground (arith, ne) in
    let more = read_name_lem name bs h in rw (other, more) refl

read_string_lem : (text : List ℕ) → All (λ b. b ≢ 0) text → read_string (text ++ 0 ∷ []) ≡ some text
unfolding read_string
read_string_lem [] h = refl
read_string_lem (b ∷ text) (ne, h) =
    let other : (b == 0) ≡ false = ground (arith, ne) in
    let more = read_string_lem text h in rw (other, more) refl

-- read_literal starts at the letter.
read_literal-letter : (k : Kind) (bs : List ℕ) → read_literal (letter k ∷ bs) ≡ read_literal bs
unfolding read_literal is_digit
read_literal-letter input bs = refl
read_literal-letter latch bs = refl
read_literal-letter output bs = refl

letter-is_symbol : (k : Kind) → is_symbol (letter k) ≡ true
unfolding is_symbol
letter-is_symbol input = refl
letter-is_symbol latch = refl
letter-is_symbol output = refl

read_symbol_lem :
    (s : Symbol) (bs : List ℕ)
    → IsInt s.position
    → All (λ b. b ≢ newline) s.name
    → read_symbol (letter s.kind ∷ (decimal s.position ++ b' ' ∷ (s.name ++ newline ∷ bs)))
      ≡ some ((s.position, s.name), newline ∷ bs)
unfolding read_symbol advance to_unsigned
read_symbol_lem s bs int h =
    let rest = s.name ++ newline ∷ bs in
    let start = read_literal-letter s.kind (decimal s.position ++ b' ' ∷ rest) in
    let number =
      decimal_lem s.position (b' ' ∷ rest) int (b' ', rest, refl, unfold is_digit in refl) in
    let name = read_name_lem s.name bs h in rw (start, number, name) refl

-- One round for each symbol; what follows ends the loop in the next one.
read_symbols-print :
    (ss : List Symbol) (fuel : ℕ) (table : List (ℕ × List ℕ)) (bs : List ℕ)
    → All (λ (s : Symbol). All (λ b. b ≢ newline) s.name) ss
    → All (λ (s : Symbol). IsInt s.position) ss
    → length ss ≤ fuel
    → read_symbols fuel table (print_symbols ss bs)
      ≡ read_symbols (fuel - length ss) (symbol_table ss table) bs
unfolding read_symbols advance
read_symbols-print [] fuel table bs h ints le = let e : fuel - 0 ≡ fuel = omega arith in rw e refl
read_symbols-print (s ∷ ss) zero table bs h ints le = absurd (omega (arith, le))
read_symbols-print (s ∷ ss) (suc fuel) table bs (h, hs) (int, ints) le =
    let round = read_symbol_lem s (print_symbols ss bs) int h in
    let test = letter-is_symbol s.kind in
    let more =
      read_symbols-print ss fuel (set_symbol s.position s.name table) bs hs ints
        (omega (arith, le)) in
    let e : suc fuel - suc (length ss) ≡ fuel - length ss = omega arith in
    rw (test, round, more, e) refl

-- What stands behind the symbols: the end, or a comment.
abbrev closing : Bool → List ℕ → List ℕ
closing has_comments text = if has_comments then b'c' ∷ newline ∷ text else []

read_symbols-closing :
    (fuel : ℕ) (table : List (ℕ × List ℕ)) (has_comments : Bool) (text : List ℕ)
    → read_symbols (suc fuel) table (closing has_comments text ++ 0 ∷ [])
      ≡ some ((has_comments, table), if has_comments then newline ∷ (text ++ 0 ∷ []) else 0 ∷ [])
unfolding read_symbols is_symbol
read_symbols-closing fuel table true text = refl
read_symbols-closing fuel table false text = refl

read_comments_lem :
    (has_comments : Bool) (text : List ℕ)
    → All (λ b. b ≢ 0) text
    → read_comments has_comments (if has_comments then newline ∷ (text ++ 0 ∷ []) else 0 ∷ [])
      ≡ some (if has_comments then text else [])
unfolding read_comments expect
read_comments_lem true text h = read_string_lem text h
read_comments_lem false text h = refl

print_symbols-append :
    (ss : List Symbol) (bs t : List ℕ) → print_symbols ss bs ++ t ≡ print_symbols ss (bs ++ t)
print_symbols-append [] bs t = refl
print_symbols-append (s ∷ ss) bs t =
    ap (λ r. letter s.kind ∷ r)
      (append_assoc (decimal s.position) (b' ' ∷ (s.name ++ newline ∷ print_symbols ss bs)) t
        ∙ ap (λ r. decimal s.position ++ b' ' ∷ r)
            (append_assoc s.name (newline ∷ print_symbols ss bs) t
              ∙ ap (λ r. s.name ++ newline ∷ r) (print_symbols-append ss bs t)))

length-print_symbols :
    (ss : List Symbol) (bs : List ℕ) → length ss + length bs ≤ length (print_symbols ss bs)
length-print_symbols [] bs = omega arith
length-print_symbols (s ∷ ss) bs =
    let more = length-print_symbols ss bs in
    let e1 =
      length-append (decimal s.position) (b' ' ∷ (s.name ++ newline ∷ print_symbols ss bs)) in
    let e2 = length-append s.name (newline ∷ print_symbols ss bs) in omega (arith, more, e1, e2)

-- The symbols and the comment, from the byte behind the gates in the binary form.
read_all :
    (f : File)
    → IsPrintable f
    → (r : Bool × List (ℕ × List ℕ)) × (bs : List ℕ) × (read_symbols
          (length (print_tables f ++ 0 ∷ []))
          []
          (print_tables f ++ 0 ∷ [])
        ≡ some (r, bs))
      × (r.1 ≡ symbol_table f.symbols [])
      × (read_comments r.0 bs ≡ some (if f.has_comments then f.comments else []))
read_all f h =
    let whole = print_symbols-append f.symbols (closing f.has_comments f.comments) (0 ∷ []) in
    let tail = closing f.has_comments f.comments ++ 0 ∷ [] in
    let size = length-print_symbols f.symbols tail in
    let some_tail = length-append (closing f.has_comments f.comments) (0 ∷ []) in
    let fuel = length (print_symbols f.symbols tail) in
    let enough : length f.symbols ≤ fuel = omega (arith, size) in
    let one : fuel - length f.symbols ≡ suc (fuel - length f.symbols - 1) =
      omega (arith, size, some_tail) in
    (
      (f.has_comments, symbol_table f.symbols []),
      _,
      rw whole (
          read_symbols-print f.symbols fuel [] tail h.names h.positions enough
          ∙ ap (λ n. read_symbols n (symbol_table f.symbols []) tail) one
          ∙ read_symbols-closing (fuel - length f.symbols - 1) (symbol_table f.symbols [])
              f.has_comments f.comments),
      refl,
      read_comments_lem f.has_comments f.comments h.comment,
    )

-- Where there is neither a symbol nor a comment, at most the 0 and the end of a line are left.
tables-cases :
    (f : File)
    → ((print_tables f ≡ []) × (f.symbols ≡ []) × (f.has_comments ≡ false))
      ⊎ (2 ≤ length (print_tables f))
tables-cases f = cases f.symbols f.has_comments f.comments
  where
    cases :
        (ss : List Symbol) (c : Bool) (text : List ℕ)
        → ((print_symbols ss (closing c text) ≡ []) × (ss ≡ []) × (c ≡ false))
          ⊎ (2 ≤ length (print_symbols ss (closing c text)))
    cases [] true text = inr (omega arith)
    cases [] false text = inl (refl, refl, refl)
    cases (s ∷ ss) c text =
        let e1 =
          length-append (decimal s.position)
            (b' ' ∷ (s.name ++ newline ∷ print_symbols ss (closing c text))) in
        inr (omega (arith, e1))

-- What the reader makes of what follows the gates.
pub record Tables (f : File) (binary_mode : Bool) (bs : List ℕ) : Type 0 where
  pub result : Bool × List (ℕ × List ℕ)
  pub rest : List ℕ
  pub reads : read_tables binary_mode bs ≡ some (result, rest)
  pub table : result.1 ≡ symbol_table f.symbols []
  pub text : read_comments result.0 rest ≡ some (if f.has_comments then f.comments else [])

pub binary-Tables : (f : File) → IsPrintable f → Tables f true (print_tables f ++ 0 ∷ [])
unfolding read_tables
binary-Tables f h = elim (tables-cases f) [
  | inl (bare, no_symbols, no_text) ↦ record {
    result = (false, []);
    rest = 0 ∷ [];
    reads = rw (bare) refl;
    table = rw no_symbols refl;
    text = unfold read_comments in rw no_text refl;
  }
  | inr size ↦
      let (r, bs, reads, table, text) = read_all f h in
      let e = length-append (print_tables f) (0 ∷ []) in
      let test : ltb 2 (length (print_tables f ++ 0 ∷ [])) ≡ true = ground (arith, e, size) in
      record { result = r; rest = bs; reads = rw (test) reads; table = table; text = text }
]

pub text-Tables : (f : File) → IsPrintable f → Tables f false (newline ∷ (print_tables f ++ 0 ∷ []))
unfolding read_tables read_name advance
text-Tables f h = elim (tables-cases f) [
  | inl (bare, no_symbols, no_text) ↦ record {
    result = (false, []);
    rest = newline ∷ 0 ∷ [];
    reads = rw (bare) refl;
    table = rw no_symbols refl;
    text = unfold read_comments in rw no_text refl;
  }
  | inr size ↦
      let (r, bs, reads, table, text) = read_all f h in
      let e = length-append (print_tables f) (0 ∷ []) in
      let test : ltb 2 (suc (length (print_tables f ++ 0 ∷ []))) ≡ true = ground (arith, e, size) in
      record { result = r; rest = bs; reads = rw (test) reads; table = table; text = text }
]

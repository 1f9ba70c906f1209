-- ===== src/Aiger/Read.antt =====
-- The reader of AIGER files (aig.cpp): read_literal, decode, encode and load_aiger_from_file.
pub mod Decimal
pub mod Codec
pub mod Bytes
pub mod Print
pub mod Lines
pub mod Tables
pub mod RoundTrip
pub mod Legal
pub mod Rejects
use modelchecker.Common.{
  ℕ, zero, suc, ◌+◌, ◌-◌, ◌*◌, ◌/◌, ◌%◌, ◌^◌, Bool, true, false, ◌&&◌, ◌||◌, Option, none, some,
  ◌>>=◌, List, [], ◌∷◌, ◌++◌, ltb, leb, ◌==◌, ℤ, pos, negsuc, neg, ◌==ℤ◌, if◌then◌else◌, length,
}
use modelchecker.Literal.{to_int}
use modelchecker.Aiger.{AigerLatch, AigerAnd, Aiger}

-- The buffer from fbuf on: the bytes of the file, and the 0 after them. A read behind that 0 is
-- `none`, and so is a failed assert.
abbrev pub Buffer : Type 0
Buffer = List ℕ

abbrev pub Reader : Type 0 → Type 0
Reader A = Buffer → Option (A × Buffer)

abbrev pub newline : ℕ
newline = 10

unfoldable pub is_digit : ℕ → Bool
is_digit b = leb 48 b && leb b 57

-- A char is signed, so that a byte from 128 on is below '0', and no digit either. The number has 32
-- bits, as every int here, and is one of 0 to 2 ^ 32 - 1 until read_literal returns it.
unfoldable pub read_digits : ℕ → Reader ℕ
read_digits result [] = none
read_digits result (b ∷ bs) =
    if is_digit b then read_digits ((result * 10 + (b - 48)) % 2 ^ 32) bs else some (result, b ∷ bs)

-- -1 at the end of the line, which stays.
unfoldable pub read_literal : Reader ℤ
read_literal [] = none
read_literal (b ∷ bs) =
    if is_digit b
    then (do (n, rest) ← read_digits 0 (b ∷ bs); some (to_int n, rest))
    else if b == newline
    then some (negsuc 0, b ∷ bs)
    else read_literal bs

-- fbuf++
unfoldable pub advance : Reader (Unit {0})
advance [] = none
advance (b ∷ bs) = some (tt, bs)

-- The byte at fbuf.
unfoldable pub peek : Buffer → Option ℕ
peek [] = none
peek (b ∷ bs) = some b

-- The groups so far are below 2 ^ (7 i), so that `|` is `+`. From the sixth byte on the shift is
-- not defined.
unfoldable pub decode_from : ℕ → ℕ → Reader ℕ
decode_from i x [] = none
decode_from i x (ch ∷ bs) =
    let sum = (x + ch % 128 * 2 ^ (7 * i)) % 2 ^ 32 in
    if ltb i 5 then (if leb 128 ch then decode_from (suc i) sum bs else some (sum, bs)) else none

unfoldable pub decode : Reader ℕ
decode bs = decode_from 0 0 bs

-- The loop of encode, which appends to `str`; five rounds are enough for 32 bits.
unfoldable pub encode_from : ℕ → List ℕ → ℕ → List ℕ
encode_from zero str x = str
encode_from (suc fuel) str x =
    let more = encode_from fuel (str ++ (x % 128 + 128) ∷ []) (x / 128) in
    if ltb x 128 then str ++ x ∷ [] else more

unfoldable pub encode : List ℕ → ℕ → List ℕ
encode str x = encode_from 5 str x

unfoldable pub add_ℤ : ℤ → ℤ → ℤ
add_ℤ (pos a) (pos b) = pos (a + b)
add_ℤ (pos a) (negsuc b) = if ltb b a then pos (a - b - 1) else negsuc (b - a)
add_ℤ (negsuc a) (pos b) = if ltb a b then pos (b - a - 1) else negsuc (a - b)
add_ℤ (negsuc a) (negsuc b) = negsuc (suc (a + b))

-- The int of 32 bits.
unfoldable pub wrap : ℤ → ℤ
wrap (pos n) = to_int (n % 2 ^ 32)
wrap (negsuc n) = to_int (2 ^ 32 - 1 - n % 2 ^ 32)

-- a + b
unfoldable pub add_int : ℤ → ℤ → ℤ
add_int a b = wrap (add_ℤ a b)

-- max(n, 0)
unfoldable pub max_0 : ℤ → ℕ
max_0 (pos n) = n
max_0 (negsuc n) = 0

-- An int as an unsigned number.
unfoldable pub to_unsigned : ℤ → ℕ
to_unsigned (pos n) = n
to_unsigned (negsuc n) = 2 ^ 32 - 1 - n

-- A number that is not there is read as -1.
pub record Header : Type 0 where
  pub max_var : ℤ
  pub num_inputs : ℤ
  pub num_latches : ℤ
  pub num_outputs : ℤ
  pub num_ands : ℤ
  pub num_bads : ℕ
  pub num_constraints : ℕ
  pub num_justice : ℕ
  pub num_fairness : ℕ

pub record Loaded : Type 0 where
  pub binary_mode : Bool
  pub header : Header
  pub inputs : List ℕ
  pub latches : List AigerLatch
  pub outputs : List ℕ
  pub bads : List ℕ
  pub constraints : List ℕ
  pub ands : List AigerAnd
  pub symbols : List (ℕ × List ℕ)
  pub comments : List ℕ

unfoldable pub expect : ℕ → Reader (Unit {0})
expect a [] = none
expect a (b ∷ bs) = if a == b then some (tt, bs) else none

-- aag or aig; the g stays.
unfoldable pub read_magic : Reader Bool
read_magic bs = do
  (_, r1) ← expect b'a' bs
  c ← peek r1
  (_, r2) ← (if c == b'i' then advance r1 else expect b'a' r1)
  (_, r3) ← expect b'g' r2
  some (c == b'i', r2)

unfoldable pub read_header : Reader Header
read_header b0 = do
  (m, b1) ← read_literal b0
  (i, b2) ← read_literal b1
  (l, b3) ← read_literal b2
  (o, b4) ← read_literal b3
  (a, b5) ← read_literal b4
  (b, b6) ← read_literal b5
  (c, b7) ← read_literal b6
  (j, b8) ← read_literal b7
  (f, b9) ← read_literal b8
  if m ==ℤ add_int (add_int i l) a
      then some (
        record {
          max_var = m;
          num_inputs = i;
          num_latches = l;
          num_outputs = o;
          num_ands = a;
          num_bads = max_0 b;
          num_constraints = max_0 c;
          num_justice = max_0 j;
          num_fairness = max_0 f;
        },
        b9,
      )
      else none

-- read_literal(&fbuf); fbuf++;
unfoldable pub next_line : Reader (Unit {0})
next_line bs = do (_, rest) ← read_literal bs; advance rest

-- The inputs of the text form, the outputs, the bad literals and the constraints.
unfoldable pub read_literals : ℕ → Reader (List ℕ)
read_literals zero bs = some ([], bs)
read_literals (suc n) bs = do
  (_, r1) ← next_line bs
  (l, r2) ← read_literal r1
  (ls, r3) ← read_literals n r2
  some (to_unsigned l ∷ ls, r3)

unfoldable pub binary_inputs : ℕ → ℕ → List ℕ
binary_inputs i zero = []
binary_inputs i (suc n) = 2 * i % 2 ^ 32 ∷ binary_inputs (suc i) n

-- `v` is the variable of the latch in the binary form: where a latch is there, the number of inputs
-- is a natural number.
unfoldable pub read_latches : Bool → ℕ → ℕ → Reader (List AigerLatch)
read_latches binary_mode v zero bs = some ([], bs)
read_latches binary_mode v (suc n) bs = do
  (_, r1) ← next_line bs
  (l, r2) ← (if binary_mode then some (to_int (2 * v % 2 ^ 32), r1) else read_literal r1)
  (next, r3) ← read_literal r2
  (d, r4) ← read_literal r3
  (ls, r5) ← read_latches binary_mode (suc v) n r4
  some (record { l = to_unsigned l; next = to_unsigned next; default_val = max_0 d } ∷ ls, r5)

unfoldable pub read_binary_ands : ℕ → ℕ → Reader (List AigerAnd)
read_binary_ands v zero bs = some ([], bs)
read_binary_ands v (suc n) bs = do
  (d1, r1) ← decode bs
  (d2, r2) ← decode r1
  (gates, r3) ← read_binary_ands (suc v) n r2
  let o = to_int (2 * v % 2 ^ 32)
  let i1 = add_int o (neg (to_int d1))
  let i2 = add_int i1 (neg (to_int d2))
  some (record { o = to_unsigned o; i1 = to_unsigned i1; i2 = to_unsigned i2 } ∷ gates, r3)

unfoldable pub read_text_ands : ℕ → Reader (List AigerAnd)
read_text_ands zero bs = some ([], bs)
read_text_ands (suc n) bs = do
  (_, r1) ← next_line bs
  (o, r2) ← read_literal r1
  (i1, r3) ← read_literal r2
  (i2, r4) ← read_literal r3
  (gates, r5) ← read_text_ands n r4
  some (record { o = to_unsigned o; i1 = to_unsigned i1; i2 = to_unsigned i2 } ∷ gates, r5)

-- The bytes up to the end of the line, which stays.
unfoldable pub read_name : Reader (List ℕ)
read_name [] = none
read_name (b ∷ bs) =
    if b == newline
    then some ([], b ∷ bs)
    else (do (name, rest) ← read_name bs; some (b ∷ name, rest))

-- symbols[v] = tstr
unfoldable pub set_symbol : ℕ → List ℕ → List (ℕ × List ℕ) → List (ℕ × List ℕ)
set_symbol v name [] = (v, name) ∷ []
set_symbol v name ((w, old) ∷ more) =
    if v == w then (w, name) ∷ more else (w, old) ∷ set_symbol v name more

unfoldable pub read_symbol : Reader (ℕ × List ℕ)
read_symbol b0 = do
  (v, b1) ← read_literal b0
  (_, b2) ← advance b1
  (name, b3) ← read_name b2
  some ((to_unsigned v, name), b3)

unfoldable pub is_symbol : ℕ → Bool
is_symbol b = b == b'i' || b == b'l' || b == b'o'

-- The rounds of the loop, each behind its first fbuf++, and whether a comment follows. A round takes
-- a byte at least.
unfoldable pub read_symbols : ℕ → List (ℕ × List ℕ) → Reader (Bool × List (ℕ × List ℕ))
read_symbols zero table bs = none
read_symbols (suc fuel) table [] = none
read_symbols (suc fuel) table (b ∷ bs) =
    let symbol = (do
      ((v, name), r1) ← read_symbol (b ∷ bs)
      (_, r2) ← advance r1
      read_symbols fuel (set_symbol v name table) r2) in
    if is_symbol b
    then symbol
    else if b == b'c'
    then some ((true, table), bs)
    else some ((false, table), b ∷ bs)

-- The comment, up to the 0.
unfoldable pub read_string : Buffer → Option (List ℕ)
read_string [] = none
read_string (b ∷ bs) = if b == 0 then some [] else (do rest ← read_string bs; some (b ∷ rest))

unfoldable pub read_comments : Bool → Buffer → Option (List ℕ)
read_comments comments bs =
    if comments then (do (_, rest) ← expect newline bs; read_string rest) else some []

-- The text form goes to the end of the line, and the first fbuf++ behind it.
unfoldable pub read_tables : Bool → Reader (Bool × List (ℕ × List ℕ))
read_tables binary_mode b0 = do
  (_, b1) ←
      (if binary_mode then some (tt {0}, b0) else (do (_, r) ← read_name b0; some (tt {0}, r)))
  if ltb 2 (length b1)
      then (do
        (_, b2) ← (if binary_mode then some (tt {0}, b1) else advance b1)
        read_symbols (length b2) [] b2)
      else some ((false, []), b1)

unfoldable pub read_inputs : Bool → ℕ → Reader (List ℕ)
read_inputs binary_mode n bs =
    if binary_mode then some (binary_inputs 1 n, bs) else read_literals n bs

unfoldable pub read_ands : Bool → ℕ → ℕ → Reader (List AigerAnd)
read_ands binary_mode v n bs =
    if binary_mode
    then (do (_, rest) ← next_line bs; read_binary_ands v n rest)
    else read_text_ands n bs

unfoldable pub take : ℕ → List ℕ → List ℕ
take zero bs = []
take (suc n) [] = []
take (suc n) (b ∷ bs) = b ∷ take n bs

-- new char[size], which fails for a negative size, and tbuf[size - 1] = 0.
unfoldable pub read_bytes : (file : List ℕ) (size : ℤ) → Option Buffer
read_bytes file (pos zero) = none
read_bytes file (pos (suc len)) = some (take len file ++ 0 ∷ [])
read_bytes file (negsuc n) = none

-- The buffer of a file, whose length is read as an int.
unfoldable pub read_file : (file : List ℕ) → Option Buffer
read_file file = read_bytes file (add_int (to_int (length file % 2 ^ 32)) (pos 1))

-- load_aiger_from_file, for the bytes of the file.
unfoldable pub load_aiger_from_file : List ℕ → Option Loaded
load_aiger_from_file file = do
  buffer ← read_file file
  (binary_mode, b0) ← read_magic buffer
  (h, b1) ← read_header b0
  let num_inputs = max_0 h.num_inputs
  let num_latches = max_0 h.num_latches
  (inputs, b2) ← read_inputs binary_mode num_inputs b1
  (latches, b3) ← read_latches binary_mode (num_inputs + 1) num_latches b2
  (outputs, b4) ← read_literals (max_0 h.num_outputs) b3
  (bads, b5) ← read_literals h.num_bads b4
  (constraints, b6) ← read_literals h.num_constraints b5
  (ands, b7) ← read_ands binary_mode (num_inputs + num_latches + 1) (max_0 h.num_ands) b6
  ((more, symbols), b8) ← read_tables binary_mode b7
  comments ← read_comments more b8
  some (record {
    binary_mode = binary_mode;
    header = h;
    inputs = inputs;
    latches = latches;
    outputs = outputs;
    bads = bads;
    constraints = constraints;
    ands = ands;
    symbols = symbols;
    comments = comments;
  })

-- The class Aiger that the reader leaves to translate_to_dimacs; a number of the header that is not
-- there is -1, and no loop runs up to it.
unfoldable pub circuit_of : ℕ → Bool → Loaded → Aiger
circuit_of property_index find_bug_only r = record {
  num_inputs = max_0 r.header.num_inputs;
  num_latches = max_0 r.header.num_latches;
  num_ands = max_0 r.header.num_ands;
  num_outputs = max_0 r.header.num_outputs;
  num_bads = r.header.num_bads;
  num_constraints = r.header.num_constraints;
  num_property = 0;
  aiger_inputs = r.inputs;
  aiger_outputs = r.outputs;
  aiger_bads = r.bads;
  aiger_constraints = r.constraints;
  aiger_latches = r.latches;
  aiger_ands = r.ands;
  variables = [];
  ands = [];
  nexts = [];
  init_state = [];
  constraints = [];
  allbad = [];
  bad = pos 0;
  property_index = property_index;
  find_bug_only = find_bug_only;
  primed_first_dimacs = 0;
}

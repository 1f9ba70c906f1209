-- ===== src/Aiger/Read/Print.antt =====
-- The AIGER format, in its text and its binary form, as the format's report describes it.
use modelchecker.Common.{
  ℕ, zero, suc, ◌+◌, ◌-◌, ◌*◌, ◌^◌, ◌≤◌, ◌<◌, ◌≡◌, ◌≢◌, Bool, List, [], ◌∷◌, ◌++◌, ◌==◌, pos,
  if◌then◌else◌, length, All,
}
use modelchecker.Aiger.{AigerLatch, AigerAnd}
use modelchecker.Aiger.Read.{newline, Loaded, set_symbol, encode}
use modelchecker.Aiger.Read.Decimal.{IsInt, decimal}
use modelchecker.Aiger.Read.Bytes.{HasIntSize}

-- A symbol is `i`, `l` or `o`, the position, and the name.
pub data Kind : Type 0 where
  input latch output : Kind

pub record Symbol : Type 0 where
  pub kind : Kind
  pub position : ℕ
  pub name : List ℕ

pub record File : Type 0 where
  pub inputs : List ℕ
  pub latches : List AigerLatch
  pub outputs : List ℕ
  pub bads : List ℕ
  pub constraints : List ℕ
  pub num_justice : ℕ
  pub num_fairness : ℕ
  pub ands : List AigerAnd
  pub symbols : List Symbol
  pub has_comments : Bool
  pub comments : List ℕ

abbrev pub field : ℕ → List ℕ → List ℕ
field n rest = b' ' ∷ (decimal n ++ rest)

-- A line stands behind the end of the line before.
abbrev pub line : ℕ → List ℕ → List ℕ
line n rest = newline ∷ (decimal n ++ rest)

abbrev pub print_lines : List ℕ → List ℕ → List ℕ
print_lines [] rest = rest
print_lines (l ∷ ls) rest = line l (print_lines ls rest)

-- The last four numbers of the header may be left out if they are 0.
abbrev pub print_header : File → List ℕ → List ℕ
print_header f rest =
    let i = length f.inputs in
    let l = length f.latches in
    let a = length f.ands in
    let more = length f.bads + length f.constraints + f.num_justice + f.num_fairness in
    let properties =
      if more == 0
      then rest
      else field (length f.bads)
          (field (length f.constraints) (field f.num_justice (field f.num_fairness rest))) in
    field (i + l + a) (field i (field l (field (length f.outputs) (field a properties))))

-- A reset value of 0 is left out.
abbrev pub print_reset : ℕ → List ℕ → List ℕ
print_reset zero rest = rest
print_reset (suc d) rest = field (suc d) rest

abbrev pub print_text_latches : List AigerLatch → List ℕ → List ℕ
print_text_latches [] rest = rest
print_text_latches (l ∷ ls) rest =
    line l.l (field l.next (print_reset l.default_val (print_text_latches ls rest)))

abbrev pub print_binary_latches : List AigerLatch → List ℕ → List ℕ
print_binary_latches [] rest = rest
print_binary_latches (l ∷ ls) rest =
    line l.next (print_reset l.default_val (print_binary_latches ls rest))

abbrev pub print_text_ands : List AigerAnd → List ℕ → List ℕ
print_text_ands [] rest = rest
print_text_ands (g ∷ gs) rest = line g.o (field g.i1 (field g.i2 (print_text_ands gs rest)))

abbrev pub print_binary_ands : List AigerAnd → List ℕ → List ℕ
print_binary_ands [] rest = rest
print_binary_ands (g ∷ gs) rest =
    encode [] (g.o - g.i1) ++ (encode [] (g.i1 - g.i2) ++ print_binary_ands gs rest)

abbrev pub letter : Kind → ℕ
letter input = b'i'
letter latch = b'l'
letter output = b'o'

abbrev pub print_symbols : List Symbol → List ℕ → List ℕ
print_symbols [] rest = rest
print_symbols (s ∷ ss) rest =
    letter s.kind ∷ (decimal s.position ++ b' ' ∷ (s.name ++ newline ∷ print_symbols ss rest))

abbrev pub print_tables : File → List ℕ
print_tables f =
    print_symbols f.symbols (if f.has_comments then b'c' ∷ newline ∷ f.comments else [])

abbrev pub print_properties : File → List ℕ → List ℕ
print_properties f rest =
    print_lines f.outputs (print_lines f.bads (print_lines f.constraints rest))

unfoldable pub print_text : File → List ℕ
print_text f =
    b'a'
    ∷ b'a'
    ∷ b'g'
    ∷ print_header f (
        print_lines f.inputs (
          print_text_latches f.latches
            (print_properties f (print_text_ands f.ands (newline ∷ print_tables f)))))

unfoldable pub print_binary : File → List ℕ
print_binary f =
    b'a'
    ∷ b'i'
    ∷ b'g'
    ∷ print_header f (
        print_binary_latches f.latches
          (print_properties f (newline ∷ print_binary_ands f.ands (print_tables f))))

-- A position has one symbol, whatever its kind: the last one.
abbrev pub symbol_table : List Symbol → List (ℕ × List ℕ) → List (ℕ × List ℕ)
symbol_table [] table = table
symbol_table (s ∷ ss) table = symbol_table ss (set_symbol s.position s.name table)

unfoldable pub loaded : Bool → File → Loaded
loaded binary_mode f = record {
  binary_mode = binary_mode;
  header = record {
    max_var = pos (length f.inputs + length f.latches + length f.ands);
    num_inputs = pos (length f.inputs);
    num_latches = pos (length f.latches);
    num_outputs = pos (length f.outputs);
    num_ands = pos (length f.ands);
    num_bads = length f.bads;
    num_constraints = length f.constraints;
    num_justice = f.num_justice;
    num_fairness = f.num_fairness;
  };
  inputs = f.inputs;
  latches = f.latches;
  outputs = f.outputs;
  bads = f.bads;
  constraints = f.constraints;
  ands = f.ands;
  symbols = symbol_table f.symbols [];
  comments = if f.has_comments then f.comments else [];
}

-- All numbers are ints, names are within their lines, and a comment has no 0.
pub record IsPrintable (f : File) : Type 0 where
  pub names : All (λ (s : Symbol). All (λ b. b ≢ newline) s.name) f.symbols
  pub comment : All (λ b. b ≢ 0) f.comments
  pub input_literals : All IsInt f.inputs
  pub latch_literals :
      All (λ (l : AigerLatch). IsInt l.l × IsInt l.next × IsInt l.default_val) f.latches
  pub and_literals : All (λ (g : AigerAnd). IsInt g.o × IsInt g.i1 × IsInt g.i2) f.ands
  pub output_literals : All IsInt f.outputs
  pub bad_literals : All IsInt f.bads
  pub constraint_literals : All IsInt f.constraints
  pub positions : All (λ (s : Symbol). IsInt s.position) f.symbols
  pub num_variables : IsInt (length f.inputs + length f.latches + length f.ands)
  pub num_outputs : IsInt (length f.outputs)
  pub num_bads : IsInt (length f.bads)
  pub num_constraints : IsInt (length f.constraints)
  pub num_justice : IsInt f.num_justice
  pub num_fairness : IsInt f.num_fairness

-- In the binary form the inputs, the latches and the gates have the variables 1, 2, and so on.
abbrev pub CountsFrom : ℕ → List ℕ → Type 0
CountsFrom v [] = Unit {0}
CountsFrom v (l ∷ ls) = (l ≡ 2 * v) × CountsFrom (suc v) ls

abbrev pub LatchesFrom : ℕ → List AigerLatch → Type 0
LatchesFrom v [] = Unit {0}
LatchesFrom v (l ∷ ls) = (l.l ≡ 2 * v) × LatchesFrom (suc v) ls

-- A gate has no larger literal as an input, and the larger one first.
abbrev pub AndsFrom : ℕ → List AigerAnd → Type 0
AndsFrom v [] = Unit {0}
AndsFrom v (g ∷ gs) =
    (g.o ≡ 2 * v) × (g.i1 ≤ g.o) × (g.i2 ≤ g.i1) × (g.o < 2 ^ 31) × AndsFrom (suc v) gs

pub record IsBinary (f : File) : Type 0 where
  pub printable : IsPrintable f
  pub inputs : CountsFrom 1 f.inputs
  pub latches : LatchesFrom (length f.inputs + 1) f.latches
  pub ands : AndsFrom (length f.inputs + length f.latches + 1) f.ands
  pub size : HasIntSize (print_binary f)

-- ===== src/Samples/Files.antt =====
-- The sample circuit as a file.
use modelchecker.Common.{◌≡◌, refl, true, none, some, [], ◌∷◌, ◌++◌, pos, inr, arith}
use modelchecker.Aiger.{Aiger}
use modelchecker.Aiger.Read.{
  newline, load_aiger_from_file, encode, decode, read_header, read_literal, read_digits, is_digit,
  add_int, wrap, add_ℤ, max_0,
}
use modelchecker.Literal.{to_int}
use modelchecker.Aiger.Read.Print.{File, input}
use modelchecker.CommandLine.{codes}
use modelchecker.Aiger.Read.Bytes.{HasIntSize}
use modelchecker.Aiger.Read.Decimal.{decimal, decimal_from}
use modelchecker.Aiger.Read.Codec.{decode-encode}
use modelchecker.Aiger.Read.Rejects.{with_header, load_aiger_from_file-none}

abbrev sample_file : File
sample_file = record {
  inputs = 2 ∷ 4 ∷ [];
  latches = record { l = 6; next = 9; default_val = 0 } ∷ [];
  outputs = [];
  bads = 10 ∷ [];
  constraints = [];
  num_justice = 0;
  num_fairness = 0;
  ands = record { o = 8; i1 = 5; i2 = 2 } ∷ record { o = 10; i1 = 8; i2 = 6 } ∷ [];
  symbols = record { kind = input; position = 1; name = b'x' ∷ [] } ∷ [];
  has_comments = true;
  comments = b'o' ∷ b'k' ∷ newline ∷ [];
}

header_size : HasIntSize (with_header b'i' 4 2 1 0 2 [])
unfolding decimal decimal_from
header_size = omega arith

decode-encode_example : decode (encode [] 300 ++ 7 ∷ []) ≡ some (300, 7 ∷ [])
decode-encode_example = decode-encode 300 (7 ∷ []) (omega arith)

-- 4 is not 2 + 1 + 2.
load_aiger_from_file-none_example : load_aiger_from_file (with_header b'i' 4 2 1 0 2 []) ≡ none
load_aiger_from_file-none_example =
    load_aiger_from_file-none b'i' 4 2 1 0 2 [] (inr refl) (omega arith) (omega arith) (omega arith)
      (omega arith) header_size

-- A first number of 2 ^ 32 is read as 0.
wrapped_header :
    read_header (codes " 4294967296 0 0 1 0" ++ newline ∷ [])
    ≡ some (
      record {
        max_var = pos 0;
        num_inputs = pos 0;
        num_latches = pos 0;
        num_outputs = pos 1;
        num_ands = pos 0;
        num_bads = 0;
        num_constraints = 0;
        num_justice = 0;
        num_fairness = 0;
      },
      newline ∷ [],
    )
wrapped_header =
    unfold read_header in
    unfold read_literal in
    unfold read_digits in
    unfold is_digit in
    unfold add_int in unfold wrap in unfold add_ℤ in unfold to_int in unfold max_0 in refl

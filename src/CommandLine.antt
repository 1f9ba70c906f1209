-- ===== src/CommandLine.antt =====
-- main.cpp, with validateInput of basic.hpp: the options, the threads that are started, and the last
-- line of the output.
pub mod Ranges
pub mod Printed
use Prim.Native.Char.{code}
use Prim.Native.String.{String}
use modelchecker.Common.{
  ℕ, zero, suc, ◌+◌, ◌-◌, ◌*◌, ◌^◌, Bool, true, false, not, ◌&&◌, ◌||◌, List, [], ◌∷◌, ◌==◌, ltb,
  leb, ℤ, pos, negsuc, abs, ltb_ℤ, ◌==ℤ◌, if◌then◌else◌,
}
use modelchecker.Aiger.{Aiger}
use modelchecker.Aiger.Read.{is_digit}
use modelchecker.Bmc.Solve.{Answer}
use modelchecker.Bmc.Check.{Verdict, check}

-- The bytes of an argument, without the 0 behind them.
abbrev pub Text : Type 0
Text = List ℕ

-- The bytes of a text in ASCII.
abbrev pub codes : String → Text
codes String.[] = []
codes (String.◌∷◌ c s) = code c ∷ codes s

unfoldable pub same_text : Text → Text → Bool
same_text [] [] = true
same_text [] (b ∷ bs) = false
same_text (a ∷ as_) [] = false
same_text (a ∷ as_) (b ∷ bs) = (a == b) && same_text as_ bs

-- INT_MAX
abbrev pub int_max : ℕ
int_max = 2147483647

unfoldable pub all_digits : Text → Bool
all_digits [] = true
all_digits (c ∷ cs) = is_digit c && all_digits cs

unfoldable pub is_number : Text → Bool
is_number [] = false
is_number (c ∷ cs) = all_digits (c ∷ cs)

unfoldable pub digits_value : ℕ → Text → ℕ
digits_value n [] = n
digits_value n (c ∷ cs) = digits_value (n * 10 + (c - 48)) cs

module _ (overflow : ℕ → ℤ) where
  -- atoi on digits: its result on a number above INT_MAX is not defined, and is `overflow` of it.
  unfoldable pub atoi : Text → ℤ
  atoi value = let n = digits_value 0 value in if leb n int_max then pos n else overflow n

  unfoldable pub validate_input : Text → (min max default_value : ℤ) → ℤ
  validate_input value min max default_value =
      let num = atoi value in
      if not (is_number value)
      then default_value
      else if ltb_ℤ num min || ltb_ℤ max num
      then default_value
      else num

-- The variables that the options set; nframes, bmc_thread and pdr_thread are globals.
pub record Options : Type 0 where
  pub property_index : ℤ
  pub pr : Bool
  pub uc : Bool
  pub witness : Bool
  pub certificate : Bool
  pub find_bug_only : Bool
  pub log : Bool
  pub nframes : ℤ
  pub bmc_thread : ℤ
  pub pdr_thread : ℤ

abbrev pub default_options : Options
default_options = record {
  property_index = pos 0;
  pr = false;
  uc = false;
  witness = false;
  certificate = false;
  find_bug_only = false;
  log = false;
  nframes = pos 2147483646;
  bmc_thread = pos 0;
  pdr_thread = pos 0;
}

-- isdigit(argv[i + 1][0]); an empty argument has a 0 there.
unfoldable pub starts_with_digit : Text → Bool
starts_with_digit [] = false
starts_with_digit (c ∷ cs) = is_digit c

module _ (overflow : ℕ → ℤ) where
  -- The options with a value: whether `next` was taken as the value of `arg`. The test for a missing
  -- value fails in no round, as the last argument is in no round the option.
  unfoldable pub parse_value : (arg next : Text) → Options → Options × Bool
  parse_value arg next o =
      if same_text arg (codes "-findbug")
      then (if starts_with_digit next
          then (
            record o {
              find_bug_only = true;
              nframes = validate_input overflow next (pos 0) (pos 2147483646) (pos 2147483646);
            },
            true,
          )
          else (record o { find_bug_only = true }, false))
      else if same_text arg (codes "-bmc")
      then (record o { bmc_thread = validate_input overflow next (pos 0) (pos 12) (pos 0) }, true)
      else if same_text arg (codes "-pdr")
      then (record o { pdr_thread = validate_input overflow next (pos 0) (pos 4) (pos 0) }, true)
      else if same_text arg (codes "-pindex")
      then (
        record o { property_index = validate_input overflow next (pos 0) (pos int_max) (pos 0) },
        true,
      )
      else (o, false)

  -- One round of the loop.
  unfoldable pub parse_option : (arg next : Text) → Options → Options × Bool
  parse_option arg next o =
      if same_text arg (codes "-pr")
      then (record o { pr = true }, false)
      else if same_text arg (codes "-uc")
      then (record o { uc = true }, false)
      else if same_text arg (codes "-witness")
      then (record o { witness = true }, false)
      else if same_text arg (codes "-certificate")
      then (record o { certificate = true }, false)
      else if same_text arg (codes "-v")
      then (record o { log = true }, false)
      else parse_value arg next o

  -- The loop over argv[1] to argv[argc - 2]; the list ends with argv[argc - 1], the file.
  unfoldable pub parse_options : List Text → Options → Options
  parse_options [] o = o
  parse_options (file ∷ []) o = o
  parse_options (arg ∷ next ∷ rest) o =
      let (parsed, used) = parse_option arg next o in
      elim used [ true ↦ parse_options rest parsed | false ↦ parse_options (next ∷ rest) parsed ]

-- Which checkers run: BMC for each property, PDR alone, or a number of threads of both.
pub data Plan : Type 0 where
  find_bugs : (properties : ℕ) → Plan
  single_pdr : (uc pr : Bool) → Plan
  threads : (pdr bmc : ℕ) → Plan

unfoldable pub plan : Options → (num_property : ℕ) → Plan
plan o num_property =
    if o.find_bug_only
    then find_bugs num_property
    else if (o.pdr_thread ==ℤ pos 0) && (o.bmc_thread ==ℤ pos 0)
    then single_pdr o.uc o.pr
    else threads (abs o.pdr_thread) (abs o.bmc_thread)

-- How many threads share the frames of one search: bmc_thread, which -findbug sets to 1.
unfoldable pub sharing : Plan → ℕ
sharing (find_bugs properties) = 1
sharing (single_pdr uc pr) = 0
sharing (threads pdr bmc) = bmc

-- How many threads of BMC are started.
unfoldable pub bmc_threads : Plan → ℕ
bmc_threads (find_bugs properties) = properties
bmc_threads (single_pdr uc pr) = 0
bmc_threads (threads pdr bmc) = bmc

-- thread_start_bmc: thread `t` checks one frame more than asked for.
unfoldable pub start_bmc :
    (ℕ → List (List ℤ) → ℤ → Answer) → (ℕ → ℕ → Bool) → ℕ → Options → Aiger → (t : ℕ) → Verdict
start_bmc solve has_result max_nodes o c t =
    check (solve t) (has_result t) (sharing (plan o c.num_property)) t max_nodes c
      (abs o.nframes + 1)

-- The line that tells the result; the time may follow it.
pub data Report : Type 0 where
  no_output_asserted unsafe safe code_2 code_1 code_0 : Report

unfoldable pub report : (find_bug_only : Bool) (result : ℕ) → Report
report find_bug_only result =
    if find_bug_only
    then (if not (result == 10) then code_2 else if result == 10 then code_1 else code_0)
    else if not (result == 10)
    then no_output_asserted
    else if result == 10
    then unsafe
    else safe

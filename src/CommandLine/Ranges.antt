-- ===== src/CommandLine/Ranges.antt =====
-- Whatever the arguments are, the options stay in their ranges.
use modelchecker.Common.{
  ℕ, ◌≤◌, ◌≡◌, refl, false, ◌||◌, Bool-cases, inl, inr, List, [], ◌∷◌, arith, ℤ, pos, negsuc, abs,
  ltb_ℤ,
}
use modelchecker.CommandLine.{
  Text, int_max, atoi, validate_input, is_number, Options, same_text, codes, starts_with_digit,
  parse_value, parse_option, parse_options, default_options,
}

-- An int from 0 to `n`.
abbrev pub IsUpTo : ℕ → ℤ → Type 0
IsUpTo n z = (z ≡ pos (abs z)) × (abs z ≤ n)

abbrev pub IsInRange : Options → Type 0
IsInRange o =
    IsUpTo int_max o.property_index
    × IsUpTo 2147483646 o.nframes
    × IsUpTo 12 o.bmc_thread
    × IsUpTo 4 o.pdr_thread

validate_input-IsUpTo :
    (overflow : ℕ → ℤ) (value : Text) (max : ℕ) (default_value : ℤ)
    → IsUpTo max default_value
    → IsUpTo max (validate_input overflow value (pos 0) (pos max) default_value)
unfolding validate_input
validate_input-IsUpTo overflow value max default_value h = elim (Bool-cases (is_number value)) [
  | inr other ↦ rw other h
  | inl number ↦
      elim (Bool-cases
        (ltb_ℤ (atoi overflow value) (pos 0) || ltb_ℤ (pos max) (atoi overflow value))) [
          | inl out ↦ rw (number, out) h
          | inr within ↦ rw (number, within) (bounded (atoi overflow value) within)
        ]
]
  where
    bounded : (z : ℤ) → ltb_ℤ z (pos 0) || ltb_ℤ (pos max) z ≡ false → IsUpTo max z
    bounded (pos n) e = (refl, ground arith)
    bounded (negsuc n) e = cc

module _ (overflow : ℕ → ℤ) (arg next : Text) (o : Options) (h : IsInRange o) where
  parse_value-IsInRange : IsInRange (parse_value overflow arg next o).0
  unfolding parse_value
  parse_value-IsInRange =
      let (index, frames, bmc, pdr) = h in
      elim (Bool-cases (same_text arg (codes "-findbug"))) [
        | inl e ↦ rw e (elim (Bool-cases (starts_with_digit next)) [
          | inl d ↦ rw d (index, up_to 2147483646 (pos 2147483646) (refl, omega arith), bmc, pdr)
          | inr d ↦ rw d h
        ])
        | inr e ↦ rw e (elim (Bool-cases (same_text arg (codes "-bmc"))) [
          | inl d ↦ rw d (index, frames, up_to 12 (pos 0) (refl, omega arith), pdr)
          | inr d ↦ rw d (elim (Bool-cases (same_text arg (codes "-pdr"))) [
            | inl f ↦ rw f (index, frames, bmc, up_to 4 (pos 0) (refl, omega arith))
            | inr f ↦ rw f (elim (Bool-cases (same_text arg (codes "-pindex"))) [
              | inl g ↦ rw g (up_to int_max (pos 0) (refl, omega arith), frames, bmc, pdr)
              | inr g ↦ rw g h
            ])
          ])
        ])
      ]
    where
      up_to :
          (max : ℕ) (default_value : ℤ)
          → IsUpTo max default_value
          → IsUpTo max (validate_input overflow next (pos 0) (pos max) default_value)
      up_to = validate_input-IsUpTo overflow next

  parse_option-IsInRange : IsInRange (parse_option overflow arg next o).0
  unfolding parse_option
  parse_option-IsInRange = elim (Bool-cases (same_text arg (codes "-pr"))) [
    | inl e ↦ rw e h
    | inr e ↦ rw e (elim (Bool-cases (same_text arg (codes "-uc"))) [
      | inl d ↦ rw d h
      | inr d ↦ rw d (elim (Bool-cases (same_text arg (codes "-witness"))) [
        | inl f ↦ rw f h
        | inr f ↦ rw f (elim (Bool-cases (same_text arg (codes "-certificate"))) [
          | inl g ↦ rw g h
          | inr g ↦ rw g (elim (Bool-cases (same_text arg (codes "-v"))) [
            | inl k ↦ rw k h
            | inr k ↦ rw k parse_value-IsInRange
          ])
        ])
      ])
    ])
  ]

options-IsInRange :
    (overflow : ℕ → ℤ) (args : List Text) (o : Options)
    → IsInRange o
    → IsInRange (parse_options overflow args o)
unfolding parse_options
options-IsInRange overflow [] o h = h
options-IsInRange overflow (file ∷ []) o h = h
options-IsInRange overflow (arg ∷ next ∷ rest) o h =
    let step = parse_option-IsInRange overflow arg next o h in
    elim (Bool-cases (parse_option overflow arg next o).1) [
      | inl used ↦ rw (used, parse_options) (options-IsInRange overflow rest _ step)
      | inr left ↦ rw (left, parse_options) (options-IsInRange overflow (next ∷ rest) _ step)
    ]

-- Whatever the arguments are, and whatever atoi makes of a number that is too large, the property
-- index, the number of frames and the numbers of threads that the options ask for are ints in their
-- ranges: there are at most 12 threads of BMC and 4 of PDR, and one frame more than asked for is an
-- int.
pub parse_options-IsInRange :
    (overflow : ℕ → ℤ) (args : List Text) → IsInRange (parse_options overflow args default_options)
parse_options-IsInRange overflow args =
    options-IsInRange overflow args default_options
      ((refl, omega arith), (refl, omega arith), (refl, omega arith), (refl, omega arith))

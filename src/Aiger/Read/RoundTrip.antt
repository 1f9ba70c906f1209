-- ===== src/Aiger/Read/RoundTrip.antt =====
-- load_aiger_from_file reads back what is printed in the text and in the binary form.
use modelchecker.Common.{ℕ, ◌≡◌, refl, ◌∙◌, ap, List, ◌∷◌, ◌++◌}
use mathlib.Core.List.{append_assoc}
use modelchecker.Aiger.Read.{is_digit, read_literal, read_header}
use modelchecker.Aiger.Read.Decimal.{decimal}
use modelchecker.Aiger.Read.Print.{field}

-- What is printed before the 0 is printed before what follows it.
field-append : (n : ℕ) (bs t : List ℕ) → field n bs ++ t ≡ field n (bs ++ t)
field-append n bs t = ap (λ r. b' ' ∷ r) (append_assoc (decimal n) bs t)

pub field-then : (n : ℕ) (bs cs t : List ℕ) → bs ++ t ≡ cs → field n bs ++ t ≡ field n cs
field-then n bs cs t e = field-append n bs t ∙ ap (field n) e

-- The g of the first line is skipped.
pub read_header-g : (bs : List ℕ) → read_header (b'g' ∷ bs) ≡ read_header bs
unfolding read_header read_literal is_digit
read_header-g bs = refl

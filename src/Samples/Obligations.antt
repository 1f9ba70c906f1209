-- ===== src/Samples/Obligations.antt =====
-- Obligations at concrete inputs.
use modelchecker.Common.{◌≡◌, ◌⊎◌, ◌&&◌, not, true, false, pos, refl, ltb_ℤ}
use modelchecker.Pdr.Orders.{Obligation, obligation_cmp, obligation_cmp-IsOrder}

abbrev early : Obligation
early = record { state_index = 7; frame_k = pos 1; depth = pos 4; thread_index = pos 1 }

abbrev shallow : Obligation
shallow = record { state_index = 3; frame_k = pos 2; depth = pos 1; thread_index = pos 1 }

abbrev late : Obligation
late = record { state_index = 5; frame_k = pos 2; depth = pos 3; thread_index = pos 1 }

-- At one level the obligation that is nearer to the bad state comes first.
shallow_first : obligation_cmp shallow late ≡ true
unfolding obligation_cmp
shallow_first = refl

obligation_cmp-IsOrder_example :
    (obligation_cmp early early ≡ false)
    × ((obligation_cmp early shallow
          && obligation_cmp shallow late
          && not (obligation_cmp early late))
        ≡ false)
    × ((obligation_cmp early shallow ≡ true)
        ⊎ (obligation_cmp shallow early ≡ true)
        ⊎ (early.frame_k ≡ shallow.frame_k)
          × (early.depth ≡ shallow.depth)
          × (early.state_index ≡ shallow.state_index))
    × ((obligation_cmp early shallow && ltb_ℤ shallow.frame_k early.frame_k) ≡ false)
obligation_cmp-IsOrder_example = obligation_cmp-IsOrder early shallow late

-- ===== src/Pdr/Orders.antt =====
-- The orders of PDR.hpp that sorting, std::set and the queue of obligations rely on.
use modelchecker.Common.{
  ℕ, ◌≡◌, ◌⊎◌, inl, refl, true, false, Bool, List, [], ◌∷◌, ℤ, abs, length, ltb, ◌==◌, ltb_ℤ, ◌==ℤ◌,
  ==ℤ→eq, if◌then◌else◌, arith, not, ◌&&◌,
}

-- Lit_CMP: by variable, the negative literal first.
unfoldable pub lit_cmp : ℤ → ℤ → Bool
lit_cmp a b = if abs a == abs b then ltb_ℤ a b else ltb (abs a) (abs b)

-- The loop of Cube_CMP over the places of two cubes of one size.
unfoldable pub first_difference : List ℤ → List ℤ → Bool
first_difference [] b = false
first_difference (x ∷ a) [] = false
first_difference (x ∷ a) (y ∷ b) = if x ==ℤ y then first_difference a b else ltb_ℤ x y

-- Cube_CMP: shorter cubes first.
unfoldable pub cube_cmp : List ℤ → List ℤ → Bool
cube_cmp a b = if length a == length b then first_difference a b else ltb (length a) (length b)

-- A strict total order, which sort and set ask of a comparison whose ties are equal.
pub record IsStrictTotal {ℓ} {A : Type ℓ} (cmp : A → A → Bool) : Type ℓ where
  pub irreflexive : (a : A) → cmp a a ≡ false
  pub transitive : (a b c : A) → cmp a b ≡ true → cmp b c ≡ true → cmp a c ≡ true
  pub total : (a b : A) → (a ≡ b) ⊎ (cmp a b ≡ true) ⊎ (cmp b a ≡ true)

ltb_ℤ_total : (a b : ℤ) → (a ≡ b) ⊎ (ltb_ℤ a b ≡ true) ⊎ (ltb_ℤ b a ≡ true)
ltb_ℤ_total a b = ground arith

-- Lit_CMP is irreflexive and transitive, and orders any two different literals.
pub lit_cmp-IsStrictTotal : IsStrictTotal lit_cmp
unfolding lit_cmp
lit_cmp-IsStrictTotal = record {
  irreflexive = λ a. ground arith;
  transitive = λ a b c h k. ground arith;
  total = λ a b. ground arith;
}

first_difference_irreflexive : (a : List ℤ) → first_difference a a ≡ false
unfolding first_difference
first_difference_irreflexive [] = refl
first_difference_irreflexive (x ∷ a) =
    let rest = first_difference_irreflexive a in ground (arith, rest)

first_difference_transitive :
    (a b c : List ℤ)
    → first_difference a b ≡ true
    → first_difference b c ≡ true
    → first_difference a c ≡ true
unfolding first_difference
first_difference_transitive [] b c h k = cc
first_difference_transitive (x ∷ a) [] c h k = cc
first_difference_transitive (x ∷ a) (y ∷ b) [] h k = cc
first_difference_transitive (x ∷ a) (y ∷ b) (z ∷ c) h k =
    let rest = first_difference_transitive a b c in ground (arith, rest, h, k)

first_difference_total :
    (a b : List ℤ)
    → length a ≡ length b
    → (a ≡ b) ⊎ (first_difference a b ≡ true) ⊎ (first_difference b a ≡ true)
unfolding first_difference
first_difference_total [] [] e = inl refl
first_difference_total [] (y ∷ b) e = absurd (omega arith)
first_difference_total (x ∷ a) [] e = absurd (omega arith)
first_difference_total (x ∷ a) (y ∷ b) e =
    let rest = first_difference_total a b (omega arith) in
    let same = ==ℤ→eq x y in ground (arith, rest, same, ltb_ℤ_total x y)

-- Cube_CMP is irreflexive and transitive, and orders any two different cubes.
pub cube_cmp-IsStrictTotal : IsStrictTotal cube_cmp
unfolding cube_cmp
cube_cmp-IsStrictTotal = record {
  irreflexive = λ a. ground (arith, first_difference_irreflexive a);
  transitive = λ a b c h k. ground (arith, first_difference_transitive a b c, h, k);
  total = λ a b. ground (arith, first_difference_total a b);
}

-- Obligation, with the index of its state: each state has its own.
pub record Obligation : Type 0 where
  pub state_index : ℕ
  pub frame_k : ℤ
  pub depth : ℤ
  pub thread_index : ℤ

-- operator< of Obligation
unfoldable pub obligation_cmp : Obligation → Obligation → Bool
obligation_cmp a b =
    if ltb_ℤ a.frame_k b.frame_k
    then true
    else if ltb_ℤ b.frame_k a.frame_k
    then false
    else if ltb_ℤ a.depth b.depth
    then true
    else if ltb_ℤ b.depth a.depth
    then false
    else ltb a.state_index b.state_index

-- The comparison of obligations is irreflexive and transitive; two obligations that it does not
-- order have the same level, depth and state; and it never puts a higher level first.
pub obligation_cmp-IsOrder :
    (a b c : Obligation)
    → (obligation_cmp a a ≡ false)
      × ((obligation_cmp a b && obligation_cmp b c && not (obligation_cmp a c)) ≡ false)
      × ((obligation_cmp a b ≡ true)
          ⊎ (obligation_cmp b a ≡ true)
          ⊎ (a.frame_k ≡ b.frame_k) × (a.depth ≡ b.depth) × (a.state_index ≡ b.state_index))
      × ((obligation_cmp a b && ltb_ℤ b.frame_k a.frame_k) ≡ false)
unfolding obligation_cmp
obligation_cmp-IsOrder a b c = (ground arith, ground arith, ground arith, ground arith)

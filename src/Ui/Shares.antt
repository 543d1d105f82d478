-- ===== src/Ui/Shares.antt =====
-- libs/rMlib/include/UI/Flex.h: what the expanded children get fits in what the others leave.
use r_m2_stuff_rocket.Base.{
  ℕ, false, Option, some, List, [], ◌∷◌, ◌+◌, ◌*◌, ◌^◌, ◌==◌, ◌≤◌, ◌<◌, ◌≡◌,
}
use r_m2_stuff_rocket.Ui.Constraints.{Extent, Constraints}
use r_m2_stuff_rocket.Ui.Wrap.{Axis, main_length, cross_length}
use r_m2_stuff_rocket.Ui.Total.{Fits}
use r_m2_stuff_rocket.Ui.Flex.{Floats, Child, total_main, most_cross, share}

abbrev IsOrdered : Constraints → Type 0
IsOrdered c = (c.least.width ≤ c.most.width) × (c.least.height ≤ c.most.height)

-- The layout of the child returns a size within the constraints, as `RenderObject::layout` asserts.
abbrev pub Obeys : {F : Type 0} → Child F → Type 0
Obeys x = (d : Constraints) → IsOrdered d → Fits d (x.lay d)

-- For a type of floats that are whole numbers, with their values: the operations of the code on those that stay
-- below 2^24 are exact but for the last one, whose result is at most the quotient.
pub record IsExact {F : Type 0} (o : Floats F) (weight : F → ℕ) : Type 0 where
  pub zero_weight : (f : F) → o.is_zero f ≡ (weight f == 0)
  pub added : (n : ℕ) (f : F) → n + weight f < 2 ^ 24 → o.add n f ≡ n + weight f
  pub shared :
      (f : F) (room total : ℕ)
      → weight f * room < 2 ^ 24
      → total < 2 ^ 24
      → 0 < total
      → o.share f room total * total ≤ weight f * room

-- The sum of the factors, and what their shares of some room are computed from.
abbrev total_weight : {F : Type 0} → (F → ℕ) → List (Child F) → ℕ
total_weight weight [] = 0
total_weight weight (x ∷ xs) = weight x.flex + total_weight weight xs

-- The numerators of the shares stay below 2^24.
abbrev IsSmall : {F : Type 0} → (F → ℕ) → ℕ → Child F → Type 0
IsSmall weight room x = weight x.flex * room < 2 ^ 24

module _ {F : Type 0} (fl : Floats F) (weight : F → ℕ) (law : IsExact fl weight) (axis : Axis)
    (c : Constraints) (o : IsOrdered c) where
  -- The expanded children have no size yet.
  abbrev Matches : List (Child F) → List Extent → Type 0
  Matches [] [] = Unit {0}
  Matches [] (s ∷ ss) = ⊥
  Matches (x ∷ xs) [] = ⊥
  Matches (x ∷ xs) (s ∷ ss) =
      ((fl.is_zero x.flex ≡ false → main_length axis s ≡ 0)
        × (cross_length axis s ≤ cross_length axis c.most))
      × Matches xs ss

  record Fixed (xs : List (Child F)) (r : Option (List Extent)) : Type 0 where
    sizes : List Extent
    returns : r ≡ some sizes
    matches : Matches xs sizes
    cross : most_cross axis sizes ≤ cross_length axis c.most

  record Shared (room total : ℕ) (xs : List (Child F)) (ss : List Extent) (r : Option (List Extent))
      : Type 0 where
    sizes : List Extent
    returns : r ≡ some sizes
    main :
        total_main axis sizes * total ≤ total_main axis ss * total + total_weight weight xs * room
    unshared : total_weight weight xs ≡ 0 → total_main axis sizes ≡ total_main axis ss
    cross : most_cross axis sizes ≤ cross_length axis c.most

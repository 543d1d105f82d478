-- ===== src/Ui/Flex.antt =====
-- libs/rMlib/include/UI/Flex.h: `doLayout` of a row or a column whose expanded children share what the
-- others leave. A child is its factor, 0 if it is not expanded, and its layout. The factors are floats,
-- which are a type here, and the operations on them are parameters.
use r_m2_stuff_rocket.Base.{
  ℕ, Bool, Option, none, some, List, [], ◌∷◌, ◌+◌, ◌-◌, leb, max, ◌&&◌, if◌then◌else◌,
}
use r_m2_stuff_rocket.Ui.Constraints.{Extent, Constraints, unbound}
use r_m2_stuff_rocket.Ui.Wrap.{Axis, horizontal_axis, vertical_axis, main_length, cross_length}

-- What the code does with floats: the test `flex != 0`, the step `int + float` of `std::accumulate`, whose result
-- is an `int` again, and `int(flex * remainingSpace / totalFlex)`.
pub record Floats (F : Type 0) : Type 0 where
  pub is_zero : F → Bool
  pub add : ℕ → F → ℕ
  pub share : F → ℕ → ℕ → ℕ

pub record Child (F : Type 0) : Type 0 where
  pub flex : F
  pub lay : Constraints → Option Extent

-- Constraints with these bounds along the axis, and those of `c` across it.
abbrev pub along : Axis → ℕ → ℕ → Constraints → Constraints
along horizontal_axis least most c = record {
  least = record { width = least; height = c.least.height };
  most = record { width = most; height = c.most.height };
}
along vertical_axis least most c = record {
  least = record { width = c.least.width; height = least };
  most = record { width = c.most.width; height = most };
}

abbrev pub no_size : Extent
no_size = record { width = 0; height = 0 }

abbrev pub cons_size : Option Extent → Option (List Extent) → Option (List Extent)
cons_size none r = none
cons_size (some s) none = none
cons_size (some s) (some ss) = some (s ∷ ss)

abbrev pub total_main : Axis → List Extent → ℕ
total_main axis [] = 0
total_main axis (s ∷ ss) = main_length axis s + total_main axis ss

abbrev pub most_cross : Axis → List Extent → ℕ
most_cross axis [] = 0
most_cross axis (s ∷ ss) = max (cross_length axis s) (most_cross axis ss)

-- The size that `doLayout` returns for these sizes: at least the least one.
abbrev pub flex_result : Axis → Constraints → List Extent → Extent
flex_result horizontal_axis c ss = record {
  width = max (total_main horizontal_axis ss) c.least.width;
  height = max (most_cross horizontal_axis ss) c.least.height;
}
flex_result vertical_axis c ss = record {
  width = max (most_cross vertical_axis ss) c.least.width;
  height = max (total_main vertical_axis ss) c.least.height;
}

module _ {F : Type 0} (o : Floats F) where
  -- `layoutNonFlex`: the sizes of the children that are not expanded, among nothing for the others.
  unfoldable pub layout_non_flex : Axis → Constraints → List (Child F) → Option (List Extent)
  layout_non_flex axis c [] = some []
  layout_non_flex axis c (x ∷ xs) =
      cons_size (if o.is_zero x.flex then x.lay (along axis 0 unbound c) else some no_size)
        (layout_non_flex axis c xs)

  -- `std::accumulate`, from the sum so far.
  abbrev pub add_flexes : ℕ → List (Child F) → ℕ
  add_flexes n [] = n
  add_flexes n (x ∷ xs) = add_flexes (o.add n x.flex) xs

  abbrev pub total_flex : List (Child F) → ℕ
  total_flex xs = add_flexes 0 xs

  -- `layoutFlex`, from the sizes so far, with what is left and the sum of the factors.
  unfoldable pub layout_flex :
      Axis → Constraints → ℕ → ℕ → List (Child F) → List Extent → Option (List Extent)
  layout_flex axis c room total [] ss = some []
  layout_flex axis c room total (x ∷ xs) [] = some []
  layout_flex axis c room total (x ∷ xs) (s ∷ ss) =
      cons_size
        (if o.is_zero x.flex
          then some s
          else x.lay (along axis (o.share x.flex room total) (o.share x.flex room total) c))
        (layout_flex axis c room total xs ss)

  -- The two assertions and the second pass.
  abbrev pub share : Axis → Constraints → List (Child F) → List Extent → Option (List Extent)
  share axis c xs ss =
      if leb (total_main axis ss) (main_length axis c.most)
        && leb (most_cross axis ss) (cross_length axis c.most)
      then layout_flex axis c (main_length axis c.most - total_main axis ss) (total_flex xs) xs ss
      else none

  -- The sizes of the children.
  unfoldable pub flex_sizes : Axis → Constraints → List (Child F) → Option (List Extent)
  flex_sizes axis c xs = elim (layout_non_flex axis c xs) [
    | none ↦ none
    | some ss ↦ share axis c xs ss
  ]

  -- `doLayout`
  unfoldable pub flex_layout : Axis → Constraints → List (Child F) → Option Extent
  flex_layout axis c xs = elim (flex_sizes axis c xs) [
    | none ↦ none
    | some ss ↦ some (flex_result axis c ss)
  ]

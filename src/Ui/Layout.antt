-- ===== src/Ui/Layout.antt =====
-- libs/rMlib/include/UI: `layout` and `doLayout` of the widgets of Layout.h, Stack.h, Text.h,
-- Image.h and Blank.h. The size of a text and that of an image are given. A widget with one child
-- that only passes the layout on (gestures, state, the navigator) is its child.
use r_m2_stuff_rocket.Base.{
  ℕ, Bool, not, ◌&&◌, ◌||◌, Option, none, some, ◌-◌, ◌==◌, ltb, max, if◌then◌else◌,
}
use r_m2_stuff_rocket.Ui.Constraints.{
  Extent, Insets, Constraints, unbound, has_bounded_width, has_bounded_height, contain, inset,
  expand,
}

mutual
  pub data Widget : Type 0 where
    text image : Extent → Widget
    colored : Widget
    -- `Blank`, by its flag `expand`
    blank : Bool → Widget
    center : Widget → Widget
    corner : ℕ → Widget → Widget
    padding : Insets → Widget → Widget
    -- `Border` and `RoundBorder`
    border : Insets → Widget → Widget
    sized : Option ℕ → Option ℕ → Widget → Widget
    cleared : Widget → Widget
    positioned : ℕ → ℕ → Widget → Widget
    stack : Widgets → Widget

  pub data Widgets : Type 0 where
    nil : Widgets
    cons : Widget → Widgets → Widgets

-- The assertions of `RenderObject::layout`; `none` where one fails.
unfoldable pub checked : Constraints → Extent → Option Extent
checked c s =
    if not (s.width == unbound) && not (s.height == unbound) && contain c s then some s else none

abbrev pub then_with : Option Extent → (Extent → Option Extent) → Option Extent
then_with none f = none
then_with (some s) f = f s

-- `Text`, on one axis, and `std::clamp` where the bounds are in order.
abbrev clamp : ℕ → ℕ → ℕ → ℕ
clamp n least most = if ltb most n then most else if ltb n least then least else n

unfoldable pub clamp_size : Extent → Constraints → Extent
clamp_size s c = record {
  width = clamp s.width c.least.width c.most.width;
  height = clamp s.height c.least.height c.most.height;
}

abbrev bounded_or : ℕ → ℕ → ℕ
bounded_or n otherwise = if n == unbound then otherwise else n

-- `Colored`: the greatest size, or the least where there is no bound.
unfoldable pub fill : Constraints → Extent
fill c = record {
  width = bounded_or c.most.width c.least.width;
  height = bounded_or c.most.height c.least.height;
}

-- `Center`, `Corner` and `Positioned`: the greatest size, or the child's where there is no bound.
unfoldable pub fill_around : Constraints → Extent → Extent
fill_around c child = record {
  width = if has_bounded_width c then c.most.width else child.width;
  height = if has_bounded_height c then c.most.height else child.height;
}

-- The constraints that `Center` and `Corner` give to the child.
unfoldable pub loosen : Constraints → Constraints
loosen c = record { least = record { width = 0; height = 0 }; most = c.most }

-- `Sized`, on one axis.
abbrev size_bound : Option ℕ → ℕ → ℕ → ℕ → ℕ
size_bound none bound least most = bound
size_bound (some n) bound least most = clamp n least most

unfoldable pub resize : Option ℕ → Option ℕ → Constraints → Constraints
resize w h c = record {
  least = record {
    width = size_bound w c.least.width c.least.width c.most.width;
    height = size_bound h c.least.height c.least.height c.most.height;
  };
  most = record {
    width = size_bound w c.most.width c.least.width c.most.width;
    height = size_bound h c.most.height c.least.height c.most.height;
  };
}

-- `Positioned`: no size fits where the position lies past the greatest size.
abbrev pub shift_within : ℕ → ℕ → Constraints → Option Constraints
shift_within x y c =
    if ltb c.most.width x || ltb c.most.height y
    then none
    else some (record {
      least = record { width = 0; height = 0 };
      most = record { width = c.most.width - x; height = c.most.height - y };
    })

abbrev pub grow : Extent → Extent → Extent
grow s t = record { width = max s.width t.width; height = max s.height t.height }

unfoldable mutual
  pub layout : Widget → Constraints → Option Extent
  layout (text s) c = checked c (clamp_size s c)
  layout (image s) c = checked c (clamp_size s c)
  layout colored c = checked c (fill c)
  layout (blank expands) c = checked c (if expands then c.most else c.least)
  layout (center w) c = then_with (layout w (loosen c)) (λ s. checked c (fill_around c s))
  layout (corner k w) c = then_with (layout w (loosen c)) (λ s. checked c (fill_around c s))
  layout (padding i w) c = then_with (layout w (inset i c)) (λ s. checked c (expand i c s))
  layout (border i w) c = then_with (layout w (inset i c)) (λ s. checked c (expand i c s))
  layout (sized w h child) c = then_with (layout child (resize w h c)) (λ s. checked c s)
  layout (cleared w) c = then_with (layout w c) (λ s. checked c s)
  layout (positioned x y w) c = elim (shift_within x y c) [
    | none ↦ none
    | some d ↦ then_with (layout w d) (λ s. checked c (fill_around c s))
  ]
  layout (stack ws) c = then_with (layout_all ws c c.least) (λ s. checked c s)

  -- The loop of `Stack`, from the size so far.
  pub layout_all : Widgets → Constraints → Extent → Option Extent
  layout_all nil c s = some s
  layout_all (cons w ws) c s = then_with (layout w c) (λ t. layout_all ws c (grow s t))

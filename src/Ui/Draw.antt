-- ===== src/Ui/Draw.antt =====
-- libs/rMlib/include/UI: `draw` and `doDraw` of the widgets of Layout.h and Stack.h after their layout, as the
-- rectangles that the widgets are drawn in, when all of them are to be drawn. What a leaf paints is left out.
use r_m2_stuff_rocket.Base.{ℕ, Option, none, some, List, [], ◌∷◌, ◌++◌, ◌==◌, if◌then◌else◌}
use r_m2_stuff_rocket.Base.Int.{ℤ, pos, ◌+ℤ◌, ◌-ℤ◌, half}
use r_m2_stuff_rocket.Rmlib.Geometry.{Rect, rect_width, rect_height}
use r_m2_stuff_rocket.Ui.Constraints.{Extent, Insets, Constraints, inset}
use r_m2_stuff_rocket.Ui.Layout.{
  Widget, Widgets, text, image, colored, blank, center, corner, padding, border, sized, cleared,
  positioned, stack, nil, cons, loosen, resize, shift_within, layout,
}

-- A widget is drawn: the size that its layout returned, and its rectangle.
pub record Drawn : Type 0 where
  pub size : Extent
  pub rect : Rect

-- The rectangle of this size at an offset in another one.
unfoldable pub child_rect : ℤ → ℤ → Rect → Extent → Rect
child_rect dx dy r s = record {
  top_left = record { x = r.top_left.x +ℤ dx; y = r.top_left.y +ℤ dy };
  bottom_right = record {
    x = r.top_left.x +ℤ dx +ℤ (pos s.width -ℤ pos 1);
    y = r.top_left.y +ℤ dy +ℤ (pos s.height -ℤ pos 1);
  };
}

unfoldable pub center_rect : Rect → Extent → Rect
center_rect r s =
    child_rect (half (rect_width r -ℤ pos s.width)) (half (rect_height r -ℤ pos s.height)) r s

-- The corners from the top left one, clockwise; every other number is the bottom left one.
unfoldable pub corner_rect : ℕ → Rect → Extent → Rect
corner_rect k r s =
    let dx = rect_width r -ℤ pos s.width in
    let dy = rect_height r -ℤ pos s.height in
    if k == 0
    then child_rect (pos 0) (pos 0) r s
    else if k == 1
    then child_rect dx (pos 0) r s
    else if k == 2
    then child_rect dx dy r s
    else child_rect (pos 0) dy r s

-- `Insets::shrink`
unfoldable pub shrink : Insets → Rect → Rect
shrink i r = record {
  top_left = record { x = r.top_left.x +ℤ pos i.left; y = r.top_left.y +ℤ pos i.top };
  bottom_right = record {
    x = r.bottom_right.x -ℤ pos i.right;
    y = r.bottom_right.y -ℤ pos i.bottom;
  };
}

abbrev pub if_laid_out : Option Extent → (Extent → List Drawn) → List Drawn
if_laid_out none f = []
if_laid_out (some s) f = f s

abbrev pub with_node : Option Extent → Rect → List Drawn → List Drawn
with_node none r ds = []
with_node (some s) r ds = record { size = s; rect = r } ∷ ds

unfoldable mutual
  pub draw : Widget → Constraints → Rect → List Drawn
  draw (text s) c r = with_node (layout (text s) c) r []
  draw (image s) c r = with_node (layout (image s) c) r []
  draw colored c r = with_node (layout colored c) r []
  draw (blank b) c r = with_node (layout (blank b) c) r []
  draw (center w) c r =
      with_node (layout (center w) c) r
        (if_laid_out (layout w (loosen c)) (λ s. draw w (loosen c) (center_rect r s)))
  draw (corner k w) c r =
      with_node (layout (corner k w) c) r
        (if_laid_out (layout w (loosen c)) (λ s. draw w (loosen c) (corner_rect k r s)))
  draw (padding i w) c r = with_node (layout (padding i w) c) r (draw w (inset i c) (shrink i r))
  draw (border i w) c r = with_node (layout (border i w) c) r (draw w (inset i c) (shrink i r))
  draw (sized w h child) c r =
      with_node (layout (sized w h child) c) r (draw child (resize w h c) r)
  draw (cleared w) c r = with_node (layout (cleared w) c) r (draw w c r)
  draw (positioned x y w) c r =
      with_node (layout (positioned x y w) c) r (elim (shift_within x y c) [
        | none ↦ []
        | some d ↦ if_laid_out (layout w d) (λ s. draw w d (child_rect (pos x) (pos y) r s))
      ])
  draw (stack ws) c r = with_node (layout (stack ws) c) r (draw_all ws c r)

  -- The loop of `Stack`: each child at the top left.
  pub draw_all : Widgets → Constraints → Rect → List Drawn
  draw_all nil c r = []
  draw_all (cons w ws) c r =
      if_laid_out (layout w c) (λ s. draw w c (child_rect (pos 0) (pos 0) r s)) ++ draw_all ws c r

-- ===== src/Rmlib/Geometry.antt =====
-- libs/rMlib/include/MathUtil.h and UI/Util.h: points, sizes, rectangles and the regions to update.
-- An `int` is an integer that does not overflow.
use r_m2_stuff_rocket.Base.{Bool, true, ◌&&◌, if◌then◌else◌}
use r_m2_stuff_rocket.Base.Int.{ℤ, pos, negsuc, ◌+ℤ◌, ◌-ℤ◌, leb_ℤ, eqb_ℤ, min_ℤ, max_ℤ}

pub record Point : Type 0 where
  pub x : ℤ
  pub y : ℤ

record Size : Type 0 where
  pub width : ℤ
  pub height : ℤ

-- Both corners belong to the rectangle.
pub record Rect : Type 0 where
  pub top_left : Point
  pub bottom_right : Point

abbrev pub empty_rect : Rect
empty_rect = record {
  top_left = record { x = pos 0; y = pos 0 };
  bottom_right = record { x = negsuc 0; y = negsuc 0 };
}

unfoldable add_point : Point → Point → Point
add_point a b = record { x = a.x +ℤ b.x; y = a.y +ℤ b.y }

unfoldable to_point : Size → Point
to_point s = record { x = s.width -ℤ pos 1; y = s.height -ℤ pos 1 }

unfoldable pub rect_width : Rect → ℤ
rect_width r = r.bottom_right.x -ℤ r.top_left.x +ℤ pos 1

unfoldable pub rect_height : Rect → ℤ
rect_height r = r.bottom_right.y -ℤ r.top_left.y +ℤ pos 1

unfoldable pub is_empty : Rect → Bool
unfolding rect_width rect_height
is_empty r = eqb_ℤ (rect_width r) (pos 0) && eqb_ℤ (rect_height r) (pos 0)

-- `operator+=` of a point
unfoldable move : Point → Rect → Rect
unfolding add_point
move p r = record { top_left = add_point r.top_left p; bottom_right = add_point r.bottom_right p }

-- `operator|=`
unfoldable pub join : Rect → Rect → Rect
unfolding is_empty
join a b = if is_empty b then a else if is_empty a then b else record {
  top_left = record { x = min_ℤ a.top_left.x b.top_left.x; y = min_ℤ a.top_left.y b.top_left.y };
  bottom_right = record {
    x = max_ℤ a.bottom_right.x b.bottom_right.x;
    y = max_ℤ a.bottom_right.y b.bottom_right.y;
  };
}

-- `operator&`
unfoldable pub meet : Rect → Rect → Rect
meet a b = record {
  top_left = record { x = max_ℤ a.top_left.x b.top_left.x; y = max_ℤ a.top_left.y b.top_left.y };
  bottom_right = record {
    x = min_ℤ a.bottom_right.x b.bottom_right.x;
    y = min_ℤ a.bottom_right.y b.bottom_right.y;
  };
}

-- `contains` of a point
unfoldable pub contains : Rect → Point → Bool
contains r p =
    leb_ℤ r.top_left.x p.x
    && leb_ℤ p.x r.bottom_right.x
    && leb_ℤ r.top_left.y p.y
    && leb_ℤ p.y r.bottom_right.y

-- `contains` of a rectangle
unfoldable pub contains_rect : Rect → Rect → Bool
contains_rect r s =
    contains r s.top_left && (if is_empty s then true else contains r s.bottom_right)

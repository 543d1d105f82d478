-- ===== src/Rmlib/Line.antt =====
-- libs/rMlib/Canvas.cpp, `drawLine` with a thickness of 1, and the pixels of include/Canvas.h. A canvas is
-- its size and a function from points to values; `none` is a failed assertion of `setPixel`.
use r_m2_stuff_rocket.Base.{
  ℕ, zero, suc, Option, none, some, List, [], ◌∷◌, ◌+◌, ◌&&◌, if◌then◌else◌,
}
use r_m2_stuff_rocket.Base.Int.{ℤ, pos, negsuc, pos_part, neg_part, ◌+ℤ◌, ◌-ℤ◌, ltb_ℤ, eqb_ℤ, half}
use r_m2_stuff_rocket.Rmlib.Geometry.{Point, Rect, contains}

abbrev pub abs : ℤ → ℤ
abs a = pos (pos_part a + neg_part a)

-- `sx` and `sy`
abbrev pub direction : ℤ → ℤ → ℤ
direction start end = if ltb_ℤ start end then pos 1 else negsuc 0

-- One round of the loop: what becomes of a coordinate and of `err`.
abbrev pub next_x : ℤ → ℤ → ℤ → ℤ → ℤ
next_x dx sx err x = if ltb_ℤ (pos 0 -ℤ dx) err then x +ℤ sx else x

abbrev pub next_y : ℤ → ℤ → ℤ → ℤ → ℤ
next_y dy sy err y = if ltb_ℤ err dy then y +ℤ sy else y

abbrev pub next_err : ℤ → ℤ → ℤ → ℤ
next_err dx dy err =
    let err1 = if ltb_ℤ (pos 0 -ℤ dx) err then err -ℤ dy else err in
    if ltb_ℤ err dy then err1 +ℤ dx else err1

abbrev pub point : ℤ → ℤ → Point
point x y = record { x = x; y = y }

abbrev pub then_points : Point → Option (List Point) → Option (List Point)
then_points p none = none
then_points p (some ps) = some (p ∷ ps)

-- The loop, as the points of `setPixel` in order; `none` where the fuel ends.
module _ (ex ey dx dy sx sy : ℤ) where
  unfoldable pub line_loop : ℕ → ℤ → ℤ → ℤ → Option (List Point)
  line_loop zero x y err = none
  line_loop (suc fuel) x y err =
      let rest = line_loop fuel (next_x dx sx err x) (next_y dy sy err y) (next_err dx dy err) in
      if eqb_ℤ x ex && eqb_ℤ y ey then some (point x y ∷ []) else then_points (point x y) rest

abbrev pub first_err : ℤ → ℤ → ℤ
first_err dx dy = half (if ltb_ℤ dy dx then dx else pos 0 -ℤ dy)

unfoldable pub line_points : ℕ → Point → Point → Option (List Point)
line_points fuel start end =
    let dx = abs (end.x -ℤ start.x) in
    let dy = abs (end.y -ℤ start.y) in
    line_loop end.x end.y dx dy (direction start.x end.x) (direction start.y end.y) fuel start.x
      start.y (first_err dx dy)

pub record Canvas : Type 0 where
  pub width : ℕ
  pub height : ℕ
  pub pixel : Point → ℕ

-- `rect()`
abbrev pub canvas_rect : Canvas → Rect
canvas_rect c = record {
  top_left = point (pos 0) (pos 0);
  bottom_right = point (pos c.width -ℤ pos 1) (pos c.height -ℤ pos 1);
}

-- `setPixel`
unfoldable pub set_pixel : Point → ℕ → Canvas → Option Canvas
set_pixel p v c =
    if contains (canvas_rect c) p
    then some (record c { pixel = λ q. if eqb_ℤ q.x p.x && eqb_ℤ q.y p.y then v else c.pixel q })
    else none

unfoldable pub set_pixels : ℕ → List Point → Canvas → Option Canvas
set_pixels v [] c = some c
set_pixels v (p ∷ ps) c = elim (set_pixel p v c) [ none ↦ none | some d ↦ set_pixels v ps d ]

-- `drawLine`: the first `none` is the end of the fuel.
unfoldable pub draw_line : ℕ → Point → Point → ℕ → Canvas → Option (Option Canvas)
draw_line fuel start end v c = elim (line_points fuel start end) [
  | none ↦ none
  | some ps ↦ some (set_pixels v ps c)
]

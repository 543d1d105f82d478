-- ===== src/Rmlib/Drawing.antt =====
-- libs/rMlib/Canvas.cpp, `drawLine` on a canvas.
use r_m2_stuff_rocket.Base.{
  ℕ, Bool, true, false, some, List, [], ◌∷◌, ◌&&◌, ◌||◌, ◌≡◌, ◌<◌, if◌then◌else◌, max, refl, ap,
  ◌∙◌, arith, All,
}
use r_m2_stuff_rocket.Base.Int.{eqb_ℤ}
use r_m2_stuff_rocket.Rmlib.Geometry.{Point, contains}
use r_m2_stuff_rocket.Rmlib.Line.{
  line_points, Canvas, canvas_rect, set_pixel, set_pixels, draw_line,
}
use r_m2_stuff_rocket.Rmlib.LineMoves.{Traces}
use r_m2_stuff_rocket.Rmlib.Bresenham.{distance, line_points-Traces}

abbrev is_at : Point → List Point → Bool
is_at q [] = false
is_at q (p ∷ ps) = eqb_ℤ q.x p.x && eqb_ℤ q.y p.y || is_at q ps

-- The canvas has its size, the value at these points, and what it had elsewhere.
pub record Painted (v : ℕ) (ps : List Point) (c d : Canvas) : Type 0 where
  pub width : d.width ≡ c.width
  pub height : d.height ≡ c.height
  pub pixel : (q : Point) → d.pixel q ≡ (if is_at q ps then v else c.pixel q)

pick : (a b : Bool) (v w : ℕ) → (if b then v else if a then v else w) ≡ (if a || b then v else w)
pick a b v w = ground arith

set_pixels-Painted :
    (v : ℕ) (ps : List Point) (c : Canvas)
    → All (λ p. contains (canvas_rect c) p ≡ true) ps
    → (d : Canvas) × (set_pixels v ps c ≡ some d) × Painted v ps c d
unfolding set_pixels set_pixel
set_pixels-Painted v [] c h = (c, refl, record { width = refl; height = refl; pixel = λ q. refl })
set_pixels-Painted v (p ∷ ps) c h =
    let painted = record c {
      pixel = λ q. if eqb_ℤ q.x p.x && eqb_ℤ q.y p.y then v else c.pixel q;
    } in
    let (d, e, k) = set_pixels-Painted v ps painted h.1 in
    (
      d,
      rw (h.0, set_pixels) e,
      record {
        width = k.width;
        height = k.height;
        pixel = λ q. k.pixel q ∙ pick (eqb_ℤ q.x p.x && eqb_ℤ q.y p.y) (is_at q ps) v (c.pixel q);
      },
    )

-- A line between two points of a canvas is drawn without a failed assertion: the pixels that trace
-- it, and no others, have its value.
pub draw_line-Painted :
    (fuel : ℕ) (start end : Point) (v : ℕ) (c : Canvas)
    → max (distance start.x end.x) (distance start.y end.y) < fuel
    → contains (canvas_rect c) start ≡ true
    → contains (canvas_rect c) end ≡ true
    → (t : Traces start end
        (max (distance start.x end.x) (distance start.y end.y))
        (line_points fuel start end))
      × (d : Canvas) × (draw_line fuel start end v c ≡ some (some d))
      × Painted v (start ∷ t.rest) c d
unfolding draw_line
draw_line-Painted fuel start end v c h a b =
    let t = line_points-Traces fuel start end h in
    let (d, e, k) = set_pixels-Painted v (start ∷ t.rest) c (t.inside (canvas_rect c) a b) in
    (t, d, rw (t.returns, draw_line) (ap some e), k)

-- ===== src/Rmlib/Examples.antt =====
-- libs/rMlib: rectangles that overlap, regions, and what the devices report.
use r_m2_stuff_rocket.Base.{some, List, [], ◌∷◌, ◌≡◌, refl, arith, All, max}
use r_m2_stuff_rocket.Base.Int.{◌-ℤ◌, pos, negsuc, leb_ℤ}
use r_m2_stuff_rocket.Rmlib.Geometry.{Point, Rect, contains}
use r_m2_stuff_rocket.Rmlib.Update.{
  UpdateRegion, du, gc16, no_flags, merge_all, Covers, IsGray, merge_all-Covers,
}
use r_m2_stuff_rocket.Rmlib.Input.{RawEvent, syn_report, ev_abs, mt_slot, mt_tracking_id, mt_x}
use r_m2_stuff_rocket.Rmlib.Line.{Canvas, point, line_points, draw_line}
use r_m2_stuff_rocket.Rmlib.LineMoves.{Traces}
use r_m2_stuff_rocket.Rmlib.Bresenham.{distance, line_points-Traces}
use r_m2_stuff_rocket.Rmlib.Drawing.{Painted, draw_line-Painted}

abbrev left_rect : Rect
left_rect = record {
  top_left = record { x = pos 0; y = pos 0 };
  bottom_right = record { x = pos 10; y = pos 10 };
}

abbrev right_rect : Rect
right_rect = record {
  top_left = record { x = pos 5; y = pos 2 };
  bottom_right = record { x = pos 20; y = pos 8 };
}

abbrev left_update : UpdateRegion
left_update = record { region = left_rect; waveform = du; flags = no_flags }

abbrev right_update : UpdateRegion
right_update = record { region = right_rect; waveform = gc16; flags = no_flags }

left_update-IsGray : IsGray left_update
left_update-IsGray e = ground arith

right_update-IsGray : IsGray right_update
right_update-IsGray e = ground arith

merge_all-Covers_example :
    Covers (merge_all left_update (right_update ∷ left_update ∷ [])) left_update
    × All
        (Covers (merge_all left_update (right_update ∷ left_update ∷ [])))
        (right_update ∷ left_update ∷ [])
merge_all-Covers_example =
    merge_all-Covers left_update (right_update ∷ left_update ∷ []) left_update-IsGray
      (right_update-IsGray, (left_update-IsGray, tt))

abbrev two_fingers : List RawEvent
two_fingers =
    ev_abs mt_slot (pos 1)
    ∷ ev_abs mt_tracking_id (pos 40)
    ∷ ev_abs mt_x (pos 12)
    ∷ ev_abs mt_slot (pos 2)
    ∷ ev_abs mt_tracking_id (negsuc 0)
    ∷ syn_report
    ∷ []

abbrev near_corner : Point
near_corner = point (pos 1) (pos 6)

abbrev far_corner : Point
far_corner = point (pos 5) (pos 3)

line_points-Traces_example :
    Traces near_corner far_corner
      (max (distance (pos 1) (pos 5)) (distance (pos 6) (pos 3)))
      (line_points 5 near_corner far_corner)
unfolding ◌-ℤ◌
line_points-Traces_example = line_points-Traces 5 near_corner far_corner (omega arith)

abbrev blank : Canvas
blank = record { width = 8; height = 8; pixel = λ p. 0xffff }

draw_line-Painted_example :
    (t : Traces near_corner far_corner
      (max (distance (pos 1) (pos 5)) (distance (pos 6) (pos 3)))
      (line_points 5 near_corner far_corner))
    × (d : Canvas) × (draw_line 5 near_corner far_corner 0 blank ≡ some (some d))
    × Painted 0 (near_corner ∷ t.rest) blank d
unfolding contains ◌-ℤ◌ leb_ℤ
draw_line-Painted_example =
    draw_line-Painted 5 near_corner far_corner 0 blank (omega arith) refl refl

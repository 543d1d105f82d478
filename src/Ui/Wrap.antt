-- ===== src/Ui/Wrap.antt =====
-- libs/rMlib/include/UI/Wrap.h: `doLayout` and `doDraw` of a wrapping row or column, on the sizes
-- that the children's layouts return. Along the axis a length is called main, across it cross.
use r_m2_stuff_rocket.Base.{ℕ, Option, none, some, List, [], ◌∷◌, ◌+◌, max, ltb, if◌then◌else◌}
use r_m2_stuff_rocket.Base.Int.{ℤ, pos, ◌+ℤ◌, ◌-ℤ◌, ltb_ℤ, half}
use r_m2_stuff_rocket.Ui.Constraints.{Extent}

pub data Axis : Type 0 where
  horizontal_axis vertical_axis : Axis

abbrev pub main_length : Axis → Extent → ℕ
main_length horizontal_axis s = s.width
main_length vertical_axis s = s.height

abbrev pub cross_length : Axis → Extent → ℕ
cross_length horizontal_axis s = s.height
cross_length vertical_axis s = s.width

-- `totalSize` and `runSizes`.
pub record Wrapped : Type 0 where
  pub total_main : ℕ
  pub total_cross : ℕ
  pub run_sizes : List ℕ

abbrev pub push_run : ℕ → Wrapped → Wrapped
push_run n w = record w { run_sizes = n ∷ w.run_sizes }

-- The loop of `doLayout`: `result_main` and `result_cross` are `result`, `row_main` and `row_cross`
-- are `rowSize`, both along and across the axis; `most` is the greatest size along it.
module _ (axis : Axis) (most : ℕ) where
  unfoldable pub wrap : ℕ → ℕ → ℕ → ℕ → List Extent → Wrapped
  wrap result_main result_cross row_main row_cross [] = record {
    total_main = max result_main row_main;
    total_cross = result_cross + row_cross;
    run_sizes = row_cross ∷ [];
  }
  wrap result_main result_cross row_main row_cross (s ∷ rest) =
      let broken = push_run row_cross (
        wrap (max result_main row_main) (result_cross + row_cross) (main_length axis s)
          (cross_length axis s) rest) in
      let onward =
        wrap result_main result_cross (row_main + main_length axis s)
          (max (cross_length axis s) row_cross) rest in
      if ltb most (row_main + main_length axis s) then broken else onward

-- A child where it is drawn.
pub record Placed : Type 0 where
  pub at_main : ℤ
  pub at_cross : ℤ
  pub size : Extent

abbrev pub and_then : Placed → Option (List Placed) → Option (List Placed)
and_then p none = none
and_then p (some ps) = some (p ∷ ps)

-- The loop of `doDraw` in a rectangle of length `room`. `runs` is what is left of `runSizes`, and
-- `none` is the exception of `runSizes.at`.
module _ (axis : Axis) (room : ℕ) (origin : ℤ) where
  unfoldable pub draw_all : ℤ → ℤ → List ℕ → List Extent → Option (List Placed)
  draw_all at_main at_cross runs [] = some []
  draw_all at_main at_cross runs (s ∷ rest) =
      let here =
        and_then (record { at_main = at_main; at_cross = at_cross; size = s })
          (draw_all (at_main +ℤ pos (main_length axis s)) at_cross runs rest) in
      let broken : Option (List Placed) = elim runs [
        | [] ↦ none
        | run ∷ left ↦
            and_then (record { at_main = origin; at_cross = at_cross +ℤ pos run; size = s })
              (draw_all (origin +ℤ pos (main_length axis s)) (at_cross +ℤ pos run) left rest)
      ] in
      if ltb_ℤ (pos room) (at_main +ℤ pos (main_length axis s)) then broken else here

-- `origin` of `doDraw`, on one axis.
abbrev pub centered : ℕ → ℕ → ℤ
centered room total = half (pos room -ℤ pos total)

-- `doDraw`, after `doLayout` under a greatest size `most`.
unfoldable pub draw_wrapped : Axis → ℕ → ℕ → ℕ → List Extent → Option (List Placed)
draw_wrapped axis most room_main room_cross sizes =
    let w = wrap axis most 0 0 0 0 sizes in
    draw_all axis room_main (centered room_main w.total_main) (centered room_main w.total_main)
      (centered room_cross w.total_cross) w.run_sizes sizes
